-- ===== src/Scenarios/Starts.antt =====
-- A validator (bftcore.go) that is started at height 2, enters round 0 and proposes.
use gobft.Base.{
  Outcome, ℕ, ◌+◌, ◌<◌, ◌≡◌, refl, sym, ap, ◌∙◌, subst, inr, ℤ, pos, leb_ℤ, true, none, some, List,
  [], ◌∷◌, arith, done, panic, length, lookup, insert, int_key, int64, ◌+ℤ◌, ◌-ℤ◌, quot_ℤ,
}
use gobft.Message.{Commit, new_vote, Vote, VoteType, vote_msg, prevote_type, precommit_type}
use gobft.Weights.{elem, weight}
use gobft.Config.{default_config, commit, propose}
use gobft.VoteSet.{VoteSet, new_vote_set}
use gobft.HeightVoteSet.{
  HeightVoteSet, RoundVoteSet, new_height_vote_set, add_round, add_rounds, set_round,
}
use gobft.Core.Decide.{update_to_app_state, move_to, last_precommits, schedule_round0, saturate}
use gobft.Core.Enter.{
  enter_new_round, advance_round, enter_propose, end_propose, do_propose, proposal_data,
  is_ready_to_prevote, enter_prevote, enter_prevote_fetch, prevote_data,
}
use gobft.Message.Digest.{vote_digest, vote_preimage}
use gobft.Message.Validate.{validate_basic, validate_vote}
use gobft.Committee.{
  get_self_pub_key, sign_vote, AppState, get_voting_power, get_total_voting_power,
}
use gobft.Core.State.{
  Core, Env, MsgInfo, TimeoutInfo, update_round_step, schedule_timeout, is_validator, sign_add_vote,
  send_internal_message, new_height,
}
use gobft.Core.Messages.{
  start_fresh, receive, handle_timeout, on_timeout, recv_msg, start, new_core, next_message, tock,
}
use gobft.Core.Ballots.{AreCommittees, Decides}
use gobft.Core.Inputs.{Input, arrives, turns, act, run_inputs, FitsQueue, FitsInputs}
use gobft.Core.Started.{start-Advances}
use gobft.Core.Timeouts.{IsTimeoutStep}
use gobft.Core.Within.{IsSound}
use gobft.Core.NextSound.{IsWorking}
use gobft.Core.Adding.{HasRoom}
use gobft.Scenarios.{members, four, decided_1, key, hashes, four-IsCommittee, precommit_for}

-- The application moves on with every commit.
abbrev state_after : List Commit → AppState
state_after commits = record decided_1 { last_height = pos (length commits + 1) }

abbrev env_2 : Env
env_2 = record {
  cfg = default_config;
  priv_val = key 1;
  hashing = hashes;
  now = 50;
  committee = λ commits. record four { get_app_state = some (state_after commits) };
}

abbrev members_2 : List Commit → List ℕ
members_2 commits = members

env_2-AreCommittees : AreCommittees env_2 members_2
unfolding elem weight get_voting_power get_total_voting_power
env_2-AreCommittees commits = record {
  distinct = four-IsCommittee.distinct;
  complete = λ a h. ground arith;
  powers = λ a. ground arith;
  total = refl;
  small = omega arith;
}

abbrev round0 : TimeoutInfo
round0 = record { duration = pos 0; height = pos 2; round = pos 0; step = new_height }

abbrev late_vote : MsgInfo
late_vote = record { msg = vote_msg (precommit_for 2 5); peer = some 3 }

-- The core enters round 0, takes a vote for the height before, and handles its own proposal.
abbrev inputs : List (ℕ × Input)
inputs = (60, turns (tock round0)) ∷ (61, arrives late_vote) ∷ (62, turns next_message) ∷ []

abbrev result : Outcome Core → Core
result run = elim run [ done x ↦ x | panic ↦ new_core ]

abbrev first_core : Core
first_core = elim (start env_2 new_core) [ done x ↦ x.0 | panic ↦ new_core ]

abbrev second_core : Core
second_core = result (act (record env_2 { now = 60 }) first_core (turns (tock round0)))

abbrev third_core : Core
third_core = result (act (record env_2 { now = 61 }) second_core (arrives late_vote))

early : (n : ℕ) → pos 0 ≡ pos n → n < 9223372036854775000
early n e = ground arith

abbrev empty_set : ℤ → VoteType → VoteSet
empty_set round t = record {
  height = pos 2;
  round = round;
  type_ = t;
  base = 5;
  sum = pos 0;
  distinct_voter = 0;
  minor_quorum = 0;
  maj23 = 0;
  votes_by_proposed_data = [];
}

abbrev empty_round : ℤ → RoundVoteSet
empty_round round = record {
  prevotes = empty_set round prevote_type;
  precommits = empty_set round precommit_type;
}

-- The vote sets of rounds 0 and 1.
abbrev rounds_upto_1 : HeightVoteSet
rounds_upto_1 = record {
  height = pos 2;
  base = 5;
  round = pos 1;
  round_vote_sets = (pos 0, empty_round (pos 0)) ∷ (pos 1, empty_round (pos 1)) ∷ [];
}

started_round : first_core.round ≡ pos 0
unfolding start start_fresh new_core update_to_app_state move_to last_precommits update_round_step
    new_height_vote_set add_round insert lookup schedule_round0 saturate schedule_timeout int64 ◌+ℤ◌
    ◌-ℤ◌ commit quot_ℤ default_config new_vote_set
started_round = refl

abbrev own_proposal : Vote
own_proposal = record {
  type_ = 32;
  height = pos 2;
  round = pos 0;
  timestamp = 60;
  proposed = 5;
  prev = 5;
  address = 1;
  signature = 1 ∷ 32 ∷ [];
}

-- The core whose own proposal stands first in the queue.
third_lem :
    (rest : List MsgInfo) × (third_core.msg_queue
      ≡ record { msg = vote_msg own_proposal; peer = none } ∷ rest)
    × (third_core.height ≡ pos 2)
    × (third_core.round ≡ pos 0)
    × (third_core.committed ≡ [])
    × (third_core.votes ≡ some rounds_upto_1)
unfolding start start_fresh new_core update_to_app_state move_to last_precommits update_round_step
    new_height_vote_set add_round insert lookup schedule_round0 saturate schedule_timeout int64 ◌+ℤ◌
    ◌-ℤ◌ commit quot_ℤ default_config new_vote_set act receive handle_timeout on_timeout
    enter_new_round advance_round set_round add_rounds enter_propose end_propose do_propose
    proposal_data get_self_pub_key is_ready_to_prevote enter_prevote enter_prevote_fetch
    is_validator sign_add_vote send_internal_message sign_vote vote_digest vote_preimage
    prevote_data recv_msg propose validate_basic validate_vote new_vote
third_lem = (_, refl, refl, refl, refl, refl)

proposal_fits :
    (c : Core) (votes : HeightVoteSet)
    → c.committed ≡ []
    → c.votes ≡ some rounds_upto_1
    → c.votes ≡ some votes
    → HasRoom (record env_2 { now = 62 }) c votes own_proposal
unfolding get_voting_power lookup
proposal_fits c votes co v e =
    let same : rounds_upto_1 ≡ votes =
      ap (λ o. elim o [ none ↦ rounds_upto_1 | some x ↦ x ]) (sym v ∙ e) in
    subst (λ x. HasRoom (record env_2 { now = 62 }) c x own_proposal) same (ground arith)

third-IsWorking :
    (c : Core) → c.height ≡ pos 2 → c.committed ≡ [] → IsWorking (record env_2 { now = 62 }) c
third-IsWorking c h co = record {
  has_key = λ e. ground arith;
  signs = λ digest e. cc;
  moves = λ commit. (
    record decided_1 { last_height = pos 2 },
    2,
    ap (λ cs. some (state_after (commit ∷ cs))) co,
    record { last = refl; at_least = ap (λ x. leb_ℤ x (pos 2)) h; fits = ground arith },
  );
}

third_fits : FitsInputs env_2 third_core ((62, turns next_message) ∷ [])
third_fits =
    let (rest, queue, height, round, none_yet, votes) = third_lem in
    (
      subst (FitsQueue (record env_2 { now = 62 }) third_core) (sym queue) (λ valid. record {
        working = third-IsWorking _ height none_yet;
        near = λ n e. early n (sym round ∙ e);
        room = λ vs e. proposal_fits third_core vs none_yet votes e;
      }),
      λ c h. tt,
    )

second_fits : FitsInputs env_2 second_core ((61, arrives late_vote) ∷ (62, turns next_message) ∷ [])
second_fits = (
  tt,
  λ c h. subst (λ x. FitsInputs env_2 x ((62, turns next_message) ∷ [])) (ap result h) third_fits,
)

first_fits : FitsInputs env_2 first_core inputs
first_fits = (
  inr (
    IsTimeoutStep.of_new_height refl,
    λ n e. ground (arith, early n (sym started_round ∙ e)),
    λ n e. (0, refl, omega arith),
  ),
  λ c h.
      subst (λ x. FitsInputs env_2 x ((61, arrives late_vote) ∷ (62, turns next_message) ∷ []))
        (ap result h) second_fits,
)

inputs_fit : (c : Core) → start env_2 new_core ≡ done (c, true) → FitsInputs env_2 c inputs
inputs_fit c h =
    subst (λ x. FitsInputs env_2 x inputs) (ap (λ o. elim o [ done x ↦ x.0 | panic ↦ new_core ]) h)
      first_fits

start-Advances_example :
    (c : Core) × (c' : Core) × (start env_2 new_core ≡ done (c, true))
    × (run_inputs env_2 c inputs ≡ done c')
    × IsSound env_2 (members_2 c'.committed) c'
    × Decides (pos 2) [] c'.height c'.committed
start-Advances_example =
    start-Advances env_2 members_2 (state_after []) 1 inputs env_2-AreCommittees refl refl
      (ground arith) inputs_fit
