-- ===== src/Scenarios/Cores.antt =====
-- Runs of the core (bftcore.go) at height 1, round 0, and of its configuration (config.go).
use gobft.Base.{
  ◌≡◌, refl, pos, negsuc, true, false, none, some, [], ◌∷◌, done, lookup, insert, int_key, int64,
  ◌+ℤ◌, quot_ℤ, bytes_equal,
}
use gobft.Message.{prevote_type, Vote, vote_msg, new_vote}
use gobft.Message.Digest.{vote_digest, vote_preimage}
use gobft.Committee.{sign_vote, verify_signature, get_voting_power, get_self_pub_key}
use gobft.Config.{default_config, fetch_interval}
use gobft.VoteSet.{
  add_known_vote, add_verified_vote, refusal, get_vote, pd_add_vote, quorum, two_thirds_majority,
}
use gobft.VoteSet.History.{after_votes}
use gobft.HeightVoteSet.{prevotes_of, pol_info, pol_below}
use gobft.Core.State.{Core, Env, broadcast, schedule, is_validator, propose_step, prevote_fetch}
use gobft.Core.Frames.{signed_vote}
use gobft.Core.Enter.{enter_prevote, prevote_data, set_byzantine_prevote}
use gobft.Core.Precommit.{precommit_choice, settle_polka, end_precommit, enter_precommit}
use gobft.Core.Voting.{IsLocked, enter_prevote-IsLocked}
use gobft.Scenarios.{key, hashes, four, prevote_for}
use gobft.Scenarios.Heights.{height_1}

abbrev pub env_1 : Env
env_1 = record {
  cfg = default_config;
  priv_val = key 1;
  hashing = hashes;
  now = 50;
  committee = λ commits. four;
}

abbrev pub proposal_5 : Vote
proposal_5 = prevote_for 1 5

-- At the propose step of height 1, with a proposal of 5 and the votes of three validators.
abbrev pub core_1 : Core
core_1 = record {
  height = pos 1;
  round = pos 0;
  step = propose_step;
  start_time = pos 0;
  commit_time = 0;
  proposal = some proposal_5;
  locked_round = negsuc 0;
  locked_proposal = none;
  votes = some height_1;
  commit_round = negsuc 0;
  last_commit = none;
  last_committed_data = 9;
  has_recv_commit_records = false;
  in_fetch = false;
  byzantine_prevote = none;
  msg_queue = [];
  started = true;
  effects = [];
  committed = [];
}

-- The same core, locked on 5.
abbrev pub locked_core : Core
locked_core = record core_1 { locked_round = pos 0; locked_proposal = some proposal_5 }

pub locked_core-IsLocked : IsLocked locked_core (pos 0) 5
unfolding sign_vote
locked_core-IsLocked = record {
  at_round = refl;
  real_round = refl;
  proposal = proposal_5;
  is_locked = refl;
  same_data = refl;
}

pub core_1-is_validator : is_validator env_1 core_1 ≡ true
unfolding is_validator get_self_pub_key
core_1-is_validator = refl

locked_core-is_validator : is_validator env_1 locked_core ≡ true
unfolding is_validator get_self_pub_key
locked_core-is_validator = refl

enter_prevote-IsLocked_example :
    let c' = enter_prevote env_1 locked_core (pos 1) (pos 0) in
    (c'.effects
      ≡ schedule (record {
        duration = fetch_interval;
        height = pos 1;
        round = pos 0;
        step = prevote_fetch;
      })
        ∷ broadcast (
            vote_msg (signed_vote env_1 locked_core (new_vote 50 prevote_type (pos 1) (pos 0) 5 9)))
        ∷ [])
    × IsLocked c' (pos 0) 5
    × (c'.round ≡ pos 0)
    × (c'.step ≡ prevote_fetch)
enter_prevote-IsLocked_example =
    enter_prevote-IsLocked env_1 locked_core (pos 1) (pos 0) (pos 0) 5 locked_core-IsLocked refl
      locked_core-is_validator refl

-- What it chooses: to lock on 5, and precommit it.
choice_1 : precommit_choice core_1 (pos 0) ≡ done (locked_core, 5)
unfolding precommit_choice settle_polka prevotes_of pol_info pol_below two_thirds_majority
    after_votes add_known_vote refusal sign_vote get_vote lookup verify_signature bytes_equal
    vote_digest vote_preimage add_verified_vote insert pd_add_vote get_voting_power quorum int64
    ◌+ℤ◌ quot_ℤ
choice_1 = refl

-- The core after its precommit for 5.
abbrev pub precommitted : Core
precommitted = end_precommit env_1 (pos 1) (pos 0) (locked_core, 5)

pub enters : enter_precommit env_1 core_1 (pos 1) (pos 0) ≡ done precommitted
unfolding enter_precommit precommit_choice settle_polka prevotes_of pol_info pol_below
    two_thirds_majority after_votes add_known_vote refusal sign_vote get_vote lookup
    verify_signature bytes_equal vote_digest vote_preimage add_verified_vote insert pd_add_vote
    get_voting_power quorum int64 ◌+ℤ◌ quot_ℤ
enters = refl

-- A byzantine prevote is for the data set, even if the validator is locked on other data.
byzantine_data : prevote_data env_1 (set_byzantine_prevote locked_core (some 7)) ≡ 7
unfolding prevote_data
byzantine_data = refl
