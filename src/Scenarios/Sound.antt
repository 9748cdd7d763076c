-- ===== src/Scenarios/Sound.antt =====
-- Runs of the core (bftcore.go) from a sound state: timeouts, and the vote that decides the height.
use gobft.Base.{
  ℕ, ◌≡◌, ◌<◌, refl, ap, inl, inr, pos, leb_ℤ, is_some, Bool, true, Option, List, [], ◌∷◌, none,
  some, arith, done, lookup, insert, int_key, int64, ◌+ℤ◌, quot_ℤ, bytes_equal,
}
use gobft.Errors.{VoteError}
use gobft.Message.{ProposedData, vote_msg}
use gobft.Message.Digest.{vote_digest, vote_preimage}
use gobft.Committee.{sign_vote, verify_signature, get_voting_power}
use gobft.VoteSet.{add_known_vote, add_verified_vote, refusal, get_vote, pd_add_vote, quorum}
use gobft.VoteSet.History.{after_votes}
use gobft.HeightVoteSet.Polkas.{polka-none, IsCounted, write_round-IsCounted}
use gobft.Core.State.{Core, TimeoutInfo, propose_step, precommit_wait}
use gobft.Core.Messages.{handle_timeout, tock}
use gobft.Core.Votes.{core_add_vote}
use gobft.Core.Within.{IsSound, NoPolkaAfter, Stays}
use gobft.Core.Timeouts.{IsTimeoutStep, handle_timeout-Stays}
use gobft.Core.Progress.{IsRoundStep, IsPast, handle_timeout-IsPast}
use gobft.Core.NextSound.{IsWorking, IsWorking-after, Proceeds}
use gobft.Core.Adding.{HasRoom}
use gobft.Message.{nil_data, prevote_type}
use gobft.VoteSet.{two_thirds_majority}
use gobft.HeightVoteSet.{HeightVoteSet, hvs_add_vote, prevotes_of}
use gobft.Core.LockFate.{LockAfter}
use gobft.Core.Unlocking.{core_add_vote-LockAfter}
use gobft.Base.{if◌then◌else◌, false, ltb_ℤ, int64, ◌+ℤ◌, ◌||◌, true, some, ◌⊎◌}
use gobft.Config.{watermark}
use gobft.Errors.{invalid_round}
use gobft.Core.Precommit.{precommit_choice, enter_precommit}
use gobft.Core.Locks.{PrecommitCase}
use gobft.Core.Precommitting.{Precommitted, sound_choice, enter_precommit_lem}
use gobft.Core.Ballots.{Advances}
use gobft.Core.Inputs.{Input, arrives, turns, FitsInputs, run_inputs}
use gobft.Core.Runs.{run_inputs-Advances}
use gobft.Core.Soundness.{core_add_vote-Answers}
use gobft.Scenarios.{members, decided_1, four-IsCommittee, node, prevote_for, precommit_for}
use gobft.Scenarios.Heights.{
  height_1, no_rounds, voted_round, height_1-IsHeightValid, height_1-Tracks,
}
use gobft.Scenarios.Cores.{env_1, core_1, locked_core, locked_core-IsLocked, core_1-is_validator}

no_sets_after : (r : ℕ) → 0 < r → lookup (pos r) height_1.round_vote_sets ≡ none
unfolding lookup insert
no_sets_after r late = ground arith

pub no_later_round : NoPolkaAfter height_1 0
no_later_round r late =
    ap (λ (x : ProposedData × Bool). x.1) (polka-none height_1 (pos r) (no_sets_after r late))

pub height_1-IsCounted : IsCounted height_1
unfolding after_votes add_known_vote refusal sign_vote get_vote lookup verify_signature bytes_equal
    vote_digest vote_preimage add_verified_vote insert pd_add_vote get_voting_power quorum int64
    ◌+ℤ◌ quot_ℤ
height_1-IsCounted =
    write_round-IsCounted no_rounds (pos 0) voted_round (refl, refl) (λ r rvs e. cc)

pub no_lock : leb_ℤ (pos 0) core_1.locked_round ≡ true → is_some core_1.locked_proposal ≡ true
no_lock e = cc

abbrev pub core_1_sound : IsSound env_1 members core_1
core_1_sound = record {
  votes = height_1;
  m = 0;
  n = 0;
  within = record {
    has_votes = refl;
    valid = height_1-IsHeightValid;
    tracks = height_1-Tracks;
    in_round = refl;
    one_ahead = inl (refl, refl);
    real_step = inr refl;
    whole_lock = no_lock;
  };
  no_polka = no_later_round;
  counted = height_1-IsCounted;
}

core_1-IsWorking : IsWorking env_1 core_1
core_1-IsWorking = record {
  has_key = λ e. ground arith;
  signs = λ digest e. cc;
  moves =
      λ commit. (decided_1, 1, refl, record { last = refl; at_least = refl; fits = ground arith });
}

-- The timeouts of the propose step, and of the wait for precommits, in round 0.
abbrev propose_timeout : TimeoutInfo
propose_timeout = record { duration = pos 5; height = pos 1; round = pos 0; step = propose_step }

abbrev pub wait_timeout : TimeoutInfo
wait_timeout = record { duration = pos 5; height = pos 1; round = pos 0; step = precommit_wait }

handle_timeout-Stays_example :
    (c' : Core) × (handle_timeout env_1 core_1 propose_timeout ≡ done c')
    × Stays env_1 members core_1 c'
handle_timeout-Stays_example =
    handle_timeout-Stays env_1 members core_1 propose_timeout 0 core_1_sound (ground arith)
      (IsTimeoutStep.of_propose refl) refl (omega arith)

handle_timeout-IsPast_example :
    (c' : Core) × (handle_timeout env_1 core_1 wait_timeout ≡ done c') × IsPast c' wait_timeout
handle_timeout-IsPast_example =
    handle_timeout-IsPast env_1 members core_1 wait_timeout 0 core_1_sound (ground arith)
      (IsRoundStep.of_precommit_wait refl) refl refl (omega arith)

fourth_fits : HasRoom env_1 core_1 height_1 (precommit_for 4 5)
unfolding after_votes add_known_vote refusal sign_vote get_vote lookup verify_signature bytes_equal
    vote_digest vote_preimage add_verified_vote insert pd_add_vote get_voting_power quorum int64
    ◌+ℤ◌ quot_ℤ
fourth_fits = ground arith

core_add_vote-Answers_example :
    (c' : Core) × (added : Bool) × (e : Option VoteError) × (core_add_vote env_1 core_1
        (some (precommit_for 4 5))
      ≡ done (c', added, e))
    × Proceeds env_1 members core_1 c'
core_add_vote-Answers_example =
    core_add_vote-Answers env_1 members core_1_sound (precommit_for 4 5) four-IsCommittee
      core_1-IsWorking (ground arith) fourth_fits

abbrev two_inputs : List (ℕ × Input)
two_inputs =
    (51, turns (tock propose_timeout))
    ∷ (52, arrives (record { msg = vote_msg (precommit_for 4 5); peer = some 3 }))
    ∷ []

two_fit : FitsInputs env_1 core_1 two_inputs
two_fit = (
  inr (IsTimeoutStep.of_propose refl, λ n e. ground arith, λ n e. (0, refl, omega arith)),
  λ c h. (tt, λ c' h'. tt),
)

run_inputs-Advances_example :
    (c' : Core) × (run_inputs env_1 core_1 two_inputs ≡ done c')
    × Advances env_1 (λ commits. members) core_1 c'
run_inputs-Advances_example =
    run_inputs-Advances env_1 (λ commits. members) two_inputs core_1 (λ commits. four-IsCommittee)
      core_1_sound two_fit

sound_choice_example :
    (result : Core × ProposedData) × (precommit_choice core_1 (pos 0) ≡ done result)
    × PrecommitCase core_1 height_1 (pos 0) result
sound_choice_example = sound_choice env_1 members core_1 core_1_sound

enter_precommit_lem_example :
    (c' : Core) × (chosen : Core × ProposedData) × (enter_precommit env_1 core_1 (pos 1) (pos 0)
      ≡ done c')
    × PrecommitCase core_1 height_1 (pos 0) chosen
    × Precommitted env_1 core_1 c' (pos 1) (pos 0) chosen
enter_precommit_lem_example =
    enter_precommit_lem env_1 members core_1 core_1_sound (pos 1) core_1-is_validator refl

-- The same core locked on 5, and the last prevote.
abbrev locked_core_sound : IsSound env_1 members locked_core
locked_core_sound = record {
  votes = height_1;
  m = 0;
  n = 0;
  within = record {
    has_votes = refl;
    valid = height_1-IsHeightValid;
    tracks = height_1-Tracks;
    in_round = refl;
    one_ahead = inl (refl, refl);
    real_step = inr refl;
    whole_lock = λ e. refl;
  };
  no_polka = no_later_round;
  counted = height_1-IsCounted;
}

last_prevote_fits : HasRoom env_1 locked_core height_1 (prevote_for 4 6)
unfolding after_votes add_known_vote refusal sign_vote get_vote lookup verify_signature bytes_equal
    vote_digest vote_preimage add_verified_vote insert pd_add_vote get_voting_power quorum int64
    ◌+ℤ◌ quot_ℤ
last_prevote_fits = ground arith

last_height : (prevote_for 4 6).height ≡ locked_core.height
unfolding sign_vote
last_height = refl

last_type : (prevote_for 4 6).type_ ≡ prevote_type
unfolding sign_vote
last_type = refl

core_add_vote-LockAfter_example :
    (((ltb_ℤ (int64 (locked_core.round +ℤ watermark)) (prevote_for 4 6).round
          || ltb_ℤ (prevote_for 4 6).round (pos 0))
        ≡ true)
      × (core_add_vote env_1 locked_core (some (prevote_for 4 6))
          ≡ done (locked_core, false, some invalid_round)))
    ⊎ ((c' : Core) × (votes' : HeightVoteSet) × (added : Bool) × (e : Option VoteError)
        × (hvs_add_vote (node 1) height_1 (prevote_for 4 6) ≡ done (votes', added, e))
        × (core_add_vote env_1 locked_core (some (prevote_for 4 6)) ≡ done (c', added, e))
        × LockAfter
            (pos 0)
            5
            (pos 0)
            (prevote_for 4 6).round
            (if added
              then two_thirds_majority (prevotes_of votes' (prevote_for 4 6).round)
              else (nil_data, false))
            c')
core_add_vote-LockAfter_example =
    core_add_vote-LockAfter env_1 members locked_core_sound (prevote_for 4 6) (pos 0) 5
      four-IsCommittee (IsWorking-after env_1 core_1 locked_core refl refl core_1-IsWorking)
      (omega arith) last_prevote_fits last_height last_type locked_core-IsLocked
