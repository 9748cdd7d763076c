-- ===== src/Scenarios/Once.antt =====
-- A second call of `enterPrevote` and `enterPrecommit` (bftcore.go) after a run to the next round.
use gobft.Base.{
  ℕ, ◌≡◌, refl, sym, ◌∙◌, subst, inr, pos, some, List, [], ◌∷◌, done, done_injective, arith,
}
use gobft.Message.{vote_msg}
use gobft.Core.State.{Core}
use gobft.Core.Enter.{enter_prevote}
use gobft.Core.Precommit.{enter_precommit}
use gobft.Core.Messages.{tock}
use gobft.Core.Within.{IsSound}
use gobft.Core.Transitions.{Within, enter_prevote-Within, enter_precommit-Within}
use gobft.Core.Timeouts.{IsTimeoutStep}
use gobft.Core.Inputs.{Input, arrives, turns, FitsInputs, at_time, run_inputs}
use gobft.Core.Once.{prevotes_once, precommits_once}
use gobft.Scenarios.{members, four-IsCommittee, precommit_for}
use gobft.Scenarios.Cores.{env_1, core_1, precommitted, enters}
use gobft.Scenarios.Sound.{core_1_sound, wait_timeout}

-- The wait for precommits ends, and a precommit arrives.
abbrev inputs : List (ℕ × Input)
inputs =
    (60, turns (tock wait_timeout))
    ∷ (61, arrives (record { msg = vote_msg (precommit_for 4 5); peer = some 3 }))
    ∷ []

inputs_fit : (c : Core) → c.round ≡ pos 0 → FitsInputs env_1 c inputs
inputs_fit c at = (
  inr (
    IsTimeoutStep.of_precommit_wait refl,
    λ n e. let is_n : pos 0 ≡ pos n = sym at ∙ e in ground (arith, is_n),
    λ n e. (0, refl, omega arith),
  ),
  λ c' h. (tt, λ c'' h'. tt),
)

within-IsSound :
    (c : Core) → Within env_1 members core_1_sound.within (pos 1) c → IsSound env_1 members c
within-IsSound c (w, h, co, step) = record {
  votes = core_1_sound.votes;
  m = core_1_sound.m;
  n = core_1_sound.n;
  within = w;
  no_polka = core_1_sound.no_polka;
  counted = core_1_sound.counted;
}

precommitted-Within : Within env_1 members core_1_sound.within (pos 1) precommitted
precommitted-Within =
    let (c', run, w) =
      enter_precommit-Within env_1 members core_1_sound.within (pos 1) core_1_sound.no_polka in
    subst (Within env_1 members core_1_sound.within (pos 1)) (done_injective (sym run ∙ enters)) w

prevotes_once_example :
    (c' : Core) × (run_inputs env_1 (enter_prevote env_1 core_1 (pos 1) (pos 0)) inputs ≡ done c')
    × ((now : ℕ) → enter_prevote (at_time env_1 now) c' (pos 1) (pos 0) ≡ c')
prevotes_once_example =
    prevotes_once env_1 (λ commits. members) inputs core_1 (pos 1) (pos 0)
      (λ commits. four-IsCommittee)
      ((enter_prevote-Within env_1 members core_1_sound.within (pos 1)).1)
      (within-IsSound _ (enter_prevote-Within env_1 members core_1_sound.within (pos 1)))
      (inputs_fit _ (enter_prevote-Within env_1 members core_1_sound.within (pos 1)).0.in_round)

precommits_once_example :
    (c' : Core) × (run_inputs env_1 precommitted inputs ≡ done c')
    × ((now : ℕ) → enter_precommit (at_time env_1 now) c' (pos 1) (pos 0) ≡ done c')
precommits_once_example =
    precommits_once env_1 (λ commits. members) inputs core_1 precommitted (pos 1) (pos 0)
      (λ commits. four-IsCommittee) enters precommitted-Within.1
      (within-IsSound precommitted precommitted-Within)
      (inputs_fit precommitted precommitted-Within.0.in_round)
