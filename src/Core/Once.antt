-- ===== src/Core/Once.antt =====
-- `enterPrevote` and `enterPrecommit` (bftcore.go) over a run: one vote of each kind in a round.
use gobft.Base.{
  ℕ, ◌≡◌, sym, subst, inl, inr, ℤ, ◌==ℤ◌, ==ℤ_iff, leb, true, List, done, done_injective, ◌>>=◌,
  >>=-eq-done, arith, Bool-cases,
}
use gobft.Message.{PubKey, Commit}
use gobft.Core.State.{Core, Env, RoundStepType, is_behind, prevote_step, precommit_step}
use gobft.Core.Enter.{enter_prevote}
use gobft.Core.Precommit.{precommit_choice, end_precommit, enter_precommit}
use gobft.Core.Within.{IsSound}
use gobft.Core.Transitions.{
  behind-same, prevoted-IsInRound, prevoted-step, end_precommit-SameHeight, end_precommit-step,
}
use gobft.Core.Ballots.{AreCommittees, goes_on}
use gobft.Core.Inputs.{Input, FitsInputs, at_time, run_inputs}
use gobft.Core.Runs.{run_inputs-Advances}

-- A core that is past a step stays past it.
still_behind :
    (c c' : Core) (height round : ℤ) (step : RoundStepType)
    → c.height ≡ height
    → goes_on c c' ≡ true
    → is_behind c height round step ≡ true
    → is_behind c' height round step ≡ true
still_behind c c' height round step h forward past =
    let same : (c.height ==ℤ height) ≡ true = (==ℤ_iff c.height height).1 h in
    ground (arith, same, forward, past)

at_position :
    (c : Core) (height round : ℤ) (step : RoundStepType)
    → c.round ≡ round
    → leb step c.step ≡ true
    → is_behind c height round step ≡ true
at_position c height round step at le =
    let same : (c.round ==ℤ round) ≡ true = (==ℤ_iff c.round round).1 at in ground (arith, same, le)

prevoted_past :
    (env : Env) (c : Core) (height round : ℤ)
    → is_behind (enter_prevote env c height round) height round prevote_step ≡ true
prevoted_past env c height round = elim (Bool-cases (is_behind c height round prevote_step)) [
  | inl e ↦
      subst (λ x. is_behind x height round prevote_step ≡ true)
        (sym (behind-same env c height round e)) e
  | inr e ↦
      at_position (enter_prevote env c height round) height round prevote_step
        (prevoted-IsInRound env c height round e).at_round (prevoted-step env c height round e)
]

precommitted_past :
    (env : Env) (c c' : Core) (height round : ℤ)
    → enter_precommit env c height round ≡ done c'
    → is_behind c' height round precommit_step ≡ true
unfolding enter_precommit
precommitted_past env c c' height round run =
    elim (Bool-cases (is_behind c height round precommit_step)) [
      | inl e ↦
          subst (λ x. is_behind x height round precommit_step ≡ true) (done_injective (rw e at run))
            e
      | inr e ↦
          let ends_it : (precommit_choice c round
                >>= (λ chosen. done (end_precommit env height round chosen)))
              ≡ done c' =
            rw e at run in
          let (chosen, choice, ends) = >>=-eq-done (precommit_choice c round) _ ends_it in
          let ended = end_precommit env height round chosen in
          let (s, here) = end_precommit-SameHeight env height round chosen.0 chosen.1 in
          subst (λ x. is_behind x height round precommit_step ≡ true) (done_injective ends)
            (at_position ended height round precommit_step here.at_round
              (end_precommit-step env height round chosen.0 chosen.1))
    ]

precommit-behind :
    (env : Env) (c : Core) (height round : ℤ)
    → is_behind c height round precommit_step ≡ true
    → enter_precommit env c height round ≡ done c
unfolding enter_precommit
precommit-behind env c height round e = rw e

-- Once `enterPrevote`, for a height, has left a sound core at that height, a call for the same height
-- and round changes nothing after any run, at any time, and so sends no second prevote: the run ends
-- without a panic, and the call leaves the core as it is. This holds of committees as their interface
-- documents them, and of inputs that fit the core that handles them, by `FitsInputs`.
pub prevotes_once :
    (env : Env) (members_of : List Commit → List PubKey) (inputs : List (ℕ × Input)) (c : Core)
    (height round : ℤ)
    → AreCommittees env members_of
    → let c1 = enter_prevote env c height round in
      c1.height ≡ height
      → IsSound env (members_of c1.committed) c1
      → FitsInputs env c1 inputs
      → (c' : Core) × (run_inputs env c1 inputs ≡ done c')
        × ((now : ℕ) → enter_prevote (at_time env now) c' height round ≡ c')
prevotes_once env members_of inputs c height round comms h s fits =
    let c1 = enter_prevote env c height round in
    let (c', run, a) = run_inputs-Advances env members_of inputs c1 comms s fits in
    (
      c',
      run,
      λ now. behind-same (at_time env now) c' height round (
          still_behind c1 c' height round prevote_step h a.forward
            (prevoted_past env c height round)),
    )

-- Once `enterPrecommit`, for a height, has left a sound core at that height, a call for the same height
-- and round changes nothing after any run, at any time, and so sends no second precommit: the run ends
-- without a panic, and the call leaves the core as it is. This holds of committees as their interface
-- documents them, and of inputs that fit the core that handles them, by `FitsInputs`.
pub precommits_once :
    (env : Env) (members_of : List Commit → List PubKey) (inputs : List (ℕ × Input)) (c c1 : Core)
    (height round : ℤ)
    → AreCommittees env members_of
    → enter_precommit env c height round ≡ done c1
    → c1.height ≡ height
    → IsSound env (members_of c1.committed) c1
    → FitsInputs env c1 inputs
    → (c' : Core) × (run_inputs env c1 inputs ≡ done c')
      × ((now : ℕ) → enter_precommit (at_time env now) c' height round ≡ done c')
precommits_once env members_of inputs c c1 height round comms entered h s fits =
    let (c', run, a) = run_inputs-Advances env members_of inputs c1 comms s fits in
    (
      c',
      run,
      λ now. precommit-behind (at_time env now) c' height round (
          still_behind c1 c' height round precommit_step h a.forward
            (precommitted_past env c c1 height round entered)),
    )
