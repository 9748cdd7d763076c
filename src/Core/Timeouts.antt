-- ===== src/Core/Timeouts.antt =====
-- The timeouts (bftcore.go): none that the core scheduled in a round that it has entered makes it panic.
use gobft.Base.{
  ℕ, ◌<◌, ◌≤◌, ◌≡◌, refl, sym, ap, ◌∙◌, ap₂, inl, inr, pos, ◌+ℤ◌, int64, ltb_ℤ, false, List,
  Outcome, done, ◌>>=◌, arith, Bool-cases,
}
use gobft.Message.{PubKey}
use gobft.HeightVoteSet.{HeightVoteSet}
use gobft.HeightVoteSet.Polkas.{IsCounted}
use gobft.Core.State.{
  Core, Env, TimeoutInfo, RoundStepType, new_height, new_round, propose_step, prevote_fetch,
  prevote_wait, precommit_fetch, precommit_wait,
}
use gobft.Core.Enter.{enter_new_round, enter_propose, enter_prevote}
use gobft.Core.Precommit.{enter_precommit, fetch_missing_votes}
use gobft.Core.Messages.{is_old, on_timeout, handle_timeout}
use gobft.Core.Within.{not_before_refl, IsWithin, NoPolkaAfter, IsSound, Stays}
use gobft.Core.Transitions.{Within, enter_prevote-Within, enter_precommit-Within}
use gobft.Core.Returning.{
  stays, enter_new_round-Stays, enter_propose-Stays, fetch_missing_votes-Returns,
  precommit_wait-Returns,
}

-- The steps for which a timeout is scheduled, and that of a new round.
pub data IsTimeoutStep (step : RoundStepType) : Type 0 where
  of_new_height : step ≡ new_height → IsTimeoutStep step
  of_new_round : step ≡ new_round → IsTimeoutStep step
  of_propose : step ≡ propose_step → IsTimeoutStep step
  of_prevote_fetch : step ≡ prevote_fetch → IsTimeoutStep step
  of_prevote_wait : step ≡ prevote_wait → IsTimeoutStep step
  of_precommit_fetch : step ≡ precommit_fetch → IsTimeoutStep step
  of_precommit_wait : step ≡ precommit_wait → IsTimeoutStep step

-- What `handleTimeout` does for each step.
module _ (env : Env) (c : Core) (ti : TimeoutInfo) where
  abbrev pub next_round : Outcome Core
  next_round =
      enter_precommit env c ti.height ti.round
      >>= (λ c'. enter_new_round env c' ti.height (int64 (ti.round +ℤ pos 1)))

  abbrev pub ByStep : RoundStepType → Outcome Core → Type 0
  ByStep step call = ti.step ≡ step → on_timeout env c ti ≡ call

  pub at_new_height : ByStep new_height (enter_new_round env c ti.height (pos 0))
  unfolding on_timeout
  at_new_height e = ground (arith, e)

  pub at_new_round : ByStep new_round (done (enter_propose env c ti.height (pos 0)))
  unfolding on_timeout
  at_new_round e = ground (arith, e)

  pub at_propose : ByStep propose_step (done (enter_prevote env c ti.height ti.round))
  unfolding on_timeout
  at_propose e = ground (arith, e)

  pub at_prevote_fetch : ByStep prevote_fetch (fetch_missing_votes env c)
  unfolding on_timeout
  at_prevote_fetch e = ground (arith, e)

  pub at_prevote_wait : ByStep prevote_wait (enter_precommit env c ti.height ti.round)
  unfolding on_timeout
  at_prevote_wait e = ground (arith, e)

  pub at_precommit_fetch : ByStep precommit_fetch (fetch_missing_votes env c)
  unfolding on_timeout
  at_precommit_fetch e = ground (arith, e)

  pub at_precommit_wait : ByStep precommit_wait next_round
  unfolding on_timeout
  at_precommit_wait e = ground (arith, e)

module _ (env : Env) (members : List PubKey) {c : Core} {votes : HeightVoteSet} {m n : ℕ}
    (w : IsWithin env members c votes m n) (after : NoPolkaAfter votes n)
    (counted : IsCounted votes) (fits : n < 9223372036854775805) (ti : TimeoutInfo)
    (here : ti.round ≡ pos n) where
  abbrev Ends : Outcome Core → Type 0
  Ends call = (c' : Core) × (call ≡ done c') × Stays env members c c'

  via : {call call' : Outcome Core} → call ≡ call' → Ends call' → Ends call
  via e (c', run, st) = (c', e ∙ run, st)

  within_round : {c' : Core} → Within env members w ti.height c' → Stays env members c c'
  within_round = stays env members w after counted ti.height

  on_timeout-Stays : IsTimeoutStep ti.step → Ends (on_timeout env c ti)
  on_timeout-Stays (of_new_height e) =
      via (at_new_height env c ti e)
        (enter_new_round-Stays env members w after counted ti.height 0 (omega arith))
  on_timeout-Stays (of_new_round e) =
      via (at_new_round env c ti e)
        (_, refl, enter_propose-Stays env members w after counted ti.height)
  on_timeout-Stays (of_propose e) =
      via (at_propose env c ti e ∙ ap (λ r. done (enter_prevote env c ti.height r)) here)
        (_, refl, within_round (enter_prevote-Within env members w ti.height))
  on_timeout-Stays (of_prevote_fetch e) =
      via (at_prevote_fetch env c ti e)
        (fetch_missing_votes-Returns env members w after counted ti.height)
  on_timeout-Stays (of_prevote_wait e) =
      let (c', run, w') = enter_precommit-Within env members w ti.height after in
      via (at_prevote_wait env c ti e ∙ ap (enter_precommit env c ti.height) here)
        (c', run, within_round w')
  on_timeout-Stays (of_precommit_fetch e) =
      via (at_precommit_fetch env c ti e)
        (fetch_missing_votes-Returns env members w after counted ti.height)
  on_timeout-Stays (of_precommit_wait e) =
      via
        (at_precommit_wait env c ti e
          ∙ ap
              (λ r.
                enter_precommit env c ti.height r
                >>= (λ c'. enter_new_round env c' ti.height (int64 (r +ℤ pos 1))))
              here)
        (precommit_wait-Returns env members w after counted ti.height fits)

pub still_here :
    (c : Core) (ti : TimeoutInfo) (n k : ℕ)
    → c.round ≡ pos n
    → ti.round ≡ pos k
    → k ≤ n
    → is_old c ti ≡ false
    → ti.round ≡ pos n
still_here c ti n k at e le new =
    let late : ltb_ℤ (pos k) (pos n) ≡ false = ap₂ ltb_ℤ (sym e) (sym at) ∙ ground (arith, new) in
    e ∙ ap pos (ground (arith, late))

-- A timeout that was scheduled for a round that the core has entered, in a core that is within a
-- height, is handled without a panic, as long as 64 bits hold the round after the next: the core
-- stays within its height, decides nothing, and no round after its own has a majority of prevotes.
pub handle_timeout-Stays :
    (env : Env) (members : List PubKey) (c : Core) (ti : TimeoutInfo) (k : ℕ)
    (s : IsSound env members c)
    → s.n < 9223372036854775805
    → IsTimeoutStep ti.step
    → ti.round ≡ pos k
    → k ≤ s.n
    → (c' : Core) × (handle_timeout env c ti ≡ done c') × Stays env members c c'
unfolding handle_timeout
handle_timeout-Stays env members c ti k s fits step at le = elim (Bool-cases (is_old c ti)) [
  | inl old ↦
      (c, rw old, record { sound = s; height = refl; later = not_before_refl c; committed = refl })
  | inr new ↦
      let here = still_here c ti s.n k s.within.in_round at le new in
      let (c', run, st) =
        on_timeout-Stays env members s.within s.no_polka s.counted fits ti here step in
      (c', rw new run, st)
]
