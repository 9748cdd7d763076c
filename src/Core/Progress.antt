-- ===== src/Core/Progress.antt =====
-- The timeouts of a round (bftcore.go) move the core on.
use gobft.Base.{
  ℕ, ◌+◌, ◌≤◌, ◌<◌, ◌≡◌, refl, sym, ap, ap₂, ◌∙◌, subst, inl, inr, ℤ, pos, ◌+ℤ◌, int64, int64_add,
  ltb_ℤ, ◌==ℤ◌, ==ℤ_iff, leb, ltb, true, false, ◌||◌, ◌&&◌, List, Outcome, done, done_injective,
  ◌>>=◌, >>=-run, >>=-eq-done, arith, Bool-cases,
}
use gobft.Message.{PubKey}
use gobft.Core.State.{
  Core, Env, TimeoutInfo, RoundStepType, new_height, new_round, propose_step, prevote_step,
  prevote_fetch, prevote_wait, precommit_step, precommit_wait, is_behind, update_round_step,
  schedule_timeout,
}
use gobft.Core.Enter.{
  is_stale_round, enter_new_round, enter_propose, enter_prevote, enter_prevote_fetch,
}
use gobft.Core.Precommit.{precommit_choice, end_precommit, enter_precommit, enter_precommit_fetch}
use gobft.Core.Messages.{is_old, on_timeout, handle_timeout}
use gobft.Core.Within.{IsSound}
use gobft.Core.Rounds.{enter_propose-SameHeight}
use gobft.Core.Transitions.{enter_prevote-Within, enter_precommit-Within, behind-same}
use gobft.Core.NextRound.{not_stale, enter_new_round-HasEntered}
use gobft.Core.Timeouts.{
  still_here, at_new_height, at_new_round, at_propose, at_prevote_wait, at_precommit_wait,
}

-- The steps whose timeouts do not fetch votes.
pub data IsRoundStep (step : RoundStepType) : Type 0 where
  of_new_height : step ≡ new_height → IsRoundStep step
  of_new_round : step ≡ new_round → IsRoundStep step
  of_propose : step ≡ propose_step → IsRoundStep step
  of_prevote_wait : step ≡ prevote_wait → IsRoundStep step
  of_precommit_wait : step ≡ precommit_wait → IsRoundStep step

-- A core that is past a timeout of its height.
pub record IsPast (c : Core) (ti : TimeoutInfo) : Type 0 where
  pub same_height : c.height ≡ ti.height
  pub old : is_old c ti ≡ true

later_step :
    (c : Core) (ti : TimeoutInfo) (n : ℕ)
    → c.height ≡ ti.height
    → c.round ≡ pos n
    → ti.round ≡ pos n
    → ltb ti.step c.step ≡ true
    → IsPast c ti
later_step c ti n h at here lt = record {
  same_height = h;
  old =
      let same : (ti.round ==ℤ c.round) ≡ true = (==ℤ_iff ti.round c.round).1 (here ∙ sym at) in
      ground (arith, same, lt);
}

later_round :
    (c : Core) (ti : TimeoutInfo) (n r : ℕ)
    → c.height ≡ ti.height
    → c.round ≡ pos r
    → ti.round ≡ pos n
    → n < r
    → IsPast c ti
later_round c ti n r h at here lt = record {
  same_height = h;
  old =
      let late : ltb_ℤ ti.round c.round ≡ true = ap₂ ltb_ℤ here at ∙ ground arith in
      ground (arith, late);
}

-- A core that is not ahead of a step, in its own height and round, is at it or past it.
behind_step :
    (c : Core) (height : ℤ) (n : ℕ) (step : RoundStepType)
    → c.height ≡ height
    → c.round ≡ pos n
    → is_behind c height (pos n) step ≡ true
    → leb step c.step ≡ true
behind_step c height n step h at e =
    let same_height : (c.height ==ℤ height) ≡ true = (==ℤ_iff c.height height).1 h in
    let past : (ltb_ℤ (pos n) c.round || (c.round ==ℤ pos n && leb step c.step)) ≡ true =
      ground (arith, e, same_height) in
    let past_n : (ltb_ℤ (pos n) (pos n) || (pos n ==ℤ pos n && leb step c.step)) ≡ true =
      subst (λ r. (ltb_ℤ (pos n) r || (r ==ℤ pos n && leb step c.step)) ≡ true) at past in
    ground (arith, past_n)

not_behind :
    (c : Core) (height : ℤ)
    → c.height ≡ height
    → c.round ≡ pos 0
    → c.step ≡ new_height
    → is_behind c height (pos 0) propose_step ≡ false
not_behind c height h at waiting =
    let same : (c.height ==ℤ height) ≡ true = (==ℤ_iff c.height height).1 h in
    let at_0 : (ltb_ℤ (pos 0) (pos 0) || (pos 0 ==ℤ pos 0 && leb propose_step c.step)) ≡ false =
      ground (arith, waiting) in
    let ahead : (ltb_ℤ (pos 0) c.round || (c.round ==ℤ pos 0 && leb propose_step c.step)) ≡ false =
      subst (λ r. (ltb_ℤ (pos 0) r || (r ==ℤ pos 0 && leb propose_step c.step)) ≡ false) (sym at)
        at_0 in
    ground (arith, same, ahead)

prevoted_at :
    (env : Env) (c : Core) (height round : ℤ)
    → is_behind c height round prevote_step ≡ false
    → ((enter_prevote env c height round).round ≡ round)
      × ((enter_prevote env c height round).step ≡ prevote_fetch)
unfolding enter_prevote enter_prevote_fetch update_round_step schedule_timeout
prevoted_at env c height round e = rw e (refl, refl)

-- The core that a precommit leaves.
abbrev AtPrecommit : ℕ → Core → Type 0
AtPrecommit n c = (c.round ≡ pos n) × (leb precommit_step c.step ≡ true)

-- `enterPrecommit` in the core's round leaves it at its precommit step, or past it.
precommit_past :
    (env : Env) (c c' : Core) (height : ℤ) (n : ℕ)
    → c.height ≡ height
    → c.round ≡ pos n
    → enter_precommit env c height (pos n) ≡ done c'
    → AtPrecommit n c'
unfolding enter_precommit end_precommit enter_precommit_fetch update_round_step schedule_timeout
precommit_past env c c' height n h at run =
    elim (Bool-cases (is_behind c height (pos n) precommit_step)) [
      | inl e ↦
          subst (AtPrecommit n) (done_injective (rw e at run))
            (at, behind_step c height n precommit_step h at e)
      | inr e ↦
          let goes_on : (precommit_choice c (pos n)
                >>= (λ chosen. done (end_precommit env height (pos n) chosen)))
              ≡ done c' =
            rw e at run in
          let (chosen, choice, ends) = >>=-eq-done (precommit_choice c (pos n)) _ goes_on in
          subst (AtPrecommit n) (done_injective ends) (refl, refl)
    ]

module _ (env : Env) (members : List PubKey) {c : Core} (s : IsSound env members c)
    (fits : s.n < 9223372036854775805) (ti : TimeoutInfo) (here : ti.round ≡ pos s.n)
    (same : c.height ≡ ti.height) (new : is_old c ti ≡ false) where
  abbrev MovesOn : Outcome Core → Type 0
  MovesOn call = (c' : Core) × (call ≡ done c') × IsPast c' ti

  via : {call call' : Outcome Core} → call ≡ call' → MovesOn call' → MovesOn call
  via e (c', run, p) = (c', e ∙ run, p)

  not_late : leb c.step ti.step ≡ true
  not_late =
      let equal : (ti.round ==ℤ c.round) ≡ true =
        (==ℤ_iff ti.round c.round).1 (here ∙ sym s.within.in_round) in
      ground (arith, new, equal)

  at_start : (leb propose_step c.step ≡ false) → (s.n ≡ 0) × (c.step ≡ new_height)
  at_start early = ground (arith, s.within.one_ahead, s.within.real_step, early)

  starts : ti.step ≡ new_height → MovesOn (enter_new_round env c ti.height (pos 0))
  starts e =
      let (first, waiting) = at_start (ground (arith, e, not_late)) in
      let fresh : is_stale_round c ti.height (pos 0) ≡ false =
        not_stale c ti.height s.n 0 same s.within.in_round (inr (first, waiting)) in
      let (c', votes', run, entered, at) =
        enter_new_round-HasEntered env members s.within ti.height 0 fresh (omega arith) in
      (
        c',
        run,
        later_step c' ti 0 (entered.height ∙ same) at.at_round (here ∙ ap pos first)
            (ground (arith, e, at.past_propose)),
      )

  proposes : ti.step ≡ new_round → MovesOn (done (enter_propose env c ti.height (pos 0)))
  proposes e =
      let (first, waiting) = at_start (ground (arith, e, not_late)) in
      let ahead : is_behind c ti.height (pos 0) propose_step ≡ false =
        not_behind c ti.height same (s.within.in_round ∙ ap pos first) waiting in
      let (kept, at) = enter_propose-SameHeight env c ti.height (pos 0) ahead in
      (
        _,
        refl,
        later_step (enter_propose env c ti.height (pos 0)) ti 0 (kept.height ∙ same) at.at_round
            (here ∙ ap pos first) (ground (arith, e, at.past_propose)),
      )

  prevotes : ti.step ≡ propose_step → MovesOn (done (enter_prevote env c ti.height (pos s.n)))
  prevotes e = elim (Bool-cases (is_behind c ti.height (pos s.n) prevote_step)) [
    | inl b ↦ (
      c,
      ap done (behind-same env c ti.height (pos s.n) b),
      later_step c ti s.n same s.within.in_round here
          (ground (arith, e, behind_step c ti.height s.n prevote_step same s.within.in_round b)),
    )
    | inr b ↦
        let (w, h, co, le) = enter_prevote-Within env members s.within ti.height in
        let (at, step) = prevoted_at env c ti.height (pos s.n) b in
        (
          _,
          refl,
          later_step (enter_prevote env c ti.height (pos s.n)) ti s.n (h ∙ same) at here
              (ground (arith, e, ap (ltb propose_step) step)),
        )
  ]

  precommits : ti.step ≡ prevote_wait → MovesOn (enter_precommit env c ti.height (pos s.n))
  precommits e =
      let (c', run, (w, h, co, le)) =
        enter_precommit-Within env members s.within ti.height s.no_polka in
      let (at, past) = precommit_past env c c' ti.height s.n same s.within.in_round run in
      (c', run, later_step c' ti s.n (h ∙ same) at here (ground (arith, e, past)))

  next_round : MovesOn (
      enter_precommit env c ti.height (pos s.n)
      >>= (λ c'. enter_new_round env c' ti.height (int64 (pos s.n +ℤ pos 1))))
  next_round =
      let (c1, run1, (w1, h1, co1, le1)) =
        enter_precommit-Within env members s.within ti.height s.no_polka in
      let fresh : is_stale_round c1 ti.height (pos (s.n + 1)) ≡ false =
        not_stale c1 ti.height s.n (s.n + 1) (h1 ∙ same) w1.in_round (inl (omega arith)) in
      let (c2, votes2, run2, entered, at) =
        enter_new_round-HasEntered env members w1 ti.height (s.n + 1) fresh (omega arith) in
      (
        c2,
        >>=-run (enter_precommit env c ti.height (pos s.n)) _ run1
            ∙ (ap (enter_new_round env c1 ti.height) (int64_add s.n 1 (omega arith)) ∙ run2),
        later_round c2 ti s.n (s.n + 1) (entered.height ∙ (h1 ∙ same)) at.at_round here
            (omega arith),
      )

  moves_on : IsRoundStep ti.step → MovesOn (on_timeout env c ti)
  moves_on (of_new_height e) = via (at_new_height env c ti e) (starts e)
  moves_on (of_new_round e) = via (at_new_round env c ti e) (proposes e)
  moves_on (of_propose e) =
      via (at_propose env c ti e ∙ ap (λ r. done (enter_prevote env c ti.height r)) here)
        (prevotes e)
  moves_on (of_prevote_wait e) =
      via (at_prevote_wait env c ti e ∙ ap (enter_precommit env c ti.height) here) (precommits e)
  moves_on (of_precommit_wait e) =
      via
        (at_precommit_wait env c ti e
          ∙ ap
              (λ r.
                enter_precommit env c ti.height r
                >>= (λ c'. enter_new_round env c' ti.height (int64 (r +ℤ pos 1))))
              here)
        next_round

-- A timeout of the core's height, scheduled for a round that the core has entered and for a step at which
-- it does not fetch votes, moves a sound core on, as long as 64 bits hold the round after the next: it
-- is handled without a panic, and afterwards the core is in a later round, or in the same one at a later
-- step than the timeout's, so that the same timeout would be ignored.
pub handle_timeout-IsPast :
    (env : Env) (members : List PubKey) (c : Core) (ti : TimeoutInfo) (k : ℕ)
    (s : IsSound env members c)
    → s.n < 9223372036854775805
    → IsRoundStep ti.step
    → c.height ≡ ti.height
    → ti.round ≡ pos k
    → k ≤ s.n
    → (c' : Core) × (handle_timeout env c ti ≡ done c') × IsPast c' ti
unfolding handle_timeout
handle_timeout-IsPast env members c ti k s fits step same at le = elim (Bool-cases (is_old c ti)) [
  | inl old ↦ (c, rw old, record { same_height = same; old = old })
  | inr new ↦
      let here = still_here c ti s.n k s.within.in_round at le new in
      let (c', run, p) = moves_on env members s fits ti here same new step in (c', rw new run, p)
]
