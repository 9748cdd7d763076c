-- ===== src/Core/Transitions.antt =====
-- The transitions within a height (bftcore.go), from a core whose votes are valid and tracked: none of
-- them panics, and the core stays within its height.
use gobft.Base.{
  ℕ, suc, ◌≤◌, ◌≡◌, refl, sym, ap, ◌∙◌, subst, inl, inr, ℤ, pos, negsuc, leb_ℤ, leb, ◌==ℤ◌, ==ℤ_iff,
  is_some, true, false, Option, none, some, done, deref, sane, >>=-run, arith, Bool-cases, int_key,
  List,
}
use native.Mathlib.Decide.{dec_lt}
use gobft.Message.{PubKey, Vote, ProposedData, nil_data, precommit_type, new_vote}
use gobft.Config.{prevote, precommit}
use gobft.VoteSet.{has_two_thirds_any}
use gobft.HeightVoteSet.{HeightVoteSet, pol_info, prevotes_of, precommits_of}
use gobft.HeightVoteSet.Tracking.{LastPolka, pol_info_lem}
use gobft.HeightVoteSet.Polkas.{polka_of}
use gobft.Core.State.{
  Core, Env, RoundStepType, validators_of, is_behind, prevote_step, prevote_wait, precommit_step,
  precommit_wait, update_round_step, schedule_timeout,
}
use gobft.Core.Enter.{enter_prevote_fetch, enter_prevote, enter_prevote_wait, start_prevote_wait}
use gobft.Core.Precommit.{
  precommit_choice, enter_precommit_fetch, end_precommit, enter_precommit, start_precommit_wait,
  enter_precommit_wait,
}
use gobft.Core.Frames.{sign_add_vote-Sends}
use gobft.Core.Locks.{PrecommitCase, CanPrecommit, precommit_choice-PrecommitCase}
use gobft.Core.Rounds.{
  SameHeight, SameHeight-trans, scheduled-SameHeight, IsInRound, enter_prevote-SameHeight,
}
use gobft.Core.Within.{IsWithin, NoPolkaAfter, moved-IsWithin, relocked-IsWithin}

pub stepped-SameHeight :
    (c : Core) (round : ℤ) (step : RoundStepType) → SameHeight c (update_round_step c round step)
unfolding update_round_step
stepped-SameHeight c round step = record {
  height = refl;
  locked_round = refl;
  locked_proposal = refl;
  votes = refl;
  commit_round = refl;
  last_commit = refl;
  last_committed_data = refl;
  committed = refl;
}

pub prevoted-IsInRound :
    (env : Env) (c : Core) (height round : ℤ)
    → is_behind c height round prevote_step ≡ false
    → IsInRound (enter_prevote env c height round) round
unfolding enter_prevote enter_prevote_fetch update_round_step schedule_timeout
prevoted-IsInRound env c height round e = rw e (record { at_round = refl; past_propose = refl })

pub behind-same :
    (env : Env) (c : Core) (height round : ℤ)
    → is_behind c height round prevote_step ≡ true
    → enter_prevote env c height round ≡ c
unfolding enter_prevote
behind-same env c height round e = rw e

pub prevoted-step :
    (env : Env) (c : Core) (height round : ℤ)
    → is_behind c height round prevote_step ≡ false
    → leb prevote_step (enter_prevote env c height round).step ≡ true
unfolding enter_prevote enter_prevote_fetch update_round_step schedule_timeout
prevoted-step env c height round e = rw e refl

pub end_precommit-step :
    (env : Env) (height round : ℤ) (c : Core) (d : ProposedData)
    → leb precommit_step (end_precommit env height round (c, d)).step ≡ true
unfolding end_precommit enter_precommit_fetch update_round_step schedule_timeout
end_precommit-step env height round c d = refl

-- The end of `enterPrecommit`, but for the lock.
pub end_precommit-SameHeight :
    (env : Env) (height round : ℤ) (c : Core) (d : ProposedData)
    → SameHeight c (end_precommit env height round (c, d))
      × IsInRound (end_precommit env height round (c, d)) round
unfolding end_precommit enter_precommit_fetch update_round_step schedule_timeout
end_precommit-SameHeight env height round c d =
    let s =
      sign_add_vote-Sends env c
        (new_vote env.now precommit_type height round d c.last_committed_data) in
    (
      record {
        height = s.height;
        locked_round = s.locked_round;
        locked_proposal = s.locked_proposal;
        votes = s.votes;
        commit_round = s.commit_round;
        last_commit = s.last_commit;
        last_committed_data = s.last_committed_data;
        committed = s.committed;
      },
      record { at_round = refl; past_propose = refl },
    )

-- With no majority after round n, the last one is round n's if that has one.
LastPolka-is :
    (votes : HeightVoteSet) (n m : ℕ) (result : ℤ × ProposedData)
    → LastPolka votes (suc m) result
    → n ≤ m
    → NoPolkaAfter votes n
    → (polka_of votes (pos n)).1 ≡ true
    → result.0 ≡ pos n
LastPolka-is votes n m result (LastPolka.missing e below) le after has =
    absurd (cc (below n (omega arith)))
LastPolka-is votes n m result (LastPolka.found r d e lt polka later) le after has =
    ap (λ (x : ℤ × ProposedData). x.0) e ∙ elim (dec_lt r n) [
      | yes early ↦ absurd (cc (later n early (omega arith)))
      | no p ↦ elim (dec_lt n r) [
        | yes late ↦ absurd (cc (after r late, polka))
        | no q ↦ ap pos (omega arith)
      ]
    ]

module _ (env : Env) (members : List PubKey) {c : Core} {votes : HeightVoteSet} {m n : ℕ}
    (w : IsWithin env members c votes m n) (height : ℤ) where
  -- What a transition of the round leaves.
  abbrev pub Within : Core → Type 0
  Within c' =
      IsWithin env members c' votes m n
      × (c'.height ≡ c.height)
      × (c'.committed ≡ c.committed)
      × (leb c.step c'.step ≡ true)

  by_same :
      {c' : Core} → SameHeight c c' → IsInRound c' (pos n) → leb c.step c'.step ≡ true → Within c'
  by_same s here le = (moved-IsWithin s here w, s.height, s.committed, le)

  -- What the guard of a transition in the core's round says of its step.
  pub early_step :
      (step : RoundStepType) → is_behind c height (pos n) step ≡ false → leb c.step step ≡ true
  early_step step e =
      let same : (c.round ==ℤ pos n) ≡ true = (==ℤ_iff c.round (pos n)).1 w.in_round in
      ground (arith, e, same)

  pub unmoved : Within c
  unmoved = (w, refl, refl, ground arith)

  pub enter_prevote-Within : Within (enter_prevote env c height (pos n))
  enter_prevote-Within = elim (Bool-cases (is_behind c height (pos n) prevote_step)) [
    | inl e ↦ subst Within (sym (behind-same env c height (pos n) e)) unmoved
    | inr e ↦
        by_same (enter_prevote-SameHeight env c height (pos n))
          (prevoted-IsInRound env c height (pos n) e)
          (ground (arith, early_step prevote_step e, prevoted-step env c height (pos n) e))
  ]

  pub tracked : n ≤ m
  tracked = ground (arith, w.one_ahead)

  pub can_precommit : NoPolkaAfter votes n → CanPrecommit c votes (pos n)
  can_precommit after = record {
    has_votes = w.has_votes;
    whole_lock = w.whole_lock;
    last_polka =
        LastPolka-is votes n m (pol_info votes) (pol_info_lem votes m w.tracks.at_round) tracked
          after;
  }

  precommitted :
      (r : ℤ) (locked : Option Vote) (d : ProposedData) (chosen : Core × ProposedData)
      → (leb_ℤ (pos 0) r ≡ true → is_some locked ≡ true)
      → chosen ≡ (record c { locked_round = r; locked_proposal = locked }, d)
      → leb c.step precommit_step ≡ true
      → Within (end_precommit env height (pos n) chosen)
  precommitted r locked d chosen whole e early =
      let relocked : Core = record c { locked_round = r; locked_proposal = locked } in
      let (s, here) = end_precommit-SameHeight env height (pos n) relocked d in
      subst (λ x. Within (end_precommit env height (pos n) x)) (sym e)
        (
          moved-IsWithin s here (relocked-IsWithin r locked whole w),
          s.height,
          s.committed,
          ground (arith, early, end_precommit-step env height (pos n) relocked d),
        )

  chosen-Within :
      (chosen : Core × ProposedData)
      → PrecommitCase c votes (pos n) chosen
      → leb c.step precommit_step ≡ true
      → Within (end_precommit env height (pos n) chosen)
  chosen-Within chosen (PrecommitCase.no_polka p e) early =
      precommitted c.locked_round c.locked_proposal nil_data chosen w.whole_lock e early
  chosen-Within chosen (PrecommitCase.relock d locked p q l same holds e) early =
      precommitted (pos n) c.locked_proposal d chosen (λ r. ap is_some l) e early
  chosen-Within chosen (PrecommitCase.lock d p polka q l same free e) early =
      precommitted (pos n) (some p) d chosen (λ r. refl) e early
  chosen-Within chosen (PrecommitCase.unknown d polka q l free e) early =
      precommitted (negsuc 0) none nil_data chosen (λ r. cc) e early

  -- `enterPrecommit` in the core's round.
  pub enter_precommit-Within :
      NoPolkaAfter votes n
      → (c' : Core) × (enter_precommit env c height (pos n) ≡ done c') × Within c'
  unfolding enter_precommit
  enter_precommit-Within after = elim (Bool-cases (is_behind c height (pos n) precommit_step)) [
    | inl e ↦ (c, rw e, unmoved)
    | inr e ↦
        let (chosen, run, case) =
          precommit_choice-PrecommitCase c votes (pos n) (can_precommit after) in
        (
          end_precommit env height (pos n) chosen,
          rw e (>>=-run (precommit_choice c (pos n)) _ run),
          chosen-Within chosen case (early_step precommit_step e),
        )
  ]

  -- `enterPrevoteWait` in the core's round, once two thirds of the power prevoted there.
  pub enter_prevote_wait-Within :
      has_two_thirds_any (validators_of env c) (prevotes_of votes (pos n)) ≡ true
      → (c' : Core) × (enter_prevote_wait env c height (pos n) ≡ done c') × Within c'
  unfolding enter_prevote_wait start_prevote_wait
  enter_prevote_wait-Within any = elim (Bool-cases (is_behind c height (pos n) prevote_wait)) [
    | inl e ↦ (c, rw e, unmoved)
    | inr e ↦
        let c1 = schedule_timeout c (prevote env.cfg (pos n)) height (pos n) prevote_wait in
        (
          update_round_step c1 (pos n) prevote_wait,
          rw e (
              >>=-run (deref c.votes) _ (ap deref w.has_votes)
              ∙ >>=-run
                  (sane (has_two_thirds_any (validators_of env c) (prevotes_of votes (pos n)))) _
                  (ap sane any)),
          by_same
              (SameHeight-trans
                (scheduled-SameHeight c (prevote env.cfg (pos n)) height (pos n) prevote_wait)
                (stepped-SameHeight c1 (pos n) prevote_wait))
              (unfold update_round_step in record { at_round = refl; past_propose = refl })
              (unfold update_round_step in early_step prevote_wait e),
        )
  ]

  -- `enterPrecommitWait` in the core's round, once two thirds of the power precommitted there.
  pub enter_precommit_wait-Within :
      has_two_thirds_any (validators_of env c) (precommits_of votes (pos n)) ≡ true
      → (c' : Core) × (enter_precommit_wait env c height (pos n) ≡ done c') × Within c'
  unfolding enter_precommit_wait start_precommit_wait
  enter_precommit_wait-Within any = elim (Bool-cases (is_behind c height (pos n) precommit_wait)) [
    | inl e ↦ (c, rw e, unmoved)
    | inr e ↦
        let c1 = schedule_timeout c (precommit env.cfg (pos n)) height (pos n) precommit_wait in
        (
          update_round_step c1 (pos n) precommit_wait,
          rw e (
              >>=-run (deref c.votes) _ (ap deref w.has_votes)
              ∙ >>=-run
                  (sane (has_two_thirds_any (validators_of env c) (precommits_of votes (pos n)))) _
                  (ap sane any)),
          by_same
              (SameHeight-trans
                (scheduled-SameHeight c (precommit env.cfg (pos n)) height (pos n) precommit_wait)
                (stepped-SameHeight c1 (pos n) precommit_wait))
              (unfold update_round_step in record { at_round = refl; past_propose = refl })
              (unfold update_round_step in early_step precommit_wait e),
        )
  ]
