-- ===== src/Core/LockFate.antt =====
-- What becomes of a lock by an added prevote (`addVote` in bftcore.go), all that follows it included.
use gobft.Base.{
  ◌≡◌, ◌≢◌, refl, sym, ap, ◌∙◌, subst, ◌⊎◌, inl, inr, ℤ, pos, negsuc, leb_ℤ, ltb_ℤ, Bool, true,
  false, none, some, done, done_injective, ◌>>=◌, >>=-eq-done, arith, Bool-cases,
}
use gobft.Message.{ProposedData, Vote}
use gobft.VoteSet.{two_thirds_majority}
use gobft.HeightVoteSet.{HeightVoteSet, prevotes_of}
use gobft.Core.State.{Core, Env, is_behind, precommit_step}
use gobft.Core.Precommit.{precommit_choice, end_precommit, enter_precommit}
use gobft.Core.Votes.{apply_polka, handle_prevote}
use gobft.Core.Transitions.{end_precommit-SameHeight}
use gobft.Core.Prevotes.{apply_polka-KeepsRound}
use gobft.Core.Locks.{HoldsLock, PrecommitCase, choice_case}
use gobft.Core.Voting.{IsLocked}
use gobft.Core.Polka.{Unlocks, still-IsLocked, apply_polka-IsLocked}
use gobft.Core.AfterPrevote.{SameLock, left, precommitted, after_prevote-AfterIt}

-- What becomes of a lock on d, by the majority of the prevotes of the vote's round.
pub data LockAfter (lock_round : ℤ) (d : ProposedData) (core_round vote_round : ℤ)
    (polka : ProposedData × Bool) (c' : Core) : Type 0 where
  kept :
      ¬ Unlocks lock_round d vote_round polka
      → IsLocked c' lock_round d
      → LockAfter lock_round d core_round vote_round polka c'
  -- on a majority for d in the core's round
  relocked :
      polka ≡ (d, true)
      → core_round ≡ vote_round
      → IsLocked c' vote_round d
      → LockAfter lock_round d core_round vote_round polka c'
  -- on a majority for other data, in a round after the lock's or in the core's
  released :
      polka.1 ≡ true
      → polka.0 ≢ d
      → (ltb_ℤ lock_round vote_round ≡ true) ⊎ (core_round ≡ vote_round)
      → c'.locked_round ≡ negsuc 0
      → c'.locked_proposal ≡ none
      → LockAfter lock_round d core_round vote_round polka c'
  -- on a majority for other data in the core's round, whose proposal is known
  moved :
      polka.1 ≡ true
      → polka.0 ≢ d
      → core_round ≡ vote_round
      → IsLocked c' vote_round polka.0
      → LockAfter lock_round d core_round vote_round polka c'

-- The lock before, or none after a majority for other data in a later round.
abbrev Before : ℤ → ProposedData → ℤ → ProposedData × Bool → Core → Type 0
Before lock_round d vote_round polka c =
    (Unlocks lock_round d vote_round polka
      × (c.locked_round ≡ negsuc 0)
      × (c.locked_proposal ≡ none))
    ⊎ ((¬ Unlocks lock_round d vote_round polka) × IsLocked c lock_round d)

module _ (lock_round : ℤ) (d : ProposedData) (core_round vote_round : ℤ)
    (polka : ProposedData × Bool) where
  abbrev After : Core → Type 0
  After = LockAfter lock_round d core_round vote_round polka

  same-After : (c c' : Core) → SameLock c c' → Before lock_round d vote_round polka c → After c'
  same-After c c' (r, p) (inl (u, gone, no_lock)) =
      released u.0 u.1 (inl u.2) (r ∙ gone) (p ∙ no_lock)
  same-After c c' (r, p) (inr (n, l)) = kept n (still-IsLocked c c' lock_round d r p l)

  unlocked-free : (c : Core) (x : ProposedData) → c.locked_round ≡ negsuc 0 → ¬ HoldsLock c x
  unlocked-free c x gone (real, is) = ground (arith, ap (leb_ℤ (pos 0)) gone, real)

  locked-holds : (c : Core) → IsLocked c lock_round d → HoldsLock c d
  locked-holds c l =
      (ap (leb_ℤ (pos 0)) l.at_round ∙ l.real_round, rw l.is_locked (ground (arith, l.same_data)))

  -- The majority is not for d where the core is not locked on it any more, or cannot be.
  other_data :
      (c : Core) → Before lock_round d vote_round polka c → ¬ HoldsLock c polka.0 → polka.0 ≢ d
  other_data c (inl (u, gone, no_lock)) free = u.1
  other_data c (inr (n, l)) free = λ e. free (subst (HoldsLock c) (sym e) (locked-holds c l))

  -- The choice of `enterPrecommit`, with the lock that it leaves.
  chosen-After :
      (c c' : Core) (votes : HeightVoteSet) (chosen : Core × ProposedData)
      → leb_ℤ (pos 0) vote_round ≡ true
      → core_round ≡ vote_round
      → two_thirds_majority (prevotes_of votes vote_round) ≡ polka
      → polka.1 ≡ true
      → Before lock_round d vote_round polka c
      → SameLock chosen.0 c'
      → PrecommitCase c votes vote_round chosen
      → After c'
  chosen-After c c' votes chosen real at is found b (r, p) (PrecommitCase.no_polka e h) =
      let none_found : polka.1 ≡ false = ap (λ (x : ProposedData × Bool). x.1) (sym is ∙ e) in
      absurd (cc (none_found, found))
  chosen-After c c' votes chosen real at is found (inl (u, gone, no_lock)) (r, p)
        (PrecommitCase.relock x locked e n l same holds h) =
      absurd (unlocked-free c x gone holds)
  chosen-After c c' votes chosen real at is found (inr (n', lock)) (r, p)
        (PrecommitCase.relock x locked e n l same holds h) =
      let for_x : polka ≡ (x, true) = sym is ∙ e in
      let is_d : x ≡ d = cc (l, lock.is_locked, same, lock.same_data) in
      relocked (for_x ∙ ap (λ y. (y, true)) is_d) at (record {
        at_round = r ∙ ap (λ (y : Core × ProposedData). y.0.locked_round) h;
        real_round = real;
        proposal = lock.proposal;
        is_locked = p ∙ (ap (λ (y : Core × ProposedData). y.0.locked_proposal) h ∙ lock.is_locked);
        same_data = lock.same_data;
      })
  chosen-After c c' votes chosen real at is found b (r, p)
        (PrecommitCase.lock x proposal e n l same free h) =
      let for_x : x ≡ polka.0 = ap (λ (y : ProposedData × Bool). y.0) (sym e ∙ is) in
      moved found (other_data c b (subst (λ y. ¬ HoldsLock c y) for_x free)) at (record {
        at_round = r ∙ ap (λ (y : Core × ProposedData). y.0.locked_round) h;
        real_round = real;
        proposal = proposal;
        is_locked = p ∙ ap (λ (y : Core × ProposedData). y.0.locked_proposal) h;
        same_data = same ∙ for_x;
      })
  chosen-After c c' votes chosen real at is found b (r, p) (PrecommitCase.unknown x e n l free h) =
      let for_x : x ≡ polka.0 = ap (λ (y : ProposedData × Bool). y.0) (sym e ∙ is) in
      released found (other_data c b (subst (λ y. ¬ HoldsLock c y) for_x free)) (inr at)
        (r ∙ ap (λ (y : Core × ProposedData). y.0.locked_round) h)
        (p ∙ ap (λ (y : Core × ProposedData). y.0.locked_proposal) h)

  precommit-After :
      (env : Env) (c c' : Core) (height : ℤ) (votes : HeightVoteSet)
      → c.votes ≡ some votes
      → leb_ℤ (pos 0) vote_round ≡ true
      → core_round ≡ vote_round
      → two_thirds_majority (prevotes_of votes vote_round) ≡ polka
      → polka.1 ≡ true
      → Before lock_round d vote_round polka c
      → enter_precommit env c height vote_round ≡ done c'
      → After c'
  unfolding enter_precommit
  precommit-After env c c' height votes v real at is found b run =
      elim (Bool-cases (is_behind c height vote_round precommit_step)) [
        | inl e ↦ subst After (done_injective (rw e at run)) (same-After c c (refl, refl) b)
        | inr e ↦
            let goes : (precommit_choice c vote_round
                  >>= (λ chosen. done (end_precommit env height vote_round chosen)))
                ≡ done c' =
              rw e at run in
            let (chosen, choice, ends) = >>=-eq-done (precommit_choice c vote_round) _ goes in
            let s = (end_precommit-SameHeight env height vote_round chosen.0 chosen.1).0 in
            subst After (done_injective ends) (
              chosen-After c (end_precommit env height vote_round chosen) votes chosen real at is
                found b (s.locked_round, s.locked_proposal)
                (choice_case c votes vote_round chosen v choice))
      ]

-- All that follows an added prevote.
pub handle_prevote-LockAfter :
    (env : Env) (c c' : Core) (vote : Vote) (votes : HeightVoteSet) (lock_round : ℤ)
    (d : ProposedData)
    → c.votes ≡ some votes
    → leb_ℤ (pos 0) vote.round ≡ true
    → IsLocked c lock_round d
    → handle_prevote env c vote votes ≡ done c'
    → LockAfter lock_round d c.round vote.round
        (two_thirds_majority (prevotes_of votes vote.round))
        c'
unfolding handle_prevote
handle_prevote-LockAfter env c c' vote votes lock_round d v real l run =
    let polka = two_thirds_majority (prevotes_of votes vote.round) in
    let c2 = apply_polka c vote polka in
    let b = apply_polka-IsLocked c vote polka lock_round d l in
    let k = apply_polka-KeepsRound c vote polka in
    elim (after_prevote-AfterIt env c2 c' vote (prevotes_of votes vote.round) run) [
      | left same ↦ same-After lock_round d c.round vote.round polka c2 c' same b
      | precommitted at found entered ↦
          precommit-After lock_round d c.round vote.round polka env c2 c' c2.height votes
            (k.votes ∙ v) real (sym k.round ∙ at) refl found b entered
    ]
