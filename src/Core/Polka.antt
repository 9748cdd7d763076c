-- ===== src/Core/Polka.antt =====
-- What a majority of prevotes does to a lock (`addVote` in bftcore.go).
use gobft.Base.{
  ◌≡◌, refl, ap, ◌∙◌, ◌≢◌, ◌⊎◌, inl, inr, ℤ, negsuc, ltb_ℤ, Bool, true, false, ◌&&◌, not, none,
  ◌==◌, if◌then◌else◌, arith, Bool-cases,
}
use gobft.Message.{ProposedData, Vote}
use gobft.Core.State.{Core}
use gobft.Core.Precommit.{unlock}
use gobft.Core.Voting.{IsLocked}
use gobft.Core.Votes.{apply_polka, unlock_by_polka}

-- Whether a majority of prevotes, seen with a vote of this round, unlocks.
abbrev pub Unlocks : ℤ → ProposedData → ℤ → ProposedData × Bool → Type 0
Unlocks lock_round d round polka =
    (polka.1 ≡ true) × (polka.0 ≢ d) × (ltb_ℤ lock_round round ≡ true)

-- The lock of a core that `apply_polka` leaves.
apply_polka-locks :
    (c : Core) (vote : Vote) (polka : ProposedData × Bool)
    → let c' = apply_polka c vote polka in
      let u = if polka.1 then unlock_by_polka c vote polka.0 else c in
      (c'.locked_round ≡ u.locked_round) × (c'.locked_proposal ≡ u.locked_proposal)
unfolding apply_polka
apply_polka-locks c vote (d, found) = ground arith

unlock_test :
    (c : Core) (vote : Vote) (polka : ProposedData) (lock_round : ℤ) (d : ProposedData)
    → IsLocked c lock_round d
    → unlock_by_polka c vote polka
      ≡ (if ltb_ℤ lock_round vote.round && not (d == polka) then unlock c else c)
unlock_test c vote polka lock_round d l = rw (l.is_locked, l.at_round, l.same_data)

pub still-IsLocked :
    (c c' : Core) (lock_round : ℤ) (d : ProposedData)
    → c'.locked_round ≡ c.locked_round
    → c'.locked_proposal ≡ c.locked_proposal
    → IsLocked c lock_round d
    → IsLocked c' lock_round d
still-IsLocked c c' lock_round d r p l = record {
  at_round = r ∙ l.at_round;
  real_round = l.real_round;
  proposal = l.proposal;
  is_locked = p ∙ l.is_locked;
  same_data = l.same_data;
}

-- A polka leaves a lock on d as it was, except that a majority of prevotes for
-- data other than d, in a round after the one it was locked at, gives it up.
pub apply_polka-IsLocked :
    (c : Core) (vote : Vote) (polka : ProposedData × Bool) (lock_round : ℤ) (d : ProposedData)
    → IsLocked c lock_round d
    → let c' = apply_polka c vote polka in
      (Unlocks lock_round d vote.round polka
        × (c'.locked_round ≡ negsuc 0)
        × (c'.locked_proposal ≡ none))
      ⊎ ((¬ Unlocks lock_round d vote.round polka) × IsLocked c' lock_round d)
apply_polka-IsLocked c vote (p, false) lock_round d l =
    let (r, q) = apply_polka-locks c vote (p, false) in
    inr ((λ u. cc (u.0)), still-IsLocked c _ lock_round d r q l)
apply_polka-IsLocked c vote (p, true) lock_round d l =
    let (r, q) = apply_polka-locks c vote (p, true) in
    let test = unlock_test c vote p lock_round d l in
    elim (Bool-cases (ltb_ℤ lock_round vote.round && not (d == p))) [
      | inl e ↦
          let gone : unlock_by_polka c vote p ≡ unlock c = test ∙ rw e in
          inl (
            (refl, ground arith, ground arith),
            r ∙ ap (λ (x : Core). x.locked_round) gone,
            q ∙ ap (λ (x : Core). x.locked_proposal) gone,
          )
      | inr e ↦
          let kept : unlock_by_polka c vote p ≡ c = test ∙ rw e in
          inr (
            (λ u. ground arith),
            still-IsLocked c _ lock_round d (r ∙ ap (λ (x : Core). x.locked_round) kept)
                (q ∙ ap (λ (x : Core). x.locked_proposal) kept) l,
          )
    ]
