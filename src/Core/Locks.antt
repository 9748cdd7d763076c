-- ===== src/Core/Locks.antt =====
-- The rules of locking (bftcore.go): what a validator prevotes and precommits, and how it locks.
use gobft.Base.{
  ◌≡◌, refl, sym, ap, ◌∙◌, ◌≢◌, ◌⊎◌, inl, inr, ℤ, ◌==ℤ◌, ==ℤ_iff, leb_ℤ, pos, is_some, Bool, true,
  false, Option, none, some, ◌==◌, ==_iff, if◌then◌else◌, done, sane, ◌>>◌, >>=-eq-done, >>=-run,
  done_injective, sane-eq-done, arith, Bool-cases, Option-cases,
}
use gobft.Message.{ProposedData, nil_data, Vote}
use gobft.VoteSet.{two_thirds_majority}
use gobft.HeightVoteSet.{HeightVoteSet, prevotes_of, pol_info}
use gobft.Core.State.{Core}
use gobft.Core.Precommit.{unlock, is_for, is_locked_on, settle_polka, precommit_choice}

-- Locked on this data, at a real round.
abbrev pub HoldsLock : Core → ProposedData → Type 0
HoldsLock c d = (leb_ℤ (pos 0) c.locked_round ≡ true) × (is_for c.locked_proposal d ≡ true)

-- What `enterPrecommit` does in a round, by the majority of prevotes there: the core with its lock
-- set, and the data to precommit.
pub data PrecommitCase (c : Core) (votes : HeightVoteSet) (round : ℤ) (result : Core × ProposedData)
    : Type 0 where
  -- no majority: precommit nil, and keep the lock
  no_polka :
      two_thirds_majority (prevotes_of votes round) ≡ (nil_data, false)
      → result ≡ (c, nil_data)
      → PrecommitCase c votes round result
  -- a majority for the locked data: precommit it, and move the lock to this round
  relock :
      (d : ProposedData) (locked : Vote)
      → two_thirds_majority (prevotes_of votes round) ≡ (d, true)
      → d ≢ nil_data
      → c.locked_proposal ≡ some locked
      → locked.proposed ≡ d
      → HoldsLock c d
      → result ≡ (record c { locked_round = round }, d)
      → PrecommitCase c votes round result
  -- a majority for the proposal, that the core is not locked on: precommit it, and lock on it
  lock :
      (d : ProposedData) (proposal : Vote)
      → two_thirds_majority (prevotes_of votes round) ≡ (d, true)
      → d ≢ nil_data
      → c.proposal ≡ some proposal
      → proposal.proposed ≡ d
      → ¬ HoldsLock c d
      → result ≡ (record c { locked_round = round; locked_proposal = some proposal }, d)
      → PrecommitCase c votes round result
  -- a majority for data that the core is not locked on and has no proposal for: precommit nil, and unlock
  unknown :
      (d : ProposedData)
      → two_thirds_majority (prevotes_of votes round) ≡ (d, true)
      → d ≢ nil_data
      → is_for c.proposal d ≡ false
      → ¬ HoldsLock c d
      → result ≡ (unlock c, nil_data)
      → PrecommitCase c votes round result

majority_shape :
    (votes : HeightVoteSet) (round : ℤ)
    → (two_thirds_majority (prevotes_of votes round) ≡ (nil_data, false))
      ⊎ ((d : ProposedData) × (two_thirds_majority (prevotes_of votes round) ≡ (d, true))
          × (d ≢ nil_data))
unfolding two_thirds_majority
majority_shape votes round = elim (Option-cases (prevotes_of votes round)) [
  | inl e ↦ inl (rw e)
  | inr (vs, e) ↦ elim (Bool-cases (vs.maj23 == nil_data)) [
    | inl n ↦ inl (rw (e, two_thirds_majority) (ground arith))
    | inr n ↦ inr (vs.maj23, rw (e, two_thirds_majority) (ground arith), ground arith)
  ]
]

locked_on :
    (c : Core) (d : ProposedData)
    → is_locked_on c d ≡ done true
    → (locked : Vote) × (c.locked_proposal ≡ some locked) × (locked.proposed ≡ d) × HoldsLock c d
locked_on c d h = elim (Option-cases c.locked_proposal) [
  | inl e ↦ absurd (ground arith)
  | inr (locked, e) ↦ (locked, e, ground arith, (ground arith, rw e (ground arith)))
]

not_locked_on : (c : Core) (d : ProposedData) → is_locked_on c d ≡ done false → ¬ HoldsLock c d
not_locked_on c d h (real, is) = elim (Option-cases c.locked_proposal) [
  | inl e ↦ ground (arith, is)
  | inr (locked, e) ↦ ground arith
]

proposed_by :
    (o : Option Vote) (d : ProposedData)
    → is_for o d ≡ true
    → (v : Vote) × (o ≡ some v) × (v.proposed ≡ d)
proposed_by none d h = cc
proposed_by (some v) d h = (v, refl, (==_iff v.proposed d).0 h)

settle_with :
    (c : Core) (votes : HeightVoteSet) (round : ℤ) (d : ProposedData) (result : Core × ProposedData)
    (relocks : Bool)
    → two_thirds_majority (prevotes_of votes round) ≡ (d, true)
    → d ≢ nil_data
    → is_locked_on c d ≡ done relocks
    → (if relocks
        then (record c { locked_round = round }, d)
        else if is_for c.proposal d
        then (record c { locked_round = round; locked_proposal = c.proposal }, d)
        else (unlock c, nil_data))
      ≡ result
    → PrecommitCase c votes round result
settle_with c votes round d result true e n l h =
    let (locked, is, same, holds) = locked_on c d l in relock d locked e n is same holds (sym h)
settle_with c votes round d result false e n l h = elim (Bool-cases (is_for c.proposal d)) [
  | inl knows ↦
      let (p, is, same) = proposed_by c.proposal d knows in
      lock d p e n is same (not_locked_on c d l) (
        sym h
        ∙ (rw knows (ap (λ o. (record c { locked_round = round; locked_proposal = o }, d)) is)))
  | inr not_known ↦ unknown d e n not_known (not_locked_on c d l) (sym h ∙ rw not_known)
]

is_not_nil : (d : ProposedData) → d ≢ nil_data → (d == nil_data) ≡ false
is_not_nil d n = ground arith

settled :
    (c : Core) (votes : HeightVoteSet) (round : ℤ) (d : ProposedData) (result : Core × ProposedData)
    → two_thirds_majority (prevotes_of votes round) ≡ (d, true)
    → d ≢ nil_data
    → settle_polka c round d ≡ done result
    → PrecommitCase c votes round result
unfolding settle_polka
settled c votes round d result e n run =
    let (relocks, l, h) = >>=-eq-done (is_locked_on c d) _ run in
    settle_with c votes round d result relocks e n l (done_injective h)

choice_without :
    (c : Core) (votes : HeightVoteSet) (round : ℤ)
    → c.votes ≡ some votes
    → two_thirds_majority (prevotes_of votes round) ≡ (nil_data, false)
    → precommit_choice c round ≡ done (c, nil_data)
unfolding precommit_choice
choice_without c votes round v e = simp (v, e)

choice_with :
    (c : Core) (votes : HeightVoteSet) (round : ℤ) (d : ProposedData)
    → c.votes ≡ some votes
    → two_thirds_majority (prevotes_of votes round) ≡ (d, true)
    → d ≢ nil_data
    → precommit_choice c round ≡ (sane ((pol_info votes).0 ==ℤ round) >> settle_polka c round d)
unfolding precommit_choice
choice_with c votes round d v e n = simp (v, e, is_not_nil d n)

pub choice_case :
    (c : Core) (votes : HeightVoteSet) (round : ℤ) (result : Core × ProposedData)
    → c.votes ≡ some votes
    → precommit_choice c round ≡ done result
    → PrecommitCase c votes round result
unfolding precommit_choice
choice_case c votes round result v run = elim (majority_shape votes round) [
  | inl e ↦ no_polka e (sym (done_injective (sym (choice_without c votes round v e) ∙ run)))
  | inr (d, e, n) ↦
      settled c votes round d result e n
        (sane-eq-done ((pol_info votes).0 ==ℤ round) _
          (sym (choice_with c votes round d v e n) ∙ run)).1
]

-- What `enterPrecommit` counts on: a real locked round comes with a locked proposal, and no tracked round
-- after this one has a majority of prevotes when this one has.
pub record CanPrecommit (c : Core) (votes : HeightVoteSet) (round : ℤ) : Type 0 where
  pub has_votes : c.votes ≡ some votes
  pub whole_lock : leb_ℤ (pos 0) c.locked_round ≡ true → is_some c.locked_proposal ≡ true
  pub last_polka :
      (two_thirds_majority (prevotes_of votes round)).1 ≡ true → (pol_info votes).0 ≡ round

knows_lock :
    (c : Core) (votes : HeightVoteSet) (round : ℤ) (d : ProposedData)
    → CanPrecommit c votes round
    → (relocks : Bool) × (is_locked_on c d ≡ done relocks)
knows_lock c votes round d can = elim (Bool-cases (leb_ℤ (pos 0) c.locked_round)) [
  | inr e ↦ (false, rw e)
  | inl e ↦ elim (Option-cases c.locked_proposal) [
    | inl n ↦ absurd (ground (arith, can.whole_lock e))
    | inr (locked, l) ↦ (locked.proposed == d, rw (e, l))
  ]
]

settles :
    (c : Core) (votes : HeightVoteSet) (round : ℤ) (d : ProposedData)
    → CanPrecommit c votes round
    → (result : Core × ProposedData) × (settle_polka c round d ≡ done result)
unfolding settle_polka
settles c votes round d can =
    let (relocks, l) = knows_lock c votes round d can in (_, >>=-run (is_locked_on c d) _ l)

choice_returns :
    (c : Core) (votes : HeightVoteSet) (round : ℤ)
    → CanPrecommit c votes round
    → (result : Core × ProposedData) × (precommit_choice c round ≡ done result)
choice_returns c votes round can = elim (majority_shape votes round) [
  | inl e ↦ ((c, nil_data), choice_without c votes round can.has_votes e)
  | inr (d, e, n) ↦
      let (result, settled_so) = settles c votes round d can in
      let last : ((pol_info votes).0 ==ℤ round) ≡ true =
        (==ℤ_iff (pol_info votes).0 round).1
          (can.last_polka (ap (λ (x : ProposedData × Bool). x.1) e)) in
      (
        result,
        choice_with c votes round d can.has_votes e n
            ∙ (>>=-run (sane ((pol_info votes).0 ==ℤ round)) _ (ap sane last) ∙ settled_so),
      )
]

-- With what `enterPrecommit` counts on, its choice does not panic.
pub precommit_choice-PrecommitCase :
    (c : Core) (votes : HeightVoteSet) (round : ℤ)
    → CanPrecommit c votes round
    → (result : Core × ProposedData) × (precommit_choice c round ≡ done result)
      × PrecommitCase c votes round result
precommit_choice-PrecommitCase c votes round can =
    let (result, run) = choice_returns c votes round can in
    (result, run, choice_case c votes round result can.has_votes run)
