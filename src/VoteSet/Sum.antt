-- ===== src/VoteSet/Sum.antt =====
-- The sum of a vote set (vote_set.go), which `HasTwoThirdsAny` reads.
use gobft.Base.{
  ℕ, ◌+◌, ◌≤◌, ◌<◌, ◌≡◌, refl, sym, ap, ◌∙◌, inl, inr, ℤ, pos, pos_part, ◌+ℤ◌, int64, int64_add,
  ap₂, subst, done, panic≢done, done_injective, ◌==ℤ◌, Bool, true, Option, some, List, [], ◌∷◌,
  ◌==◌, ==_iff, lookup, insert, nat_key, arith, Bool-cases,
}
use gobft.Message.{PubKey, ProposedData, Vote, VoteType}
use gobft.Committee.{Validators, get_voting_power}
use gobft.Weights.{IsCommittee, power_of}
use gobft.VoteSet.{
  VoteSet, ProposedDataVotes, entry_or_new, new_vote_set, add_known_vote, add_verified_vote,
  pd_add_vote, two_thirds_majority, has_two_thirds_any,
}
use gobft.VoteSet.Outcomes.{next, entry_of, IsAcceptable, entry_of-next, add_known_vote_outcome}
use gobft.VoteSet.Invariant.{tally, IsValid, two_thirds_eq}
use gobft.VoteSet.Preservation.{next-IsValid, tally-next_same}
use gobft.Errors.{VoteError}
use gobft.VoteSet.History.{after_votes, left_by, after_votes-IsValid}
use gobft.VoteSet.Agreement.{started-IsValid}
use gobft.VoteSet.Majority.{two_thirds_majority_means}

-- The sums of all entries, together. A validator counts once for each data that it voted for.
abbrev pub count : List (ProposedData × ProposedDataVotes) → ℕ
count [] = 0
count ((d, pd) ∷ m) = pos_part pd.sum + count m

abbrev part : ProposedData → List (ProposedData × ProposedDataVotes) → ℕ
part d m = pos_part (entry_or_new (lookup d m)).sum

count-insert :
    (d : ProposedData) (pd : ProposedDataVotes) (m : List (ProposedData × ProposedDataVotes))
    → count (insert d pd m) + part d m ≡ count m + pos_part pd.sum
unfolding insert lookup
count-insert d pd [] = omega arith
count-insert d pd ((k, old) ∷ m) = elim (Bool-cases (k == d)) [
  | inl e ↦ rw e (omega arith)
  | inr e ↦ rw e (omega (arith, count-insert d pd m))
]

part-le-count :
    (d : ProposedData) (m : List (ProposedData × ProposedDataVotes)) → part d m ≤ count m
unfolding lookup
part-le-count d [] = omega arith
part-le-count d ((k, old) ∷ m) = elim (Bool-cases (k == d)) [
  | inl e ↦ rw e (omega arith)
  | inr e ↦ rw e (omega (arith, part-le-count d m))
]

-- The running sum of the set is the sum of its entries.
abbrev pub IsSummed : VoteSet → Type 0
IsSummed vs = vs.sum ≡ pos (count vs.votes_by_proposed_data)

abbrev all_count : VoteSet → ℕ
all_count vs = count vs.votes_by_proposed_data

after-call :
    (vals : Validators) (vs : VoteSet) (v : Vote) (votes : List Vote) {vs' : VoteSet} {added : Bool}
    {e : Option VoteError}
    → add_known_vote vals vs v ≡ done (vs', added, e)
    → after_votes vals vs (v ∷ votes) ≡ after_votes vals vs' votes
unfolding after_votes
after-call vals vs v votes run = ap (λ o. after_votes vals (left_by vs o) votes) run

module _ (vals : Validators) (members : List PubKey) (comm : IsCommittee vals members) where
  module _ (vs : VoteSet) (vote : Vote) (ok : IsAcceptable vals vs vote)
      (valid : IsValid vals members vs) where
    grown : ProposedDataVotes
    grown = pd_add_vote (entry_of vs vote.proposed) vote (get_voting_power vals vote.address)

    grown_sum :
        pos_part grown.sum ≡ power_of vals vote.address + pos_part (entry_of vs vote.proposed).sum
    unfolding grown
    grown_sum =
        let same : (vote.proposed == vote.proposed) ≡ true =
          (==_iff vote.proposed vote.proposed).1 refl in
        let now = (next-IsValid vals members comm vs vote ok valid).sums vote.proposed in
        let is_grown : entry_of (next vals vs vote) vote.proposed ≡ grown =
          entry_of-next vals vs vote vote.proposed ∙ rw same in
        let new_sum : grown.sum ≡ pos (tally vals members (next vals vs vote) vote.proposed) =
          sym (ap (λ (pd : ProposedDataVotes). pd.sum) is_grown) ∙ now in
        omega (
          arith,
          ap pos_part new_sum,
          ap pos_part (valid.sums vote.proposed),
          tally-next_same vals members comm vs vote ok,
        )

    pub count-next :
        count (next vals vs vote).votes_by_proposed_data
        ≡ count vs.votes_by_proposed_data + power_of vals vote.address
    unfolding add_verified_vote grown
    count-next =
        omega (arith, count-insert vote.proposed grown vs.votes_by_proposed_data, grown_sum)

    sum-next : (next vals vs vote).sum ≡ int64 (vs.sum +ℤ get_voting_power vals vote.address)
    unfolding add_verified_vote
    sum-next = refl

    pub next-IsSummed :
        count (next vals vs vote).votes_by_proposed_data < 9223372036854775808
        → IsSummed vs
        → IsSummed (next vals vs vote)
    next-IsSummed fits s =
        sum-next
        ∙ (ap₂ (λ x y. int64 (x +ℤ y)) s (comm.powers vote.address)
            ∙ (int64_add (count vs.votes_by_proposed_data) (power_of vals vote.address)
                  (omega (arith, count-next))
                ∙ ap pos (sym count-next)))

  -- The calls only add to the entries.
  count-le-after :
      (vs : VoteSet) (votes : List Vote)
      → IsValid vals members vs
      → count vs.votes_by_proposed_data ≤ count (after_votes vals vs votes).votes_by_proposed_data
  unfolding after_votes
  count-le-after vs [] valid = omega arith
  count-le-after vs (v ∷ votes) valid = elim (add_known_vote_outcome vals vs v) [
    | inl (ok, taken) ↦ omega (
      arith,
      count-next vs v ok valid,
      count-le-after (next vals vs v) votes (next-IsValid vals members comm vs v ok valid),
      ap all_count (after-call vals vs v votes taken),
    )
    | inr (e, bad, refused) ↦
        omega
          (arith, count-le-after vs votes valid, ap all_count (after-call vals vs v votes refused))
  ]

  after_votes-IsSummed :
      (vs : VoteSet) (votes : List Vote)
      → IsValid vals members vs
      → count (after_votes vals vs votes).votes_by_proposed_data < 9223372036854775808
      → IsSummed vs
      → IsSummed (after_votes vals vs votes)
  unfolding after_votes
  after_votes-IsSummed vs [] valid fits s = s
  after_votes-IsSummed vs (v ∷ votes) valid fits s = elim (add_known_vote_outcome vals vs v) [
    | inl (ok, taken) ↦
        let valid' = next-IsValid vals members comm vs v ok valid in
        let same = after-call vals vs v votes taken in
        let fits' = subst (λ x. all_count x < 9223372036854775808) same fits in
        subst IsSummed (sym same) (
          after_votes-IsSummed (next vals vs v) votes valid' fits' (
            next-IsSummed vs v ok valid
              (omega (arith, count-le-after (next vals vs v) votes valid')) s))
    | inr (e, bad, refused) ↦
        let same = after-call vals vs v votes refused in
        subst IsSummed (sym same) (
          after_votes-IsSummed vs votes valid
            (subst (λ x. all_count x < 9223372036854775808) same fits) s)
  ]

  pub summed_any :
      (vs : VoteSet) (d : ProposedData)
      → IsValid vals members vs
      → IsSummed vs
      → two_thirds_majority (some vs) ≡ (d, true)
      → has_two_thirds_any vals (some vs) ≡ true
  unfolding has_two_thirds_any
  summed_any vs d valid s m =
      let (n, q) = (two_thirds_majority_means vals members vs valid).0 d m in
      rw (s, two_thirds_eq vals members comm)
        (ground (arith, part-le-count d vs.votes_by_proposed_data, ap pos_part (valid.sums d)))

started-IsSummed :
    (height round : ℤ) (type_ : VoteType) (base : ProposedData) (vs : VoteSet)
    → new_vote_set height round type_ base ≡ done vs
    → IsSummed vs
unfolding new_vote_set
started-IsSummed height round type_ base vs e = elim (Bool-cases (height ==ℤ pos 0)) [
  | inl z ↦ absurd (panic≢done (rw z at e))
  | inr z ↦ subst IsSummed (done_injective (rw z at e)) refl
]

-- In a vote set that starts empty and has received any votes, a majority implies that `HasTwoThirdsAny`
-- holds, as long as 64 bits hold the power of all the votes recorded, in which a validator counts once
-- for each data that it voted for.
pub majority_implies_any :
    (vals : Validators) (members : List PubKey) (height round : ℤ) (type_ : VoteType)
    (base : ProposedData) (start : VoteSet) (votes : List Vote) (d : ProposedData)
    → IsCommittee vals members
    → new_vote_set height round type_ base ≡ done start
    → count (after_votes vals start votes).votes_by_proposed_data < 9223372036854775808
    → two_thirds_majority (some (after_votes vals start votes)) ≡ (d, true)
    → has_two_thirds_any vals (some (after_votes vals start votes)) ≡ true
majority_implies_any vals members height round type_ base start votes d comm e fits m =
    let valid = started-IsValid vals members height round type_ base start e in
    summed_any vals members comm (after_votes vals start votes) d
      (after_votes-IsValid vals members start votes comm valid)
      (after_votes-IsSummed vals members comm start votes valid fits
        (started-IsSummed height round type_ base start e))
      m
