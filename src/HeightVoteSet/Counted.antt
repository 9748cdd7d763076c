-- ===== src/HeightVoteSet/Counted.antt =====
-- What `HeightVoteSet.AddVote` (height_vote_set.go) does to the majorities and the sums of the rounds.
use gobft.Base.{
  ◌+◌, ◌<◌, ◌≡◌, ◌≢◌, refl, sym, ap, ◌∙◌, ◌⊎◌, inl, inr, ℤ, ◌==ℤ◌, ==ℤ_iff, Bool, true, false,
  Option, none, some, List, lookup, lookup-insert, int_key, done, arith, Bool-cases, Option-cases,
  ◌==◌,
}
use gobft.Errors.{VoteError}
use gobft.Message.{PubKey, VoteType, Vote, prevote_type, precommit_type}
use gobft.Committee.{Validators}
use gobft.Weights.{IsCommittee, power_of}
use gobft.VoteSet.{VoteSet, two_thirds_majority, has_two_thirds_any, add_known_vote}
use gobft.VoteSet.Outcomes.{next, add_known_vote_outcome}
use gobft.VoteSet.Sum.{IsSummed, count, count-next, next-IsSummed, summed_any}
use gobft.HeightVoteSet.{HeightVoteSet, RoundVoteSet, hvs_add_vote}
use gobft.HeightVoteSet.Rounds.{IsHeightValid, IsSetFor, write_round, write_round-IsHeightValid}
use gobft.HeightVoteSet.Adding.{round_at, pick, replace, IsVoteType, hvs_add_vote_lem}
use gobft.HeightVoteSet.Kept.{next-IsSetFor, round_at-IsRoundOf, pick-IsSetFor, replace-IsRoundOf}
use gobft.HeightVoteSet.Polkas.{
  polka_of, SamePolkas, polka-none, prevotes_of-some, same_lookup, IsCounted, fresh_round-IsSummed,
  write_round-IsCounted,
}

abbrev pub BothSummed : RoundVoteSet → Type 0
BothSummed rvs = IsSummed rvs.prevotes × IsSummed rvs.precommits

round_at-BothSummed : (hvs : HeightVoteSet) (r : ℤ) → IsCounted hvs → BothSummed (round_at hvs r)
round_at-BothSummed hvs r counted = elim (Option-cases (lookup r hvs.round_vote_sets)) [
  | inl e ↦ rw e (fresh_round-IsSummed hvs r)
  | inr (rvs, e) ↦ rw e (counted r rvs e)
]

pick-IsSummed :
    (t : VoteType) (rvs : RoundVoteSet) → IsVoteType t → BothSummed rvs → IsSummed (pick t rvs)
pick-IsSummed t rvs (inl e) s = rw e s.0
pick-IsSummed t rvs (inr e) s = rw e s.1

replace-BothSummed :
    (t : VoteType) (rvs : RoundVoteSet) (vs : VoteSet)
    → IsVoteType t
    → BothSummed rvs
    → IsSummed vs
    → BothSummed (replace t rvs vs)
replace-BothSummed t rvs vs (inl e) s new = rw e (new, s.1)
replace-BothSummed t rvs vs (inr e) s new = rw e (s.0, new)

round_at-polka :
    (hvs : HeightVoteSet) (r : ℤ)
    → two_thirds_majority (some (round_at hvs r).prevotes) ≡ polka_of hvs r
unfolding two_thirds_majority
round_at-polka hvs r = elim (Option-cases (lookup r hvs.round_vote_sets)) [
  | inl e ↦ rw e (sym (polka-none hvs r e))
  | inr (rvs, e) ↦ rw e (ap two_thirds_majority (sym (prevotes_of-some hvs r rvs e)))
]

replace_same-prevotes :
    (t : VoteType) (rvs : RoundVoteSet) → (replace t rvs (pick t rvs)).prevotes ≡ rvs.prevotes
replace_same-prevotes t rvs = elim (Bool-cases (t == prevote_type)) [ inl e ↦ rw e | inr e ↦ rw e ]

precommit_replaced :
    (t : VoteType) (rvs : RoundVoteSet) (vs : VoteSet)
    → t ≡ precommit_type
    → (replace t rvs vs).prevotes ≡ rvs.prevotes
precommit_replaced t rvs vs e = rw e

written-SamePolkas :
    (hvs : HeightVoteSet) (r : ℤ) (rvs : RoundVoteSet)
    → rvs.prevotes ≡ (round_at hvs r).prevotes
    → SamePolkas hvs (write_round hvs r rvs)
written-SamePolkas hvs r rvs e k =
    let at = lookup-insert r k rvs hvs.round_vote_sets in
    elim (Bool-cases (r ==ℤ k)) [
      | inl hit ↦
          let found : lookup k (write_round hvs r rvs).round_vote_sets ≡ some rvs = at ∙ rw hit in
          ap two_thirds_majority (prevotes_of-some (write_round hvs r rvs) k rvs found ∙ ap some e)
          ∙ (round_at-polka hvs r ∙ ap (polka_of hvs) ((==ℤ_iff r k).0 hit))
      | inr miss ↦ same_lookup (write_round hvs r rvs) hvs k (at ∙ rw miss)
    ]

-- What the vote leaves: valid and counted vote sets, of which at most the one of its round and type is
-- another.
pub record Takes (vals : Validators) (members : List PubKey) (hvs hvs' : HeightVoteSet)
    (vote : Vote) (added : Bool) : Type 0 where
  pub error : Option VoteError
  pub run : hvs_add_vote vals hvs vote ≡ done (hvs', added, error)
  pub valid : IsHeightValid vals members hvs'
  pub counted : IsCounted hvs'
  pub same_round : hvs'.round ≡ hvs.round
  pub rvs : RoundVoteSet
  pub at : lookup vote.round hvs'.round_vote_sets ≡ some rvs
  pub elsewhere :
      (r : ℤ) → vote.round ≢ r → lookup r hvs'.round_vote_sets ≡ lookup r hvs.round_vote_sets
  pub polkas : (added ≡ false) ⊎ (vote.type_ ≡ precommit_type) → SamePolkas hvs hvs'

module _ (vals : Validators) (members : List PubKey) (comm : IsCommittee vals members)
    (hvs : HeightVoteSet) (vote : Vote) (t : IsVoteType vote.type_)
    (valid : IsHeightValid vals members hvs) (counted : IsCounted hvs) where
  -- The vote set that the vote goes to.
  abbrev pub target : VoteSet
  target = pick vote.type_ (round_at hvs vote.round)

  target-IsSetFor : IsSetFor vals members hvs.height hvs.base vote.round vote.type_ target
  target-IsSetFor =
      pick-IsSetFor vals members hvs.height hvs.base vote.round vote.type_ (round_at hvs vote.round)
        t (round_at-IsRoundOf vals members hvs vote.round valid)

  target-IsSummed : IsSummed target
  target-IsSummed =
      pick-IsSummed vote.type_ (round_at hvs vote.round) t
        (round_at-BothSummed hvs vote.round counted)

  takes :
      (vs : VoteSet) (added : Bool) (e : Option VoteError)
      → add_known_vote vals target vote ≡ done (vs, added, e)
      → IsSetFor vals members hvs.height hvs.base vote.round vote.type_ vs
      → IsSummed vs
      → ((added ≡ false) ⊎ (vote.type_ ≡ precommit_type)
          → (replace vote.type_ (round_at hvs vote.round) vs).prevotes
            ≡ (round_at hvs vote.round).prevotes)
      → Takes vals members hvs
          (write_round hvs vote.round (replace vote.type_ (round_at hvs vote.round) vs))
          vote
          added
  takes vs added e run set summed same =
      let rvs' = replace vote.type_ (round_at hvs vote.round) vs in
      let at = λ (r : ℤ). lookup-insert vote.round r rvs' hvs.round_vote_sets in
      record {
        error = e;
        run = hvs_add_vote_lem vals hvs vote vs added e valid.has_height t run;
        valid = write_round-IsHeightValid vals members hvs vote.round rvs' valid (
            replace-IsRoundOf vals members hvs.height hvs.base vote.round vote.type_
              (round_at hvs vote.round) vs t (round_at-IsRoundOf vals members hvs vote.round valid)
              set);
        counted =
            write_round-IsCounted hvs vote.round rvs'
              (replace-BothSummed vote.type_ (round_at hvs vote.round) vs t
                (round_at-BothSummed hvs vote.round counted) summed)
              counted;
        same_round = refl;
        rvs = rvs';
        at = at vote.round ∙ rw ((==ℤ_iff vote.round vote.round).1 refl);
        elsewhere = λ r other. at r ∙ ground (arith, ==ℤ_iff vote.round r);
        polkas = λ p. written-SamePolkas hvs vote.round rvs' (same p);
      }

  -- As long as 64 bits hold the power recorded with the vote's.
  pub hvs_add_vote-Takes :
      count target.votes_by_proposed_data + power_of vals vote.address < 9223372036854775808
      → (hvs' : HeightVoteSet) × (added : Bool) × Takes vals members hvs hvs' vote added
  hvs_add_vote-Takes fits = elim (add_known_vote_outcome vals target vote) [
    | inl (ok, taken) ↦ (
      _,
      true,
      takes (next vals target vote) true none taken
          (next-IsSetFor vals members target vote comm ok target-IsSetFor)
          (next-IsSummed vals members comm target vote ok target-IsSetFor.valid
            (omega (arith, count-next vals members comm target vote ok target-IsSetFor.valid))
            target-IsSummed)
          (λ p. elim p [
            | inl e ↦ absurd (cc)
            | inr e ↦
                precommit_replaced vote.type_ (round_at hvs vote.round) (next vals target vote) e
          ]),
    )
    | inr (x, bad, refused) ↦ (
      _,
      false,
      takes target false (some x) refused target-IsSetFor target-IsSummed
          (λ p. replace_same-prevotes vote.type_ (round_at hvs vote.round)),
    )
  ]

-- With valid and counted vote sets, a round whose prevotes have a majority has two thirds of any.
pub polka-any :
    (vals : Validators) (members : List PubKey) (hvs : HeightVoteSet) (r : ℤ) (rvs : RoundVoteSet)
    → IsCommittee vals members
    → IsHeightValid vals members hvs
    → IsCounted hvs
    → lookup r hvs.round_vote_sets ≡ some rvs
    → has_two_thirds_any vals (some rvs.prevotes) ≡ false
    → (polka_of hvs r).1 ≡ false
polka-any vals members hvs r rvs comm valid counted at few = elim (Bool-cases (polka_of hvs r).1) [
  | inr e ↦ e
  | inl e ↦
      let polka : two_thirds_majority (some rvs.prevotes) ≡ ((polka_of hvs r).0, true) =
        ap two_thirds_majority (sym (prevotes_of-some hvs r rvs at))
        ∙ ap (λ b. ((polka_of hvs r).0, b)) e in
      let any : has_two_thirds_any vals (some rvs.prevotes) ≡ true =
        summed_any vals members comm rvs.prevotes (polka_of hvs r).0
          (valid.rounds r rvs at).prevotes.valid (counted r rvs at).0 polka in
      absurd (ground (arith, few, any))
]
