-- ===== src/VoteSet/Reports.antt =====
-- What `TwoThirdsMajority` (vote_set.go) says of the votes that a set was given since it was made.
use gobft.Base.{
  ◌*◌, ◌≤◌, ◌<◌, ◌≡◌, ap, ◌∙◌, ◌≢◌, ◌⊎◌, inl, inr, ℕ, ℤ, true, false, ◌||◌, some, List, ◌==◌, done,
  arith, Bool-cases, lookup,
}
use gobft.Message.{PubKey, ProposedData, VoteType, nil_data, Vote}
use gobft.Committee.{Validators}
use gobft.Weights.{IsCommittee, power_of, weight, weight-cong}
use gobft.VoteSet.{VoteSet, get_vote, new_vote_set, two_thirds_majority}
use gobft.VoteSet.Invariant.{voted, tally, total}
use gobft.VoteSet.Majority.{two_thirds_majority_means}
use gobft.VoteSet.History.{after_votes, any_counts, voted-after_votes, after_votes-IsValid}
use gobft.VoteSet.Agreement.{started-IsValid}

-- The power of the members of whom one of the votes passes the checks of the set and is for the data.
unfoldable pub power_for : Validators → List PubKey → VoteSet → List Vote → ProposedData → ℕ
power_for vals members start votes d =
    weight (power_of vals) (λ a. any_counts vals start d a votes) members

started_empty :
    (height round : ℤ) (type_ : VoteType) (base : ProposedData) (vs : VoteSet) (d : ProposedData)
    (a : PubKey)
    → new_vote_set height round type_ base ≡ done vs
    → voted vs d a ≡ false
unfolding new_vote_set get_vote lookup
started_empty height round type_ base vs d a e = ground arith

tally_is :
    (vals : Validators) (members : List PubKey) (start : VoteSet) (votes : List Vote)
    (d : ProposedData)
    → ((a : PubKey) → voted start d a ≡ false)
    → tally vals members (after_votes vals start votes) d ≡ power_for vals members start votes d
unfolding tally power_for
tally_is vals members start votes d empty = weight-cong (power_of vals) _ _ members (λ a.
    voted-after_votes vals start votes d a
    ∙ ap (λ b. b || any_counts vals start d a votes) (empty a))

report_cases :
    (vs : VoteSet)
    → ((d : ProposedData) × (two_thirds_majority (some vs) ≡ (d, true)))
      ⊎ (two_thirds_majority (some vs) ≡ (nil_data, false))
unfolding two_thirds_majority
report_cases vs = elim (Bool-cases (vs.maj23 == nil_data)) [
  | inl e ↦ inr (ground arith)
  | inr e ↦ inl (vs.maj23, ground arith)
]

-- A new vote set of a committee that was given some votes, of whatever origin, reports a majority or
-- none. If it reports one, it is for data that is not nil, and the members of whom one of the votes
-- passes the checks and is for that data have more than two thirds of the power. If it reports none, no
-- data that is not nil has more than two thirds of the power behind it in this way.
pub new_vote_set-Reports :
    (vals : Validators) (members : List PubKey) (height round : ℤ) (type_ : VoteType)
    (base : ProposedData) (start : VoteSet) (votes : List Vote)
    → IsCommittee vals members
    → new_vote_set height round type_ base ≡ done start
    → ((d : ProposedData) × (two_thirds_majority (some (after_votes vals start votes)) ≡ (d, true))
        × (d ≢ nil_data)
        × (2 * total vals members < 3 * power_for vals members start votes d))
      ⊎ ((two_thirds_majority (some (after_votes vals start votes)) ≡ (nil_data, false))
          × ((d : ProposedData)
              → d ≢ nil_data
              → 3 * power_for vals members start votes d ≤ 2 * total vals members))
new_vote_set-Reports vals members height round type_ base start votes comm e =
    let vs = after_votes vals start votes in
    let valid =
      after_votes-IsValid vals members start votes comm
        (started-IsValid vals members height round type_ base start e) in
    let means = two_thirds_majority_means vals members vs valid in
    let same = λ (d : ProposedData).
      tally_is vals members start votes d
        (λ a. started_empty height round type_ base start d a e) in
    elim (report_cases vs) [
      | inl (d, m) ↦ inl (d, m, (means.0 d m).0, omega (arith, (means.0 d m).1, same d))
      | inr m ↦ inr (m, λ d n. omega (arith, means.1 m d n, same d))
    ]
