-- ===== src/VoteSet/Majority.antt =====
-- The promises of a vote set (vote_set.go): the invariant over the calls, and what a majority means.
use gobft.Base.{
  ◌+◌, ◌*◌, ◌≤◌, ◌≡◌, refl, sym, ap, ◌∙◌, subst, ◌≢◌, inl, inr, ℤ, pos, Bool, true, false, ◌&&◌,
  Option, some, List, [], ◌==◌, ==_iff, ==ℤ_iff, Outcome, done, lookup, arith, Bool-cases,
}
use gobft.Errors.{VoteError}
use gobft.Message.{PubKey, ProposedData, VoteType, nil_data, Vote}
use gobft.Committee.{Validators, PrivValidator, verify_signature, get_voting_power}
use gobft.Weights.{IsCommittee, power_of, weight, weight-overlap, weight-none}
use gobft.VoteSet.{
  VoteSet, get_vote, add_verified_vote, add_known_vote, new_vote_set, two_thirds_majority,
}
use gobft.VoteSet.Outcomes.{next, add_known_vote_outcome}
use gobft.VoteSet.Invariant.{voted, tally, total, HasQuorum, IsValid}
use gobft.VoteSet.Preservation.{next-IsValid}

-- A new vote set, for a height that is not 0, satisfies the invariant.
pub new_vote_set-IsValid :
    (vals : Validators) (members : List PubKey) (height round : ℤ) (type_ : VoteType)
    (base : ProposedData)
    → height ≢ pos 0
    → (vs : VoteSet) × (new_vote_set height round type_ base ≡ done vs) × IsValid vals members vs
unfolding new_vote_set get_vote lookup tally
new_vote_set-IsValid vals members height round type_ base h = (
  record {
    height = height;
    round = round;
    type_ = type_;
    base = base;
    sum = pos 0;
    distinct_voter = 0;
    minor_quorum = nil_data;
    maj23 = nil_data;
    votes_by_proposed_data = [];
  },
  ground (arith, ==ℤ_iff height (pos 0)),
  record {
    recorded = λ d a v e. cc;
    sums = λ d. ap pos (sym (weight-none (power_of vals) members));
    sound = λ n. absurd (n refl);
    found = λ d n q. absurd (omega (arith, weight-none (power_of vals) members));
  },
)

result_eq :
    {vs vs' : VoteSet} {added added' : Bool} {e e' : Option VoteError}
    → ◌≡◌ {A = Outcome (VoteSet × Bool × Option VoteError)}
        (done (vs, added, e))
        (done (vs', added', e'))
    → vs ≡ vs'
result_eq h = cc

-- Whatever `AddVote` returns, the set that it leaves satisfies the invariant.
pub add_known_vote-IsValid :
    (vals : Validators) (members : List PubKey) (vs vs' : VoteSet) (vote : Vote) {added : Bool}
    {e : Option VoteError}
    → IsCommittee vals members
    → IsValid vals members vs
    → add_known_vote vals vs vote ≡ done (vs', added, e)
    → IsValid vals members vs'
add_known_vote-IsValid vals members vs vs' vote comm valid h =
    elim (add_known_vote_outcome vals vs vote) [
      | inl (ok, taken) ↦
          subst (IsValid vals members) (result_eq (sym taken ∙ h))
            (next-IsValid vals members comm vs vote ok valid)
      | inr (x, bad, refused) ↦ subst (IsValid vals members) (result_eq (sym refused ∙ h)) valid
    ]

-- `TwoThirdsMajority` reports data only if it is not nil and validators with more than two thirds
-- of the power are recorded for it, and reports none only if no data but nil has such a quorum.
pub two_thirds_majority_means :
    (vals : Validators) (members : List PubKey) (vs : VoteSet)
    → IsValid vals members vs
    → ((d : ProposedData)
        → two_thirds_majority (some vs) ≡ (d, true)
        → (d ≢ nil_data) × HasQuorum vals members vs d)
      × (two_thirds_majority (some vs) ≡ (nil_data, false)
          → (d : ProposedData) → d ≢ nil_data
          → ¬ HasQuorum vals members vs d)
unfolding two_thirds_majority
two_thirds_majority_means vals members vs valid = (
  λ d h. elim (Bool-cases (vs.maj23 == nil_data)) [
    | inl e ↦ ground arith
    | inr e ↦
        let same : vs.maj23 ≡ d = ground arith in
        subst (λ x. (x ≢ nil_data) × HasQuorum vals members vs x) same
          (ground arith, valid.sound (ground arith))
  ],
  λ h d n q. valid.found d n q (ground arith),
)

next_keeps :
    (vals : Validators) (vs : VoteSet) (vote : Vote) (d : ProposedData)
    → two_thirds_majority (some vs) ≡ (d, true)
    → two_thirds_majority (some (next vals vs vote)) ≡ (d, true)
unfolding two_thirds_majority add_verified_vote
next_keeps vals vs vote d m = ground arith

-- The first majority is final: no later vote, accepted or refused, changes what
-- `TwoThirdsMajority` reports.
pub majority_final :
    (vals : Validators) (vs vs' : VoteSet) (vote : Vote) (d : ProposedData) {added : Bool}
    {e : Option VoteError}
    → two_thirds_majority (some vs) ≡ (d, true)
    → add_known_vote vals vs vote ≡ done (vs', added, e)
    → two_thirds_majority (some vs') ≡ (d, true)
unfolding two_thirds_majority
majority_final vals vs vs' vote d m h = elim (add_known_vote_outcome vals vs vote) [
  | inl (ok, taken) ↦
      subst (λ s. two_thirds_majority (some s) ≡ (d, true)) (result_eq (sym taken ∙ h))
        (next_keeps vals vs vote d m)
  | inr (x, bad, refused) ↦
      subst (λ s. two_thirds_majority (some s) ≡ (d, true)) (result_eq (sym refused ∙ h)) m
]

overlap :
    (vals : Validators) (members : List PubKey) (vs ws : VoteSet) (d d' : ProposedData)
    → tally vals members vs d + tally vals members ws d'
      ≤ total vals members + weight (power_of vals) (λ a. voted vs d a && voted ws d' a) members
unfolding tally total
overlap vals members vs ws d d' = weight-overlap (power_of vals) (voted vs d) (voted ws d') members

-- Only the signing key differs between the nodes, and a vote set does not depend on it.
pub other_key :
    (vals : Validators) (key : PrivValidator) (members : List PubKey) (vs : VoteSet)
    → IsValid (record vals { priv_val = key }) members vs
    → IsValid vals members vs
unfolding verify_signature get_voting_power tally total
other_key vals key members vs valid = record {
  recorded = λ d a v e.
      (let r = valid.recorded d a v e in
        record {
          same_data = r.same_data;
          same_voter = r.same_voter;
          same_base = r.same_base;
          same_height = r.same_height;
          same_round = r.same_round;
          same_type = r.same_type;
          verified = r.verified;
        });
  sums = valid.sums;
  sound = valid.sound;
  found = valid.found;
}

-- Two nodes, with keys of their own, that each hold a majority under one committee hold it for the
-- same data, if the validators that voted twice have at most a third of the power: for no two
-- different data does more than that stand in the set of the one node for the one data, and in the
-- set of the other node for the other.
pub majorities_agree :
    (vals : Validators) (key : PrivValidator) (members : List PubKey) (vs ws : VoteSet)
    (d d' : ProposedData)
    → IsValid vals members vs
    → IsValid (record vals { priv_val = key }) members ws
    → ((x y : ProposedData)
        → x ≢ y
        → 3 * weight (power_of vals) (λ a. voted vs x a && voted ws y a) members
          ≤ total vals members)
    → two_thirds_majority (some vs) ≡ (d, true)
    → two_thirds_majority (some ws) ≡ (d', true)
    → d ≡ d'
majorities_agree vals key members vs ws d d' vv wv honest m m' = elim (Bool-cases (d == d')) [
  | inl e ↦ (==_iff d d').0 e
  | inr e ↦
      let (n, q) = (two_thirds_majority_means vals members vs vv).0 d m in
      let (n', q') =
        (two_thirds_majority_means vals members ws (other_key vals key members ws wv)).0 d' m' in
      absurd
        (omega (arith, overlap vals members vs ws d d', honest d d' (λ s. cc ((==_iff d d').1 s))))
]
