-- ===== src/VoteSet/Agreement.antt =====
-- Two nodes that collect the votes of one height, round and type (vote_set.go).
use gobft.Base.{
  ◌*◌, ◌≤◌, ◌≡◌, sym, ◌∙◌, subst, ◌≢◌, ℤ, pos, true, ◌&&◌, some, List, done, ==ℤ_iff, arith,
  done_injective,
}
use gobft.Message.{PubKey, ProposedData, VoteType, Vote}
use gobft.Committee.{Validators, PrivValidator, get_voting_power, get_total_voting_power}
use gobft.Weights.{IsCommittee, power_of, weight}
use gobft.VoteSet.{VoteSet, new_vote_set, two_thirds_majority}
use gobft.VoteSet.Invariant.{voted, total, IsValid}
use gobft.VoteSet.Majority.{new_vote_set-IsValid, majorities_agree}
use gobft.VoteSet.History.{after_votes, after_votes-IsValid}

not_zero :
    (height round : ℤ) (type_ : VoteType) (base : ProposedData) (vs : VoteSet)
    → new_vote_set height round type_ base ≡ done vs
    → height ≢ pos 0
unfolding new_vote_set
not_zero height round type_ base vs e z = ground (arith, (==ℤ_iff height (pos 0)).1 z)

pub started-IsValid :
    (vals : Validators) (members : List PubKey) (height round : ℤ) (type_ : VoteType)
    (base : ProposedData) (vs : VoteSet)
    → new_vote_set height round type_ base ≡ done vs
    → IsValid vals members vs
started-IsValid vals members height round type_ base vs e =
    let (vs', run, valid) =
      new_vote_set-IsValid vals members height round type_ base
        (not_zero height round type_ base vs e) in
    subst (IsValid vals members) (done_injective (sym run ∙ e)) valid

pub same-IsCommittee :
    (vals : Validators) (key : PrivValidator) (members : List PubKey)
    → IsCommittee vals members
    → IsCommittee (record vals { priv_val = key }) members
unfolding get_voting_power get_total_voting_power
same-IsCommittee vals key members comm = record {
  distinct = comm.distinct;
  complete = comm.complete;
  powers = comm.powers;
  total = comm.total;
  small = comm.small;
}

-- Two nodes of one committee, with keys of their own, each start with an empty vote set for the same
-- height, round, type and base, and each receive some votes, of whatever origin. If both report a
-- majority, it is for the same data, as long as the validators that voted twice have at most a third
-- of the power: for no two different data does more than that stand in the set of the one node for
-- the one data, and in the set of the other node for the other.
pub nodes_agree :
    (vals : Validators) (key : PrivValidator) (members : List PubKey) (height round : ℤ)
    (type_ : VoteType) (base : ProposedData) (start : VoteSet) (votes votes' : List Vote)
    (d d' : ProposedData)
    → IsCommittee vals members
    → new_vote_set height round type_ base ≡ done start
    → let vs = after_votes vals start votes in
      let ws = after_votes (record vals { priv_val = key }) start votes' in
      ((x y : ProposedData)
        → x ≢ y
        → 3 * weight (power_of vals) (λ a. voted vs x a && voted ws y a) members
          ≤ total vals members)
      → two_thirds_majority (some vs) ≡ (d, true)
      → two_thirds_majority (some ws) ≡ (d', true)
      → d ≡ d'
nodes_agree vals key members height round type_ base start votes votes' d d' comm e honest m m' =
    majorities_agree vals key members _ _ d d'
      (after_votes-IsValid vals members start votes comm
        (started-IsValid vals members height round type_ base start e))
      (after_votes-IsValid (record vals { priv_val = key }) members start votes'
        (same-IsCommittee vals key members comm)
        (started-IsValid (record vals { priv_val = key }) members height round type_ base start e))
      honest m m'
