-- ===== src/VoteSet/Invariant.antt =====
-- What holds of a vote set between two calls (vote_set.go).
use gobft.Base.{
  ℕ, ◌+◌, ◌*◌, ◌/◌, ◌≤◌, ◌<◌, ◌≡◌, refl, ◌≢◌, pos, int64_add, quot_ℤ, Bool, true, some, List,
  nat_key, is_some, arith,
}
use gobft.Message.{PubKey, ProposedData, nil_data, Vote}
use gobft.Committee.{Validators, verify_signature}
use gobft.Weights.{IsCommittee, power_of, weight, everyone, weight_mono}
use gobft.VoteSet.{VoteSet, get_vote, two_thirds, quorum}
use gobft.VoteSet.Outcomes.{entry_of}

-- Whether a voter is recorded for some data.
abbrev pub voted : VoteSet → ProposedData → PubKey → Bool
voted vs d a = is_some (get_vote vs d a)

-- The power of the validators that are recorded for some data.
unfoldable pub tally : Validators → List PubKey → VoteSet → ProposedData → ℕ
tally vals members vs d = weight (power_of vals) (voted vs d) members

unfoldable pub total : Validators → List PubKey → ℕ
total vals members = weight (power_of vals) everyone members

-- More than two thirds of the power.
abbrev pub HasQuorum : Validators → List PubKey → VoteSet → ProposedData → Type 0
HasQuorum vals members vs d = 2 * total vals members < 3 * tally vals members vs d

-- A recorded vote, as it was checked.
pub record IsRecorded (vals : Validators) (vs : VoteSet) (d : ProposedData) (a : PubKey)
    (vote : Vote) : Type 0 where
  pub same_data : vote.proposed ≡ d
  pub same_voter : vote.address ≡ a
  pub same_base : vote.prev ≡ vs.base
  pub same_height : vote.height ≡ vs.height
  pub same_round : vote.round ≡ vs.round
  pub same_type : vote.type_ ≡ vs.type_
  pub verified : verify_signature vals vote ≡ true

pub record IsValid (vals : Validators) (members : List PubKey) (vs : VoteSet) : Type 0 where
  -- every recorded vote passed the checks
  pub recorded :
      (d : ProposedData) (a : PubKey) (vote : Vote)
      → get_vote vs d a ≡ some vote
      → IsRecorded vals vs d a vote
  -- the running sum of an entry is the power of its voters
  pub sums : (d : ProposedData) → (entry_of vs d).sum ≡ pos (tally vals members vs d)
  -- a majority is one, and none is missed
  pub sound : vs.maj23 ≢ nil_data → HasQuorum vals members vs vs.maj23
  pub found : (d : ProposedData) → d ≢ nil_data → HasQuorum vals members vs d → vs.maj23 ≢ nil_data

module _ (vals : Validators) (members : List PubKey) (comm : IsCommittee vals members) where
  pub total_small : 2 * total vals members < 9223372036854775808
  unfolding total
  total_small = comm.small

  pub tally-le-total :
      (vs : VoteSet) (d : ProposedData) → tally vals members vs d ≤ total vals members
  unfolding tally total
  tally-le-total vs d = weight_mono (power_of vals) (voted vs d) everyone members (λ a h. refl)

  pub two_thirds_eq : two_thirds vals ≡ pos (2 * total vals members / 3)
  unfolding two_thirds total quot_ℤ
  two_thirds_eq =
      rw
        (
          comm.total,
          int64_add (total vals members) (total vals members) (omega (arith, total_small)),
        )
        (ground arith)

  -- The threshold that `addVerifiedVote` computes.
  pub quorum_eq : quorum vals ≡ pos (2 * total vals members / 3 + 1)
  unfolding quorum
  quorum_eq = rw (two_thirds_eq) (int64_add _ 1 (ground (arith, total_small)))
