-- ===== src/VoteSet.antt =====
-- vote_set.go: the votes of one type at one height and round. A `*VoteSet` that the code tests for
-- nil is an option. The mutex is left out: each method is one atomic step. The pointer `validators`
-- is an argument of the methods that follow it, since all vote sets share the one of the core.
-- The order of a Go map is unspecified; here it is the order of insertion.
pub mod Missing
pub mod Outcomes
pub mod Invariant
pub mod Preservation
pub mod Majority
pub mod Evidence
pub mod History
pub mod Agreement
pub mod Reports
pub mod Fetch
pub mod Responses
pub mod Exchange
pub mod Sum
use gobft.Base.{
  ℕ, ℤ, pos, ◌+ℤ◌, int64, quot_ℤ, ltb_ℤ, leb_ℤ, ◌==ℤ◌, Bool, true, false, ◌&&◌, ◌||◌, not, Option,
  none, some, List, [], ◌∷◌, ◌++◌, map, length, ◌==◌, ltb, if◌then◌else◌, lookup, insert, nat_key,
  bytes_equal, is_some, Outcome, done, panic,
}
use gobft.Errors.{
  VoteError, vote_nil, mismatched_base, unexpected_step, duplicate_vote,
  non_deterministic_signature, invalid_signature, conflicting_vote,
}
use gobft.Message.{
  PubKey, ProposedData, VoteType, nil_data, precommit_type, Vote, Commit, FetchVotesReq,
  FetchVotesRsp,
}
use gobft.Committee.{
  Validators, verify_signature, get_voting_power, get_total_voting_power, get_validator_num,
}

pub record ProposedDataVotes : Type 0 where
  pub votes : List (PubKey × Vote)
  pub sum : ℤ

pub record VoteSet : Type 0 where
  pub height : ℤ
  pub round : ℤ
  pub type_ : VoteType
  pub base : ProposedData
  pub sum : ℤ
  pub distinct_voter : ℕ
  pub minor_quorum : ProposedData
  pub maj23 : ProposedData
  pub votes_by_proposed_data : List (ProposedData × ProposedDataVotes)

-- `proposedDataVotes.addVote`
unfoldable pub pd_add_vote : ProposedDataVotes → Vote → ℤ → ProposedDataVotes
pd_add_vote pd vote power =
    if is_some (lookup vote.address pd.votes)
    then pd
    else record pd { votes = insert vote.address vote pd.votes; sum = int64 (pd.sum +ℤ power) }

-- `proposedDataVotes.getAllVotes`
abbrev pub get_all_votes : List (PubKey × Vote) → List Vote
get_all_votes = map λ entry. entry.1

-- Panics at height 0.
unfoldable pub new_vote_set : ℤ → ℤ → VoteType → ProposedData → Outcome VoteSet
new_vote_set height round type_ base =
    if height ==ℤ pos 0
    then panic
    else done (record {
      height = height;
      round = round;
      type_ = type_;
      base = base;
      sum = pos 0;
      distinct_voter = 0;
      minor_quorum = nil_data;
      maj23 = nil_data;
      votes_by_proposed_data = [];
    })

-- `GetTotalVotingPower() * 2 / 3`
unfoldable pub two_thirds : Validators → ℤ
unfolding get_total_voting_power
two_thirds vals = quot_ℤ (int64 (get_total_voting_power vals +ℤ get_total_voting_power vals)) 3

unfoldable pub quorum : Validators → ℤ
unfolding two_thirds
quorum vals = int64 (two_thirds vals +ℤ pos 1)

unfoldable pub get_vote : VoteSet → ProposedData → PubKey → Option Vote
get_vote vs pd address = elim (lookup pd vs.votes_by_proposed_data) [
  | none ↦ none
  | some pdvotes ↦ lookup address pdvotes.votes
]

-- The entry of a proposed data, made where there is none.
abbrev pub entry_or_new : Option ProposedDataVotes → ProposedDataVotes
entry_or_new none = record { votes = []; sum = pos 0 }
entry_or_new (some pd) = pd

unfoldable pub add_verified_vote : Validators → VoteSet → Vote → ℤ → VoteSet × Bool × Option Vote
add_verified_vote vals vs vote power =
    let before = entry_or_new (lookup vote.proposed vs.votes_by_proposed_data) in
    let after = pd_add_vote before vote power in
    let crossed = ltb_ℤ before.sum (quorum vals) && leb_ℤ (quorum vals) after.sum in
    let wider = ltb vs.distinct_voter (length after.votes) in
    (
      record vs {
        sum = int64 (vs.sum +ℤ power);
        distinct_voter = if wider then length after.votes else vs.distinct_voter;
        minor_quorum =
            if wider && vs.minor_quorum == nil_data then vote.proposed else vs.minor_quorum;
        maj23 = if crossed && vs.maj23 == nil_data then vote.proposed else vs.maj23;
        votes_by_proposed_data = insert vote.proposed after vs.votes_by_proposed_data;
      },
      true,
      none,
    )

-- The end of `addVote`: what is made of the results of `addVerifiedVote`.
conclude : VoteSet × Bool × Option Vote → Outcome (VoteSet × Bool × Option VoteError)
conclude (vs, added, some conflicting) = done (vs, added, some conflicting_vote)
conclude (vs, added, none) = if not added then panic else done (vs, added, none)

-- The early returns of `addVote`, for a vote that is not nil.
unfoldable pub refusal : Validators → VoteSet → Vote → Option VoteError
refusal vals vs vote =
    if not (vote.prev == vs.base)
    then some mismatched_base
    else if not (vote.height ==ℤ vs.height)
        || not (vote.round ==ℤ vs.round)
        || not (vote.type_ == vs.type_)
    then some unexpected_step
    else elim (get_vote vs vote.proposed vote.address) [
      | some existing ↦
          if bytes_equal existing.signature vote.signature
          then some duplicate_vote
          else some non_deterministic_signature
      | none ↦ if not (verify_signature vals vote) then some invalid_signature else none
    ]

unfoldable pub add_known_vote :
    Validators → VoteSet → Vote → Outcome (VoteSet × Bool × Option VoteError)
unfolding conclude
add_known_vote vals vs vote = elim (refusal vals vs vote) [
  | some e ↦ done (vs, false, some e)
  | none ↦ conclude (add_verified_vote vals vs vote (get_voting_power vals vote.address))
]

-- `AddVote`, for a vote set and a vote that may be nil.
unfoldable pub add_vote :
    Validators → Option VoteSet → Option Vote → Outcome (VoteSet × Bool × Option VoteError)
unfolding add_known_vote
add_vote vals none vote = panic
add_vote vals (some vs) none = done (vs, false, some vote_nil)
add_vote vals (some vs) (some vote) = add_known_vote vals vs vote

unfoldable pub has_two_thirds_majority : Option VoteSet → Bool
has_two_thirds_majority none = false
has_two_thirds_majority (some vs) = not (vs.maj23 == nil_data)

unfoldable pub is_commit : Option VoteSet → Bool
is_commit none = false
is_commit (some vs) = if not (vs.type_ == precommit_type) then false else not (vs.maj23 == nil_data)

unfoldable pub minor_quorum_of : Validators → Option VoteSet → ProposedData × Bool
minor_quorum_of vals none = (nil_data, false)
minor_quorum_of vals (some vs) =
    let n = get_validator_num vals in
    if ltb_ℤ (quot_ℤ (int64 (n +ℤ n)) 3) (pos vs.distinct_voter)
      || (ltb_ℤ n (pos 4) && leb_ℤ (quot_ℤ (int64 (n +ℤ pos 1)) 2) (pos vs.distinct_voter))
    then (vs.minor_quorum, true)
    else (nil_data, false)

unfoldable pub has_two_thirds_any : Validators → Option VoteSet → Bool
has_two_thirds_any vals none = false
has_two_thirds_any vals (some vs) = ltb_ℤ (two_thirds vals) vs.sum

unfoldable pub has_all : Validators → VoteSet → Bool
has_all vals vs = vs.sum ==ℤ get_total_voting_power vals

unfoldable pub two_thirds_majority : Option VoteSet → ProposedData × Bool
two_thirds_majority none = (nil_data, false)
two_thirds_majority (some vs) =
    if not (vs.maj23 == nil_data) then (vs.maj23, true) else (nil_data, false)

-- Panics without a majority, without an entry for it, and on `precommits[0]` of an empty entry.
unfoldable pub commit_of : ProposedData → List Vote → Outcome Commit
commit_of maj [] = panic
commit_of maj (v ∷ vs) = done (record {
  proposed_data = maj;
  prev = v.prev;
  precommits = map some (v ∷ vs);
  commit_time = 0;
  address = 0;
  signature = [];
})

unfoldable pub make_commit : VoteSet → Outcome Commit
unfolding commit_of
make_commit vs =
    if vs.maj23 == nil_data then panic else elim (lookup vs.maj23 vs.votes_by_proposed_data) [
      | none ↦ panic
      | some pd ↦ commit_of vs.maj23 (get_all_votes pd.votes)
    ]
