-- ===== src/Scenarios/Evidence.antt =====
-- Runs of commits, signatures and the fetch messages (vote_set.go, validators.go, message/message.go).
use mathlib.Core.List.{Perm}
use mathlib.Core.List.Perm.{swap as perm_swap}
use gobft.Base.{
  ℕ, ◌≡◌, refl, ◌↔◌, pos, true, none, some, [], ◌∷◌, bytes_equal, arith, done, lookup, insert, not,
  ◌&&◌, ◌||◌, int64, ◌+ℤ◌, quot_ℤ, map,
}
use gobft.Message.{prevote_type, precommit_type, Commit}
use gobft.Message.Digest.{vote_digest, vote_preimage}
use gobft.Message.Validate.{validate_commit}
use gobft.Message.Commits.{IsWellFormed, validate_commit_iff}
use gobft.Committee.{get_voting_power, sign_vote, verify_signature, sign_commit}
use gobft.Committee.Signing.{verify_signature_moved}
use gobft.VoteSet.{
  VoteSet, add_known_vote, two_thirds_majority, add_verified_vote, refusal, get_vote, pd_add_vote,
  quorum, make_commit, get_all_votes,
}
use gobft.VoteSet.Outcomes.{entry_of}
use gobft.VoteSet.Invariant.{voted, IsValid}
use gobft.VoteSet.Evidence.{IsTidy, make_commit_valid}
use gobft.VoteSet.History.{after_votes, after_votes-IsValid, after_votes-IsTidy}
use gobft.Message.{FetchVotesReq}
use gobft.VoteSet.{has_two_thirds_any, two_thirds}
use gobft.VoteSet.Missing.{make_fetch_votes_req, make_fetch_votes_rsp, missing_votes_of, missing_in}
use gobft.VoteSet.Responses.{recorded_any}
use gobft.VoteSet.Exchange.{fetch_exchange}
use gobft.HeightVoteSet.Rounds.{fresh_set, fresh_set-IsSetFor}
use gobft.Scenarios.{members, node, key, four-IsCommittee, prevote_for, precommit_for}
use gobft.Scenarios.Ballots.{empty_set, three_for_5, starts_empty}

abbrev pub three_precommits : VoteSet
three_precommits =
    after_votes (node 1) (fresh_set (pos 1) (pos 0) precommit_type 9)
      (precommit_for 1 5 ∷ precommit_for 2 5 ∷ precommit_for 3 5 ∷ [])

pub three_precommits-IsValid : IsValid (node 1) members three_precommits
three_precommits-IsValid =
    after_votes-IsValid (node 1) members _ _ four-IsCommittee
      (fresh_set-IsSetFor (node 1) members (pos 1) 9 (pos 0) precommit_type).valid

pub precommits_type : three_precommits.type_ ≡ precommit_type
unfolding two_thirds_majority after_votes add_known_vote refusal sign_vote get_vote lookup
    verify_signature bytes_equal vote_digest vote_preimage add_verified_vote insert pd_add_vote
    get_voting_power quorum int64 ◌+ℤ◌ quot_ℤ
precommits_type = refl

pub precommits_majority : three_precommits.maj23 ≡ 5
unfolding two_thirds_majority after_votes add_known_vote refusal sign_vote get_vote lookup
    verify_signature bytes_equal vote_digest vote_preimage add_verified_vote insert pd_add_vote
    get_voting_power quorum int64 ◌+ℤ◌ quot_ℤ
precommits_majority = refl

pub precommits-IsTidy : IsTidy three_precommits
precommits-IsTidy =
    after_votes-IsTidy (node 1) _ _
      (fresh_set-IsSetFor (node 1) members (pos 1) 9 (pos 0) precommit_type).tidy

make_commit_valid_example :
    (commit : Commit) × (make_commit three_precommits ≡ done commit)
    × (commit.proposed_data ≡ three_precommits.maj23)
    × (commit.prev ≡ three_precommits.base)
    × (commit.precommits
        ≡ map some (get_all_votes (entry_of three_precommits three_precommits.maj23).votes))
    × ((time : ℕ)
        → validate_commit (sign_commit (node 1) (record commit { commit_time = time })) ≡ none)
make_commit_valid_example =
    make_commit_valid (node 1) members three_precommits three_precommits-IsValid precommits-IsTidy
      precommits_type (λ e. ground (arith, precommits_majority)) (λ e. ground arith)
      (λ digest e. cc)

verify_signature_moved_example :
    verify_signature (node 1) (record (prevote_for 2 5) { round = pos 7; timestamp = 3 })
    ≡ verify_signature (node 1) (prevote_for 2 5)
verify_signature_moved_example = verify_signature_moved (node 1) (prevote_for 2 5) (pos 7) 3

abbrev two_precommits : Commit
two_precommits = record {
  proposed_data = 5;
  prev = 9;
  precommits = some (precommit_for 1 5) ∷ none ∷ some (precommit_for 3 5) ∷ [];
  commit_time = 0;
  address = 1;
  signature = 1 ∷ [];
}

validate_commit_iff_example : (validate_commit two_precommits ≡ none) ↔ IsWellFormed two_precommits
validate_commit_iff_example = validate_commit_iff two_precommits

-- A node that has the first vote only asks the node that has all three, which answers with the others.
abbrev one_set : VoteSet
one_set = after_votes (node 1) empty_set (prevote_for 1 5 ∷ [])

abbrev request_2 : FetchVotesReq
request_2 = make_fetch_votes_req 40 one_set

answered :
    Perm
      (some (prevote_for 3 5) ∷ some (prevote_for 2 5) ∷ [])
      (make_fetch_votes_rsp 50 (after_votes (node 2) empty_set three_for_5) request_2).missing_votes
unfolding make_fetch_votes_rsp make_fetch_votes_req missing_votes_of missing_in two_thirds_majority
    after_votes add_known_vote refusal sign_vote get_vote lookup verify_signature bytes_equal
    vote_digest vote_preimage add_verified_vote insert pd_add_vote get_voting_power quorum int64
    ◌+ℤ◌ quot_ℤ
answered = perm_swap (some (prevote_for 2 5)) (some (prevote_for 3 5)) []

fetch_exchange_example :
    voted (after_votes (node 1) one_set (prevote_for 3 5 ∷ prevote_for 2 5 ∷ [])) 5 2 ≡ (
      voted one_set 5 2
      || (voted (after_votes (node 2) empty_set three_for_5) 5 2
          && not (recorded_any one_set.votes_by_proposed_data 2)))
fetch_exchange_example =
    fetch_exchange (node 1) (key 2) members (pos 1) (pos 0) prevote_type 9 empty_set
      (prevote_for 1 5 ∷ []) three_for_5 40 50
      (some (prevote_for 3 5) ∷ some (prevote_for 2 5) ∷ []) 5 2 four-IsCommittee starts_empty
      answered

-- One validator that votes for three data is counted three times, and so makes up any two thirds.
thrice :
    has_two_thirds_any (node 1) (
      some
        (after_votes (node 1) empty_set (prevote_for 4 5 ∷ prevote_for 4 6 ∷ prevote_for 4 7 ∷ [])))
    ≡ true
unfolding has_two_thirds_any two_thirds after_votes add_known_vote refusal sign_vote get_vote lookup
    verify_signature bytes_equal vote_digest vote_preimage add_verified_vote insert pd_add_vote
    get_voting_power quorum int64 ◌+ℤ◌ quot_ℤ
thrice = refl
