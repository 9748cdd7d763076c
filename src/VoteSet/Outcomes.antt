-- ===== src/VoteSet/Outcomes.antt =====
-- What `AddVote` returns (vote_set.go), and what an accepted vote does to the ballots.
use gobft.Base.{
  ◌∙◌, ◌≡◌, refl, sym, ◌⊎◌, inl, inr, ℤ, ==ℤ_iff, true, false, ◌&&◌, none, some, ◌==◌, ==_iff,
  if◌then◌else◌, lookup, lookup-insert, nat_key, bytes_equal, done, arith, Bool-cases, Option-cases,
}
use gobft.Errors.{VoteError, duplicate_vote, non_deterministic_signature}
use gobft.Message.{PubKey, ProposedData, Vote}
use gobft.Committee.{Validators, verify_signature, get_voting_power}
use gobft.VoteSet.{
  VoteSet, ProposedDataVotes, entry_or_new, get_vote, pd_add_vote, add_verified_vote,
  add_known_vote, refusal,
}

-- The vote set after a vote that passed the checks.
abbrev pub next : Validators → VoteSet → Vote → VoteSet
next vals vs vote = (add_verified_vote vals vs vote (get_voting_power vals vote.address)).0

abbrev pub entry_of : VoteSet → ProposedData → ProposedDataVotes
entry_of vs d = entry_or_new (lookup d vs.votes_by_proposed_data)

pub record IsAcceptable (vals : Validators) (vs : VoteSet) (vote : Vote) : Type 0 where
  pub same_base : vote.prev ≡ vs.base
  pub same_height : vote.height ≡ vs.height
  pub same_round : vote.round ≡ vs.round
  pub same_type : vote.type_ ≡ vs.type_
  pub unseen : get_vote vs vote.proposed vote.address ≡ none
  pub verified : verify_signature vals vote ≡ true

refusal-none :
    (vals : Validators) (vs : VoteSet) (vote : Vote)
    → refusal vals vs vote ≡ none
    → IsAcceptable vals vs vote
unfolding refusal
refusal-none vals vs vote h =
    ground (arith, ==ℤ_iff vote.height vs.height, ==ℤ_iff vote.round vs.round)

none-refusal :
    (vals : Validators) (vs : VoteSet) (vote : Vote)
    → IsAcceptable vals vs vote
    → refusal vals vs vote ≡ none
unfolding refusal
none-refusal vals vs vote ok =
    ground (arith, ==ℤ_iff vote.height vs.height, ==ℤ_iff vote.round vs.round)

-- `addVote` never panics. It takes exactly the votes on this base, at this height, round and type,
-- with a valid signature, whose voter is not yet recorded for that data; every other vote it refuses
-- with an error, and then the set is unchanged.
pub add_known_vote_outcome :
    (vals : Validators) (vs : VoteSet) (vote : Vote)
    → (IsAcceptable vals vs vote
        × (add_known_vote vals vs vote ≡ done (next vals vs vote, true, none)))
      ⊎ ((e : VoteError) × (¬ IsAcceptable vals vs vote)
          × (add_known_vote vals vs vote ≡ done (vs, false, some e)))
unfolding add_known_vote add_verified_vote
add_known_vote_outcome vals vs vote = elim (Option-cases (refusal vals vs vote)) [
  | inl e ↦ inl (refusal-none vals vs vote e, rw (e, add_known_vote))
  | inr (x, e) ↦ inr (x, (λ ok. cc (none-refusal vals vs vote ok)), rw (e, add_known_vote))
]

-- A vote of the set's base, height, round and type, whose voter is already recorded for its data,
-- is refused with an error that says whether its signature is the recorded one.
pub add_known_vote_again :
    (vals : Validators) (vs : VoteSet) (vote existing : Vote)
    → vote.prev ≡ vs.base
    → vote.height ≡ vs.height
    → vote.round ≡ vs.round
    → vote.type_ ≡ vs.type_
    → get_vote vs vote.proposed vote.address ≡ some existing
    → add_known_vote vals vs vote
      ≡ done (
        vs,
        false,
        some (
            if bytes_equal existing.signature vote.signature
            then duplicate_vote
            else non_deterministic_signature),
      )
unfolding add_known_vote refusal
add_known_vote_again vals vs vote existing b h r t e =
    ground (arith, ==ℤ_iff vote.height vs.height, ==ℤ_iff vote.round vs.round)

pub get_vote-entry_of :
    (vs : VoteSet) (d : ProposedData) (a : PubKey)
    → get_vote vs d a ≡ lookup a (entry_of vs d).votes
unfolding get_vote
get_vote-entry_of vs d a = elim (Option-cases (lookup d vs.votes_by_proposed_data)) [
  | inl e ↦ rw (e, get_vote) (unfold lookup in refl)
  | inr (pd, e) ↦ rw (e, get_vote)
]

pub entry_of-next :
    (vals : Validators) (vs : VoteSet) (vote : Vote) (d : ProposedData)
    → entry_of (next vals vs vote) d ≡ (
        if vote.proposed == d
        then pd_add_vote (entry_of vs vote.proposed) vote (get_voting_power vals vote.address)
        else entry_of vs d)
unfolding add_verified_vote
entry_of-next vals vs vote d = ground (
  arith,
  lookup-insert vote.proposed d
      (pd_add_vote (entry_of vs vote.proposed) vote (get_voting_power vals vote.address))
      vs.votes_by_proposed_data,
)

pd_votes :
    (pd : ProposedDataVotes) (vote : Vote) (power : ℤ) (a : PubKey)
    → lookup vote.address pd.votes ≡ none
    → lookup a (pd_add_vote pd vote power).votes
      ≡ (if vote.address == a then some vote else lookup a pd.votes)
unfolding pd_add_vote
pd_votes pd vote power a new = ground (arith, lookup-insert vote.address a vote pd.votes)

-- An accepted vote is the one change to the ballots.
pub get_vote-next :
    (vals : Validators) (vs : VoteSet) (vote : Vote) (d : ProposedData) (a : PubKey)
    → get_vote vs vote.proposed vote.address ≡ none
    → get_vote (next vals vs vote) d a
      ≡ (if vote.proposed == d && vote.address == a then some vote else get_vote vs d a)
get_vote-next vals vs vote d a unseen =
    let power = get_voting_power vals vote.address in
    let new : lookup vote.address (entry_of vs vote.proposed).votes ≡ none =
      sym (get_vote-entry_of vs vote.proposed vote.address) ∙ unseen in
    rw
      (
        get_vote-entry_of (next vals vs vote) d a,
        entry_of-next vals vs vote d,
        get_vote-entry_of vs d a,
      )
      (elim (Bool-cases (vote.proposed == d)) [
        | inl hit ↦ rw (
          hit,
          pd_votes (entry_of vs vote.proposed) vote power a new,
          (==_iff vote.proposed d).0 hit,
        )
        | inr miss ↦ rw miss
      ])

-- `addVote` never panics. It takes exactly the votes on this base, at this height, round and type, with
-- a valid signature, whose voter is not yet recorded for that data, also if it is recorded for other
-- data; then it returns no error, the voter is recorded for that data with that vote, and every other
-- recorded vote stays. Every other vote it refuses with an error, and then the set is unchanged.
pub add_known_vote_result :
    (vals : Validators) (vs : VoteSet) (vote : Vote)
    → (IsAcceptable vals vs vote
        × (vs' : VoteSet) × (add_known_vote vals vs vote ≡ done (vs', true, none))
        × ((d : ProposedData) (a : PubKey)
            → get_vote vs' d a
              ≡ (if vote.proposed == d && vote.address == a then some vote else get_vote vs d a)))
      ⊎ ((e : VoteError) × (¬ IsAcceptable vals vs vote)
          × (add_known_vote vals vs vote ≡ done (vs, false, some e)))
add_known_vote_result vals vs vote = elim (add_known_vote_outcome vals vs vote) [
  | inl (ok, taken) ↦
      inl (ok, next vals vs vote, taken, λ d a. get_vote-next vals vs vote d a ok.unseen)
  | inr refused ↦ inr refused
]
