-- ===== src/Committee.antt =====
-- custom/Ivalidator.go, message/app_state.go and validators.go: what the embedding program supplies,
-- as the answers that the committee and the private validator give, and the wrapper `Validators`
-- that the consensus code calls. What a committee is told (`BroadCast`, `Send`, `Commit`) is recorded
-- by its callers.
pub mod Signing
use gobft.Base.{ℕ, ℤ, pos, Bool, false, Option, none, some, List}
use gobft.Message.{PubKey, ProposedData, Vote, Commit, FetchVotesReq, FetchVotesRsp}
use gobft.Message.Digest.{Hashing, vote_digest, commit_digest, fetch_req_digest, fetch_rsp_digest}

-- message/app_state.go
pub record AppState : Type 0 where
  pub last_height : ℤ
  pub last_proposed_data : ProposedData
  pub last_commit_time : ℕ
  pub app_hash : List ℕ

-- IPubValidator
pub record PubValidator : Type 0 where
  pub verify_sig : List ℕ → List ℕ → Bool
  pub voting_power : ℤ

-- ICommittee
pub record Committee : Type 0 where
  pub get_validator : PubKey → Option PubValidator
  pub is_validator : PubKey → Bool
  pub total_voting_power : ℤ
  pub validator_num : ℤ
  pub get_current_proposer : ℤ → PubKey
  pub decides_proposal : ProposedData
  pub validate_proposal : ProposedData → Bool
  pub get_app_state : Option AppState
  pub get_commit_history : ℤ → Option Commit

-- IPrivValidator
pub record PrivValidator : Type 0 where
  pub pub_key : PubKey
  pub sign : List ℕ → List ℕ

pub record Validators : Type 0 where
  pub committee : Committee
  pub priv_val : PrivValidator
  pub hashing : Hashing

unfoldable pub get_self_pub_key : Validators → PubKey
get_self_pub_key v = v.priv_val.pub_key

-- `Sign` of a vote, a commit and the two fetch messages: the signer is set before the digest is
-- taken. `none` is the nil dereference in the digest of a response that holds a nil vote.
unfoldable pub sign_vote : Validators → Vote → Vote
sign_vote vals vote =
    let vote' = record vote { address = vals.priv_val.pub_key } in
    record vote' { signature = vals.priv_val.sign (vote_digest vals.hashing vote') }

unfoldable pub sign_commit : Validators → Commit → Commit
sign_commit vals commit =
    let commit' = record commit { address = vals.priv_val.pub_key } in
    record commit' { signature = vals.priv_val.sign (commit_digest vals.hashing commit') }

unfoldable pub sign_fetch_req : Validators → FetchVotesReq → FetchVotesReq
sign_fetch_req vals req =
    let req' = record req { invoker = vals.priv_val.pub_key } in
    record req' { signature = vals.priv_val.sign (fetch_req_digest vals.hashing req') }

unfoldable pub sign_fetch_rsp : Validators → FetchVotesRsp → Option FetchVotesRsp
sign_fetch_rsp vals rsp =
    let rsp' = record rsp { responser = vals.priv_val.pub_key } in
    elim (fetch_rsp_digest vals.hashing rsp') [
      | none ↦ none
      | some digest ↦ some (record rsp' { signature = vals.priv_val.sign digest })
    ]

unfoldable pub verify_signature : Validators → Vote → Bool
verify_signature vals vote = elim (vals.committee.get_validator vote.address) [
  | none ↦ false
  | some val ↦ val.verify_sig (vote_digest vals.hashing vote) vote.signature
]

unfoldable pub get_voting_power : Validators → PubKey → ℤ
get_voting_power vals address = elim (vals.committee.get_validator address) [
  | none ↦ pos 0
  | some val ↦ val.voting_power
]

unfoldable pub get_total_voting_power : Validators → ℤ
get_total_voting_power vals = vals.committee.total_voting_power

unfoldable pub get_validator_num : Validators → ℤ
get_validator_num vals = vals.committee.validator_num
