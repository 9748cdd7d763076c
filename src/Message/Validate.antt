-- ===== src/Message/Validate.antt =====
-- message/message.go: the `ValidateBasic` methods. `none` is a nil error.
use gobft.Base.{
  ℕ, ℤ, pos, Bool, true, ◌&&◌, not, Option, none, some, List, [], ◌∷◌, ◌==◌, ◌==ℤ◌, ltb_ℤ, ltb,
  if◌then◌else◌, length, lookup, insert, nat_key, is_some, is_empty,
}
use gobft.Message.{
  PubKey, nil_data, precommit_type, prevote_type, is_vote_type_valid, Vote, Commit, FetchVotesReq,
  FetchVotesRsp, ConsensusMessage, vote_msg, commit_msg, fetch_req_msg, fetch_rsp_msg,
  commit_height, commit_round,
}

pub data Invalid : Type 0 where
  invalid_type negative_height negative_round missing_address missing_signature : Invalid
  nil_block no_precommits not_precommit wrong_height wrong_round wrong_prev wrong_proposed : Invalid
  duplicated_precommit : Invalid
  empty_invoker empty_responser list_too_long : Invalid

-- common/constants.go
abbrev pub val_num : ℕ
val_num = 21

unfoldable pub validate_vote : Vote → Option Invalid
unfolding is_vote_type_valid
validate_vote v =
    if not (is_vote_type_valid v.type_)
    then some invalid_type
    else if ltb_ℤ v.height (pos 0)
    then some negative_height
    else if ltb_ℤ v.round (pos 0)
    then some negative_round
    else if v.address == 0
    then some missing_address
    else if is_empty v.signature
    then some missing_signature
    else none

-- The checks of one precommit that look at no other.
unfoldable pub check_precommit : Commit → ℤ → ℤ → Vote → Option Invalid
check_precommit commit height round v =
    if not (v.type_ == precommit_type)
    then some not_precommit
    else if not (v.height ==ℤ height)
    then some wrong_height
    else if not (v.round ==ℤ round)
    then some wrong_round
    else if not (v.prev == commit.prev)
    then some wrong_prev
    else if not (v.proposed == commit.proposed_data)
    then some wrong_proposed
    else none

-- The loop over the precommits, with its `cache` of the addresses seen.
unfoldable pub check_precommits :
    Commit → ℤ → ℤ → List (PubKey × Bool) → List (Option Vote) → Option Invalid
unfolding check_precommit
check_precommits commit height round cache [] = none
check_precommits commit height round cache (none ∷ vs) =
    check_precommits commit height round cache vs
check_precommits commit height round cache (some v ∷ vs) =
    let rest = check_precommits commit height round (insert v.address true cache) vs in
    elim (check_precommit commit height round v) [
      | some e ↦ some e
      | none ↦ if is_some (lookup v.address cache) then some duplicated_precommit else rest
    ]

unfoldable pub validate_commit : Commit → Option Invalid
unfolding check_precommits commit_height commit_round
validate_commit commit =
    if commit.proposed_data == nil_data
    then some nil_block
    else if is_empty commit.precommits
    then some no_precommits
    else elim (check_precommits commit (commit_height commit) (commit_round commit) []
        commit.precommits) [
          | some e ↦ some e
          | none ↦
              if commit.address == 0
              then some missing_address
              else if is_empty commit.signature
              then some missing_signature
              else none
        ]

unfoldable pub validate_fetch_req : FetchVotesReq → Option Invalid
validate_fetch_req req =
    if not (req.type_ == prevote_type) && not (req.type_ == precommit_type)
    then some invalid_type
    else if req.invoker == 0
    then some empty_invoker
    else if ltb val_num (length req.voters)
    then some list_too_long
    else if is_empty req.signature
    then some missing_signature
    else none

unfoldable pub validate_fetch_rsp : FetchVotesRsp → Option Invalid
validate_fetch_rsp rsp =
    if not (rsp.type_ == prevote_type) && not (rsp.type_ == precommit_type)
    then some invalid_type
    else if rsp.responser == 0
    then some empty_responser
    else if ltb val_num (length rsp.missing_votes)
    then some list_too_long
    else if is_empty rsp.signature
    then some missing_signature
    else none

-- The method call `msg.ValidateBasic()`.
unfoldable pub validate_basic : ConsensusMessage → Option Invalid
validate_basic (vote_msg v) = validate_vote v
validate_basic (commit_msg commit) = validate_commit commit
validate_basic (fetch_req_msg req) = validate_fetch_req req
validate_basic (fetch_rsp_msg rsp) = validate_fetch_rsp rsp
