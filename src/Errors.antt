-- ===== src/Errors.antt =====
-- errors.go, and the errors that vote_set.go, height_vote_set.go and bftcore.go make in place: what
-- adding a vote can return. A wrapped error is the error that it wraps. Errors that nothing returns
-- are left out.
pub data VoteError : Type 0 where
  vote_nil mismatched_base unexpected_step duplicate_vote : VoteError
  non_deterministic_signature invalid_signature conflicting_vote : VoteError
  invalid_vote_type height_mismatch invalid_round : VoteError
  invalid_proposer invalid_proposal_signature : VoteError
