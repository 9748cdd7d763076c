-- ===== src/Core.antt =====
-- bftcore.go and state.go: the consensus state machine of one validator. `Core/State` has the state,
-- `Core/Enter` and `Core/Precommit` the transitions within a height, `Core/Decide` the step to the
-- next height, `Core/Votes` what a vote does, and `Core/Messages` the handlers.
pub mod State
pub mod Enter
pub mod Precommit
pub mod Decide
pub mod Votes
pub mod Messages
pub mod Frames
pub mod Locks
pub mod Voting
pub mod Precommitting
pub mod Polka
pub mod Proposals
pub mod Rounds
pub mod NewRound
pub mod NextHeight
pub mod Decision
pub mod Crashes
pub mod Within
pub mod Transitions
pub mod NextRound
pub mod Returning
pub mod Timeouts
pub mod Prevotes
pub mod NextSound
pub mod Reaching
pub mod Precommits
pub mod Adding
pub mod Soundness
pub mod Ballots
pub mod Requests
pub mod Inputs
pub mod Runs
pub mod Started
pub mod Once
pub mod AfterPrevote
pub mod LockFate
pub mod Unlocking
pub mod Progress
