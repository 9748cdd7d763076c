-- ===== src/Core/Inputs.antt =====
-- Runs of a validator (bftcore.go): messages that arrive, turns of `receiveRoutine`, and which of them
-- fit the core.
use gobft.Base.{
  ℕ, ◌≤◌, ◌<◌, ◌≡◌, ◌⊎◌, pos, leb_ℤ, ◌==ℤ◌, ◌&&◌, true, false, is_some, List, [], ◌∷◌, Outcome,
  done, ◌>>=◌, if◌then◌else◌,
}
use gobft.Message.{
  Commit, ConsensusMessage, vote_msg, commit_msg, fetch_req_msg, fetch_rsp_msg, commit_height,
}
use gobft.Message.Validate.{validate_commit, validate_fetch_rsp}
use gobft.Core.State.{Core, Env, MsgInfo, TimeoutInfo, is_validator}
use gobft.Core.Messages.{Event, next_message, tock, receive, recv_msg, is_old}
use gobft.Core.Timeouts.{IsTimeoutStep}
use gobft.Core.Requests.{HasWholeHistory}
use gobft.Core.Ballots.{FitsVote, FitsVotes}

-- A message from a peer, and what `receiveRoutine` selects.
pub data Input : Type 0 where
  arrives : MsgInfo → Input
  turns : Event → Input

-- One input; the core's environment has the clock of that moment.
unfoldable pub act : Env → Core → Input → Outcome Core
unfolding recv_msg receive
act env c (arrives mi) = done (recv_msg c mi).0
act env c (turns event) = receive env c event

abbrev pub at_time : Env → ℕ → Env
at_time env now = record env { now = now }

-- Inputs with the times at which they are handled.
unfoldable pub run_inputs : Env → Core → List (ℕ × Input) → Outcome Core
unfolding act
run_inputs env c [] = done c
run_inputs env c ((now, input) ∷ inputs) =
    act (at_time env now) c input >>= (λ c'. run_inputs env c' inputs)

-- A commit for the core's height is noted.
abbrev pub marked : Core → Commit → Core
marked c commit =
    if commit_height commit ==ℤ c.height then record c { has_recv_commit_records = true } else c

abbrev pub FitsCommit : Env → Core → Commit → Type 0
FitsCommit env c commit =
    is_some (validate_commit commit) ≡ false
    → leb_ℤ c.height (commit_height commit) ≡ true
    → FitsVotes env (marked c commit) commit.precommits

abbrev pub FitsMsg : Env → Core → ConsensusMessage → Type 0
FitsMsg env c (vote_msg v) = is_validator env c ≡ true → FitsVote env c v
FitsMsg env c (commit_msg commit) = FitsCommit env c commit
FitsMsg env c (fetch_req_msg req) =
    ((req.height ==ℤ c.height) ≡ true → leb_ℤ (pos 0) req.round ≡ true) × HasWholeHistory env c
FitsMsg env c (fetch_rsp_msg rsp) =
    (c.height ==ℤ rsp.height && leb_ℤ c.round rsp.round) ≡ true
    → is_some (validate_fetch_rsp rsp) ≡ false
    → FitsVotes env c rsp.missing_votes

-- A timeout that is ignored, or of a round that the core has entered.
abbrev pub FitsTimeout : Core → TimeoutInfo → Type 0
FitsTimeout c ti =
    (is_old c ti ≡ true)
    ⊎ (IsTimeoutStep ti.step
        × ((n : ℕ) → c.round ≡ pos n → n < 9223372036854775805)
        × ((n : ℕ) → c.round ≡ pos n → (k : ℕ) × (ti.round ≡ pos k) × (k ≤ n)))

abbrev pub FitsQueue : Env → Core → List MsgInfo → Type 0
FitsQueue env c [] = Unit
FitsQueue env c (mi ∷ rest) = FitsMsg env (record c { msg_queue = rest }) mi.msg

abbrev pub FitsInput : Env → Core → Input → Type 0
FitsInput env c (arrives mi) = Unit
FitsInput env c (turns next_message) = FitsQueue env c c.msg_queue
FitsInput env c (turns (tock ti)) = FitsTimeout c ti

-- Each input fits the core that it finds.
abbrev pub FitsInputs : Env → Core → List (ℕ × Input) → Type 0
FitsInputs env c [] = Unit
FitsInputs env c ((now, input) ∷ inputs) =
    FitsInput (at_time env now) c input
    × ((c' : Core) → act (at_time env now) c input ≡ done c' → FitsInputs env c' inputs)
