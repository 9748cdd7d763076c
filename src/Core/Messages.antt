-- ===== src/Core/Messages.antt =====
-- bftcore.go: the handlers, and the calls by which the embedding program starts, stops and feeds the
-- core. `receiveRoutine` is `receive`, one turn of its loop. A panic ends the program.
use gobft.Base.{
  ℕ, pos, ◌+ℤ◌, int64, ltb_ℤ, leb_ℤ, Bool, true, false, ◌&&◌, ◌||◌, not, Option, none, some, List,
  [], ◌∷◌, ◌==◌, ltb, ◌==ℤ◌, if◌then◌else◌, is_some, Outcome, done, panic, deref, ◌>>=◌,
}
use gobft.Message.{
  Vote, Commit, FetchVotesReq, FetchVotesRsp, vote_msg, commit_msg, fetch_req_msg, fetch_rsp_msg,
  prevote_type, precommit_type, commit_height,
}
use gobft.Message.Validate.{validate_basic, validate_commit, validate_fetch_req, validate_fetch_rsp}
use gobft.Committee.{sign_fetch_rsp}
use gobft.VoteSet.{VoteSet, make_commit}
use gobft.VoteSet.Missing.{make_fetch_votes_rsp}
use gobft.HeightVoteSet.{HeightVoteSet, prevotes_of, precommits_of}
use gobft.Core.State.{
  new_height, new_round, propose_step, prevote_fetch, prevote_wait, precommit_fetch, precommit_wait,
  MsgInfo, TimeoutInfo, Core, Env, committee_of, validators_of, emit, send, send_internal_message,
  is_validator,
}
use gobft.Core.Enter.{enter_new_round, enter_propose, enter_prevote}
use gobft.Core.Precommit.{enter_precommit, fetch_missing_votes}
use gobft.Core.Decide.{update_to_app_state, schedule_round0}
use gobft.Core.Votes.{try_add_vote}

-- The loops over the votes of a commit and of a response.
unfoldable pub try_add_votes : Env → Core → List (Option Vote) → Outcome Core
try_add_votes env c [] = done c
try_add_votes env c (v ∷ vs) = try_add_vote env c v >>= (λ c'. try_add_votes env c' vs)

unfoldable pub handle_commit : Env → Core → Commit → Outcome Core
unfolding try_add_votes
handle_commit env c commit =
    let c' =
      if commit_height commit ==ℤ c.height
      then record c { has_recv_commit_records = true }
      else c in
    if is_some (validate_commit commit)
    then done c
    else if leb_ℤ c.height (commit_height commit)
    then try_add_votes env c' commit.precommits
    else done c'

-- The response is signed, which reads every vote in it, and sent.
unfoldable pub send_response : Env → Core → FetchVotesRsp → Option ℕ → Outcome Core
send_response env c rsp peer = elim (sign_fetch_rsp (validators_of env c) rsp) [
  | none ↦ panic
  | some signed ↦ done (emit c (send (fetch_rsp_msg signed) peer))
]

abbrev pub respond_from : Env → Core → FetchVotesReq → Option ℕ → Option VoteSet → Outcome Core
respond_from env c req peer found = do
  vs ← deref found
  send_response env c (make_fetch_votes_rsp env.now vs req) peer

-- A request for a height that is decided is answered from the application's history.
abbrev pub respond_history : Env → Core → FetchVotesReq → Option ℕ → Option Commit → Outcome Core
respond_history env c req peer none = done c
respond_history env c req peer (some commit) =
    send_response env c
      (record {
        type_ = precommit_type;
        height = req.height;
        round = req.round;
        responser = 0;
        missing_votes = commit.precommits;
        time = 0;
        signature = [];
      })
      peer

abbrev pub respond_current : Env → Core → FetchVotesReq → Option ℕ → HeightVoteSet → Outcome Core
respond_current env c req peer votes =
    if req.type_ == prevote_type
    then respond_from env c req peer (prevotes_of votes req.round)
    else if req.type_ == precommit_type
    then respond_from env c req peer (precommits_of votes req.round)
    else done c

unfoldable pub handle_fetch : Env → Core → FetchVotesReq → Option ℕ → Outcome Core
unfolding send_response
handle_fetch env c req peer =
    if is_some (validate_fetch_req req)
    then done c
    else if ltb_ℤ req.height c.height
    then respond_history env c req peer ((committee_of env c).get_commit_history req.height)
    else if req.height ==ℤ c.height && leb_ℤ req.round c.round
    then (deref c.votes >>= respond_current env c req peer)
    else done c

unfoldable pub handle_fetch_rsp : Env → Core → FetchVotesRsp → Outcome Core
unfolding try_add_votes
handle_fetch_rsp env c rsp =
    if not (c.height ==ℤ rsp.height && leb_ℤ c.round rsp.round)
    then done c
    else if not (c.step == prevote_fetch) && not (c.step == precommit_fetch)
    then done c
    else if is_some (validate_fetch_rsp rsp)
    then done c
    else try_add_votes env c rsp.missing_votes

unfoldable pub handle_msg : Env → Core → MsgInfo → Outcome Core
unfolding handle_commit handle_fetch handle_fetch_rsp
handle_msg env c mi = elim mi.msg [
  | vote_msg v ↦ if not (is_validator env c) then done c else try_add_vote env c (some v)
  | commit_msg commit ↦ handle_commit env c commit
  | fetch_req_msg req ↦ handle_fetch env c req mi.peer
  | fetch_rsp_msg rsp ↦ handle_fetch_rsp env c rsp
]

-- A timeout of an earlier height, round or step is ignored.
abbrev pub is_old : Core → TimeoutInfo → Bool
is_old c ti =
    not (ti.height ==ℤ c.height)
    || ltb_ℤ ti.round c.round
    || (ti.round ==ℤ c.round && ltb ti.step c.step)

-- The `switch` over the step that timed out.
unfoldable pub on_timeout : Env → Core → TimeoutInfo → Outcome Core
on_timeout env c ti =
    if ti.step == new_height
    then enter_new_round env c ti.height (pos 0)
    else if ti.step == new_round
    then done (enter_propose env c ti.height (pos 0))
    else if ti.step == propose_step
    then done (enter_prevote env c ti.height ti.round)
    else if ti.step == prevote_fetch
    then fetch_missing_votes env c
    else if ti.step == prevote_wait
    then enter_precommit env c ti.height ti.round
    else if ti.step == precommit_fetch
    then fetch_missing_votes env c
    else if ti.step == precommit_wait
    then (enter_precommit env c ti.height ti.round
        >>= (λ c'. enter_new_round env c' ti.height (int64 (ti.round +ℤ pos 1))))
    else panic

unfoldable pub handle_timeout : Env → Core → TimeoutInfo → Outcome Core
unfolding on_timeout
handle_timeout env c ti = if is_old c ti then done c else on_timeout env c ti

-- What the loop of `receiveRoutine` selects: a message of the queue, or a timeout.
pub data Event : Type 0 where
  next_message : Event
  tock : TimeoutInfo → Event

unfoldable pub take_message : Env → Core → List MsgInfo → Outcome Core
unfolding handle_msg
take_message env c [] = done c
take_message env c (mi ∷ rest) = handle_msg env (record c { msg_queue = rest }) mi

-- One turn of `receiveRoutine`; with nothing queued a turn for a message does nothing.
unfoldable pub receive : Env → Core → Event → Outcome Core
unfolding take_message
receive env c next_message = take_message env c c.msg_queue
receive env c (tock ti) = handle_timeout env c ti

-- `RecvMsg`: whether the message was accepted.
unfoldable pub recv_msg : Core → MsgInfo → Core × Bool
recv_msg c mi =
    if not c.started
    then (c, false)
    else if is_some (validate_basic mi.msg)
    then (c, false)
    else (send_internal_message c mi, true)

unfoldable pub start_fresh : Env → Core → Outcome Core
unfolding schedule_round0
start_fresh env c = do
  c' ← update_to_app_state env (record c { votes = none }) (committee_of env c).get_app_state
  let c'' = record c' { start_time = pos env.now +ℤ pos 1_000_000_000 }
  done (record (schedule_round0 env c'') { started = true })

-- `Start` and `Stop`: whether the call was accepted.
unfoldable pub start : Env → Core → Outcome (Core × Bool)
unfolding start_fresh
start env c = if c.started then done (c, false) else start_fresh env c >>= (λ c'. done (c', true))

unfoldable pub stop : Core → Core × Bool
stop c = if c.started then (record c { started = false }, true) else (c, false)

-- `GetLastCommit`
unfoldable pub get_last_commit : Core → Outcome Commit
get_last_commit c = deref c.last_commit >>= make_commit

-- `NewCore`, before a logger is set: Go's zero values.
unfoldable pub new_core : Core
new_core = record {
  height = pos 0;
  round = pos 0;
  step = 0;
  start_time = pos 0;
  commit_time = 0;
  proposal = none;
  locked_round = pos 0;
  locked_proposal = none;
  votes = none;
  commit_round = pos 0;
  last_commit = none;
  last_committed_data = 0;
  has_recv_commit_records = false;
  in_fetch = false;
  byzantine_prevote = none;
  msg_queue = [];
  started = false;
  effects = [];
  committed = [];
}
