-- ===== src/Core/Runs.antt =====
-- What runs of a validator (bftcore.go) lead to.
use gobft.Base.{
  ℕ, ◌≡◌, refl, ◌∙◌, inl, inr, leb_ℤ, ◌==ℤ◌, not, ◌&&◌, Bool, true, false, is_some, Option, List,
  [], ◌∷◌, ◌==◌, Outcome, done, >>=-run, if◌then◌else◌, arith, Bool-cases,
}
use gobft.Message.{
  PubKey, Commit, FetchVotesRsp, ConsensusMessage, vote_msg, commit_msg, fetch_req_msg,
  fetch_rsp_msg, commit_height,
}
use gobft.Message.Validate.{validate_commit, validate_fetch_rsp}
use gobft.Core.State.{
  Core, Env, MsgInfo, TimeoutInfo, prevote_fetch, precommit_fetch, is_validator,
  send_internal_message,
}
use gobft.Core.Messages.{
  next_message, tock, handle_commit, handle_fetch_rsp, handle_msg, take_message, receive, recv_msg,
  handle_timeout,
}
use gobft.Core.Within.{IsSound}
use gobft.Core.Prevotes.{KeepsRound, kept-Stays}
use gobft.Core.Timeouts.{handle_timeout-Stays}
use gobft.Core.Requests.{handle_fetch-Stays}
use gobft.Core.Ballots.{
  Advances, AreCommittees, still, stayed-Advances, try_add_vote-Advances, try_add_votes-Advances,
  Advances-trans,
}
use gobft.Core.Inputs.{
  Input, act, at_time, run_inputs, marked, FitsCommit, FitsMsg, FitsTimeout, FitsQueue, FitsInput,
  FitsInputs, arrives, turns,
}

-- The clock alone changes.
at_time-IsSound :
    (env : Env) (members : List PubKey) (c : Core) (now : ℕ)
    → IsSound env members c
    → IsSound (at_time env now) members c
at_time-IsSound env members c now s = record {
  votes = s.votes;
  m = s.m;
  n = s.n;
  within = record {
    has_votes = s.within.has_votes;
    valid = s.within.valid;
    tracks = s.within.tracks;
    in_round = s.within.in_round;
    one_ahead = s.within.one_ahead;
    real_step = s.within.real_step;
    whole_lock = s.within.whole_lock;
  };
  no_polka = s.no_polka;
  counted = s.counted;
}

module _ (env : Env) (members_of : List Commit → List PubKey) where
  abbrev Ends : Core → Outcome Core → Type 0
  Ends c call = (c' : Core) × (call ≡ done c') × Advances env members_of c c'

  -- A call whose core differs in what the invariant does not read.
  after_change :
      {c : Core} (c' : Core) {call : Outcome Core}
      → IsSound env (members_of c.committed) c
      → KeepsRound c c'
      → (IsSound env (members_of c'.committed) c' → Ends c' call)
      → Ends c call
  after_change {c} c' s k ends =
      let first : Advances env members_of c c' = let st = kept-Stays s k in stayed-Advances st in
      let (c'', run, rest) = ends first.sound in (c'', run, Advances-trans first rest)

  if-Ends :
      {c : Core} (b : Bool) {call call' : Outcome Core}
      → (b ≡ true → Ends c call)
      → (b ≡ false → Ends c call')
      → Ends c (if b then call else call')
  if-Ends true yes_case no_case = yes_case refl
  if-Ends false yes_case no_case = no_case refl

  unchanged : {c : Core} → IsSound env (members_of c.committed) c → Ends c (done c)
  unchanged {c} s = (c, refl, still s)

  marked-KeepsRound : (c : Core) (commit : Commit) → KeepsRound c (marked c commit)
  marked-KeepsRound c commit = ground arith

  module _ (comms : AreCommittees env members_of) where
    handle_commit-Ends :
        {c : Core} (commit : Commit)
        → IsSound env (members_of c.committed) c
        → FitsCommit env c commit
        → Ends c (handle_commit env c commit)
    unfolding handle_commit
    handle_commit-Ends {c} commit s fits =
        if-Ends (is_some (validate_commit commit)) (λ e. unchanged s)
          λ e1.
            if-Ends (leb_ℤ c.height (commit_height commit))
              (λ e.
                after_change (marked c commit) s (marked-KeepsRound c commit)
                  λ s'. try_add_votes-Advances comms commit.precommits s' (fits e1 e))
              (λ e.
                let st = kept-Stays s (marked-KeepsRound c commit) in
                (marked c commit, refl, stayed-Advances st))

    handle_fetch_rsp-Ends :
        {c : Core} (rsp : FetchVotesRsp)
        → IsSound env (members_of c.committed) c
        → FitsMsg env c (fetch_rsp_msg rsp)
        → Ends c (handle_fetch_rsp env c rsp)
    unfolding handle_fetch_rsp
    handle_fetch_rsp-Ends {c} rsp s fits =
        if-Ends (not (c.height ==ℤ rsp.height && leb_ℤ c.round rsp.round)) (λ e. unchanged s)
          λ e1.
            if-Ends (not (c.step == prevote_fetch) && not (c.step == precommit_fetch))
              (λ e. unchanged s)
              λ e2.
                if-Ends (is_some (validate_fetch_rsp rsp)) (λ e. unchanged s)
                  λ e3.
                    try_add_votes-Advances comms rsp.missing_votes s (fits (ground (arith, e1)) e3)

    by_msg :
        {c : Core} (msg : ConsensusMessage) (peer : Option ℕ)
        → IsSound env (members_of c.committed) c
        → FitsMsg env c msg
        → Ends c (handle_msg env c (record { msg = msg; peer = peer }))
    unfolding handle_msg
    by_msg {c} (vote_msg v) peer s fits = elim (Bool-cases (is_validator env c)) [
      | inl e ↦ rw e (try_add_vote-Advances comms v s (fits e))
      | inr e ↦ rw e (unchanged s)
    ]
    by_msg (commit_msg commit) peer s fits = handle_commit-Ends commit s fits
    by_msg {c} (fetch_req_msg req) peer s fits =
        let (c', run, st) =
          handle_fetch-Stays env (members_of c.committed) s req peer fits.0 fits.1 in
        (c', run, stayed-Advances st)
    by_msg (fetch_rsp_msg rsp) peer s fits = handle_fetch_rsp-Ends rsp s fits

    take_message-Ends :
        {c : Core} (queue : List MsgInfo)
        → IsSound env (members_of c.committed) c
        → FitsQueue env c queue
        → Ends c (take_message env c queue)
    unfolding take_message
    take_message-Ends [] s fits = unchanged s
    take_message-Ends {c} (mi ∷ rest) s fits =
        after_change (record c { msg_queue = rest }) s
          (record {
            votes = refl;
            height = refl;
            round = refl;
            step = refl;
            committed = refl;
            whole = λ w. w;
          })
          λ s'. by_msg mi.msg mi.peer s' fits

    handle_timeout-Ends :
        {c : Core} (ti : TimeoutInfo)
        → IsSound env (members_of c.committed) c
        → FitsTimeout c ti
        → Ends c (handle_timeout env c ti)
    unfolding handle_timeout
    handle_timeout-Ends {c} ti s (inl old) = rw old (unchanged s)
    handle_timeout-Ends {c} ti s (inr (step, fits, due)) =
        let (k, at, le) = due s.n s.within.in_round in
        let (c', run, st) =
          handle_timeout-Stays env (members_of c.committed) c ti k s (fits s.n s.within.in_round)
            step at le in
        (c', run, stayed-Advances st)

    recv_msg-KeepsRound : (c : Core) (mi : MsgInfo) → KeepsRound c (recv_msg c mi).0
    unfolding recv_msg send_internal_message
    recv_msg-KeepsRound c mi = ground arith

    act-Ends :
        {c : Core} (input : Input)
        → IsSound env (members_of c.committed) c
        → FitsInput env c input
        → Ends c (act env c input)
    unfolding act receive
    act-Ends {c} (arrives mi) s fits =
        let st = kept-Stays s (recv_msg-KeepsRound c mi) in (_, refl, stayed-Advances st)
    act-Ends {c} (turns next_message) s fits = take_message-Ends c.msg_queue s fits
    act-Ends {c} (turns (tock ti)) s fits = handle_timeout-Ends ti s fits

-- A result under the clock of the moment.
at_time-Advances :
    (env : Env) (members_of : List Commit → List PubKey) (c c' : Core) (now : ℕ)
    → Advances (at_time env now) members_of c c'
    → Advances env members_of c c'
at_time-Advances env members_of c c' now a = record {
  sound = at_time-IsSound (at_time env now) (members_of c'.committed) c' env.now a.sound;
  forward = a.forward;
  decides = a.decides;
}

-- From a sound core, whatever messages arrive and whatever turns `receiveRoutine` takes, at any times,
-- there is no panic; and the core afterwards is sound, is not back at an earlier height, round or step,
-- and has decided heights in increasing order, each by one commit that `ValidateBasic` accepts. This
-- holds of committees as their interface documents them, whatever was committed, and of inputs that fit
-- the core that handles them: for a vote, the node has a key whose signatures are not empty, the
-- application, handed a commit, is at the core's height or a later one, and 64 bits hold the rounds that
-- the watermark lets in and the power recorded in the vote's set with the vote's; the votes of a commit
-- or a response that are added are such, none nil; a request for the core's height is for a round that
-- is not negative, and the application's commits hold no nil vote; and a timeout that is not ignored is
-- for a step that is timed, in a round that the core has entered, and 64 bits hold the round after the
-- next.
pub run_inputs-Advances :
    (env : Env) (members_of : List Commit → List PubKey) (inputs : List (ℕ × Input)) (c : Core)
    → AreCommittees env members_of
    → IsSound env (members_of c.committed) c
    → FitsInputs env c inputs
    → (c' : Core) × (run_inputs env c inputs ≡ done c') × Advances env members_of c c'
unfolding run_inputs
run_inputs-Advances env members_of [] c comms s fits = (c, refl, still s)
run_inputs-Advances env members_of ((now, input) ∷ inputs) c comms s fits =
    let (c1, run, a) =
      act-Ends (at_time env now) members_of comms input
        (at_time-IsSound env (members_of c.committed) c now s) fits.0 in
    let first = at_time-Advances env members_of c c1 now a in
    let (c2, runs, rest) =
      run_inputs-Advances env members_of inputs c1 comms first.sound (fits.1 c1 run) in
    (c2, >>=-run (act (at_time env now) c input) _ run ∙ runs, Advances-trans first rest)
