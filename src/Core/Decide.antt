-- ===== src/Core/Decide.antt =====
-- bftcore.go: the commit of a decision, and the step to the next height.
use gobft.Base.{
  ℤ, pos, negsuc, ◌+ℤ◌, ◌-ℤ◌, int64, ltb_ℤ, Bool, false, ◌&&◌, ◌||◌, not, leb, Option, none, some,
  ◌∷◌, ◌==◌, ◌==ℤ◌, if◌then◌else◌, Outcome, done, deref, sane, ◌>>=◌, ◌>>◌,
}
use gobft.Message.{ProposedData, Commit, commit_msg}
use gobft.Committee.{AppState, sign_commit}
use gobft.Config.{commit}
use gobft.VoteSet.{VoteSet, two_thirds_majority, has_two_thirds_majority, make_commit}
use gobft.HeightVoteSet.{precommits_of, new_height_vote_set}
use gobft.Core.State.{
  new_height, commit_step, Core, Env, committee_of, validators_of, emit, broadcast,
  update_round_step, schedule_timeout,
}

-- `Time.Sub` stops at the longest and the shortest duration.
unfoldable pub saturate : ℤ → ℤ
saturate d =
    if ltb_ℤ (pos 9223372036854775807) d
    then pos 9223372036854775807
    else if ltb_ℤ d (negsuc 9223372036854775807)
    then negsuc 9223372036854775807
    else d

-- `scheduleRound0` of the core's own round state.
unfoldable pub schedule_round0 : Env → Core → Core
unfolding saturate
schedule_round0 env c =
    let sleep = saturate (c.start_time -ℤ pos env.now) in
    schedule_timeout c (if ltb_ℤ sleep (pos 0) then pos 0 else sleep) c.height (pos 0) new_height

-- `lastPrecommits`: the precommits of the commit round, which must have a majority.
unfoldable pub last_precommits : Core → Outcome (Option VoteSet)
last_precommits c = elim c.votes [
  | none ↦ done none
  | some votes ↦
      if ltb_ℤ (negsuc 0) c.commit_round
      then sane (has_two_thirds_majority (precommits_of votes c.commit_round))
        >> done (precommits_of votes c.commit_round)
      else done none
]

-- The application must have moved on to the height that the core has decided.
abbrev pub app_lags : Core → AppState → Bool
app_lags c app =
    ltb_ℤ (negsuc 0) c.commit_round && (ltb_ℤ (pos 0) c.height && ltb_ℤ app.last_height c.height)

unfoldable pub move_to : Env → Core → AppState → Outcome Core
unfolding last_precommits
move_to env c app = do
  sane (not (app_lags c app))
  last ← last_precommits c
  let c' =
      update_round_step (record c { height = int64 (app.last_height +ℤ pos 1) }) (pos 0) new_height
  let start =
      (if c.commit_time == 0
        then commit env.cfg (pos env.now)
        else commit env.cfg (pos c.commit_time))
  votes ← new_height_vote_set c'.height app.last_proposed_data
  done (record c' {
    start_time = start;
    proposal = none;
    locked_round = negsuc 0;
    locked_proposal = none;
    commit_round = negsuc 0;
    last_commit = last;
    last_committed_data = app.last_proposed_data;
    votes = some votes;
  })

unfoldable pub update_to_app_state : Env → Core → Option AppState → Outcome Core
unfolding move_to
update_to_app_state env c none = done c
update_to_app_state env c (some app) = move_to env c app

-- The signed commit is broadcast unless commits were received, and handed to the application.
abbrev pub hand_over : Env → Core → Commit → Core
hand_over env c records =
    let signed = sign_commit (validators_of env c) records in
    let c' = if c.has_recv_commit_records then c else emit c (broadcast (commit_msg signed)) in
    record c' { committed = signed ∷ c'.committed }

unfoldable pub do_commit : Env → Core → ProposedData → Outcome Core
unfolding schedule_round0
do_commit env c data23 = do
  votes ← deref c.votes
  precommits ← deref (precommits_of votes c.commit_round)
  records ← make_commit precommits
  sane (data23 == records.proposed_data)
  let c1 = hand_over env c (record records { commit_time = c.commit_time })
  c2 ← update_to_app_state env c1 (committee_of env c1).get_app_state
  done (schedule_round0 env (record c2 { has_recv_commit_records = false }))

unfoldable pub start_commit : Env → Core → ℤ → Outcome Core
unfolding do_commit
start_commit env c commit_round = do
  votes ← deref c.votes
  let maj23 = two_thirds_majority (precommits_of votes commit_round)
  sane maj23.1
  let c' =
      update_round_step (record c { commit_round = commit_round; commit_time = env.now }) c.round
        commit_step
  do_commit env c' maj23.0

unfoldable pub enter_commit : Env → Core → ℤ → ℤ → Outcome Core
unfolding start_commit
enter_commit env c height commit_round =
    if not (c.height ==ℤ height) || leb commit_step c.step
    then done c
    else start_commit env c commit_round
