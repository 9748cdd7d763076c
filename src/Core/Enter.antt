-- ===== src/Core/Enter.antt =====
-- bftcore.go: the transitions within a height, up to the wait for prevotes.
use gobft.Base.{
  ℤ, pos, negsuc, ◌+ℤ◌, int64, ◌==ℤ◌, ltb_ℤ, leb_ℤ, Bool, ◌&&◌, ◌||◌, not, none, some, ◌==◌,
  if◌then◌else◌, is_some, Option, Outcome, done, deref, sane, ◌>>=◌, ◌>>◌,
}
use gobft.Message.{ProposedData, nil_data, proposal_type, prevote_type, new_vote}
use gobft.Committee.{get_self_pub_key}
use gobft.Config.{propose, prevote, fetch_interval}
use gobft.VoteSet.{has_two_thirds_any}
use gobft.HeightVoteSet.{set_round, prevotes_of}
use gobft.Core.State.{
  new_height, new_round, propose_step, prevote_step, prevote_fetch, prevote_wait, Core, Env,
  committee_of, validators_of, update_round_step, schedule_timeout, sign_add_vote, is_behind,
}

-- The data that `doPrevote` votes for, when no byzantine prevote is set.
unfoldable pub prevote_choice : Env → Core → ProposedData
prevote_choice env c =
    let unlocked : ProposedData = elim c.proposal [
      | none ↦ nil_data
      | some proposal ↦
          if (committee_of env c).validate_proposal proposal.proposed
          then proposal.proposed
          else nil_data
    ] in
    elim c.locked_proposal [
      | none ↦ unlocked
      | some locked ↦ if leb_ℤ (pos 0) c.locked_round then locked.proposed else unlocked
    ]

-- `setByzantinePrevote`, which only tests call.
abbrev pub set_byzantine_prevote : Core → Option ProposedData → Core
set_byzantine_prevote c d = record c { byzantine_prevote = d }

unfoldable pub prevote_data : Env → Core → ProposedData
unfolding prevote_choice
prevote_data env c = elim c.byzantine_prevote [
  | none ↦ prevote_choice env c
  | some d ↦ if d == nil_data then prevote_choice env c else d
]

unfoldable pub do_prevote : Env → Core → Core
unfolding prevote_data
do_prevote env c =
    (sign_add_vote env c
      (new_vote env.now prevote_type c.height c.round (prevote_data env c) c.last_committed_data)).0

unfoldable pub enter_prevote_fetch : Core → ℤ → ℤ → Core
enter_prevote_fetch c height round =
    schedule_timeout (update_round_step c round prevote_fetch) fetch_interval height round
      prevote_fetch

unfoldable pub enter_prevote : Env → Core → ℤ → ℤ → Core
unfolding enter_prevote_fetch do_prevote
enter_prevote env c height round =
    if is_behind c height round prevote_step
    then c
    else enter_prevote_fetch (update_round_step (do_prevote env c) round prevote_step) height round

-- The proposal that `doPropose` makes.
unfoldable pub proposal_data : Env → Core → ProposedData
proposal_data env c = elim c.locked_proposal [
  | none ↦ (committee_of env c).decides_proposal
  | some locked ↦
      if ltb_ℤ (negsuc 0) c.locked_round
      then locked.proposed
      else (committee_of env c).decides_proposal
]

unfoldable pub do_propose : Env → Core → ℤ → ℤ → Core
unfolding proposal_data
do_propose env c height round =
    let (c', proposal) =
      sign_add_vote env c
        (new_vote env.now proposal_type height round (proposal_data env c) c.last_committed_data) in
    record c' { proposal = some proposal }

unfoldable pub is_ready_to_prevote : Core → Bool
is_ready_to_prevote c = is_some c.proposal || leb_ℤ (pos 0) c.locked_round

-- The deferred end of `enterPropose`.
unfoldable pub end_propose : Env → Core → ℤ → ℤ → Core
unfolding is_ready_to_prevote
end_propose env c height round =
    let c' = update_round_step c round propose_step in
    if is_ready_to_prevote c' then enter_prevote env c' height c'.round else c'

unfoldable pub enter_propose : Env → Core → ℤ → ℤ → Core
unfolding end_propose do_propose get_self_pub_key
enter_propose env c height round =
    let self = get_self_pub_key (validators_of env c) in
    let c' = schedule_timeout c (propose env.cfg round) height round propose_step in
    if is_behind c height round propose_step
    then c
    else if not ((committee_of env c).is_validator self)
    then end_propose env c' height round
    else if (committee_of env c).get_current_proposer c.round == self
    then end_propose env (do_propose env c' height round) height round
    else end_propose env c' height round

-- The guard of `enterNewRound` lets the current round pass at the step of a new height only.
abbrev pub is_stale_round : Core → ℤ → ℤ → Bool
is_stale_round c height round =
    not (c.height ==ℤ height)
    || ltb_ℤ round c.round
    || (c.round ==ℤ round && not (c.step == new_height))

-- The state in which `enterNewRound` goes on, but for the votes.
abbrev pub reset_round : Core → ℤ → Core
reset_round c round =
    let c' = update_round_step c round new_round in
    if round ==ℤ pos 0 then c' else record c' { proposal = none }

unfoldable pub advance_round : Env → Core → ℤ → ℤ → Outcome Core
advance_round env c height round = do
  votes ← deref c.votes
  votes' ← set_round votes (int64 (round +ℤ pos 1))
  done (enter_propose env (record (reset_round c round) { votes = some votes' }) height round)

unfoldable pub enter_new_round : Env → Core → ℤ → ℤ → Outcome Core
unfolding advance_round
enter_new_round env c height round =
    if is_stale_round c height round then done c else advance_round env c height round

unfoldable pub start_prevote_wait : Env → Core → ℤ → ℤ → Outcome Core
start_prevote_wait env c height round = do
  votes ← deref c.votes
  sane (has_two_thirds_any (validators_of env c) (prevotes_of votes round))
  done (
      update_round_step (schedule_timeout c (prevote env.cfg round) height round prevote_wait) round
        prevote_wait)

unfoldable pub enter_prevote_wait : Env → Core → ℤ → ℤ → Outcome Core
unfolding start_prevote_wait
enter_prevote_wait env c height round =
    if is_behind c height round prevote_wait then done c else start_prevote_wait env c height round
