-- ===== src/Core/Precommit.antt =====
-- bftcore.go: the transitions within a height from the precommit on, and the fetching of votes.
use gobft.Base.{
  ℤ, pos, negsuc, ◌==ℤ◌, leb_ℤ, Bool, true, false, Option, none, some, ◌==◌, if◌then◌else◌, Outcome,
  done, deref, sane, ◌>>=◌, ◌>>◌,
}
use gobft.Message.{ProposedData, nil_data, Vote, precommit_type, new_vote, fetch_req_msg}
use gobft.Committee.{sign_fetch_req}
use gobft.Config.{precommit, fetch_interval}
use gobft.VoteSet.{VoteSet, two_thirds_majority, has_two_thirds_any}
use gobft.VoteSet.Missing.{make_fetch_votes_req}
use gobft.HeightVoteSet.{prevotes_of, precommits_of, pol_info}
use gobft.Core.State.{
  RoundStepType, prevote_fetch, precommit_step, precommit_fetch, precommit_wait, Core, Env,
  validators_of, emit, send, update_round_step, schedule_timeout, sign_add_vote, is_behind,
}

abbrev pub unlock : Core → Core
unlock c = record c { locked_round = negsuc 0; locked_proposal = none }

-- Whether the core is locked on this data; a panic if it has a locked round and no locked proposal.
abbrev pub is_locked_on : Core → ProposedData → Outcome Bool
is_locked_on c polka =
    if leb_ℤ (pos 0) c.locked_round
    then deref c.locked_proposal >>= (λ locked. done (locked.proposed == polka))
    else done false

abbrev pub is_for : Option Vote → ProposedData → Bool
is_for none d = false
is_for (some v) d = v.proposed == d

-- What `enterPrecommit` does about a majority of prevotes for data that is not nil: the lock, and the
-- data to precommit.
unfoldable pub settle_polka : Core → ℤ → ProposedData → Outcome (Core × ProposedData)
settle_polka c round polka = is_locked_on c polka >>= λ relock. done (
    if relock
    then (record c { locked_round = round }, polka)
    else if is_for c.proposal polka
    then (record c { locked_round = round; locked_proposal = c.proposal }, polka)
    else (unlock c, nil_data))

-- The lock and the data to precommit, on each branch of `enterPrecommit`.
unfoldable pub precommit_choice : Core → ℤ → Outcome (Core × ProposedData)
unfolding settle_polka
precommit_choice c round = do
  votes ← deref c.votes
  let polka = two_thirds_majority (prevotes_of votes round)
  let settled =
      (sane ((pol_info votes).0 ==ℤ round)
        >> (if polka.0 == nil_data
            then done (elim c.locked_proposal [
              | none ↦ (c, nil_data)
              | some locked ↦ (unlock c, nil_data)
            ])
            else settle_polka c round polka.0))
  if polka.1 then settled else done (c, nil_data)

unfoldable pub enter_precommit_fetch : Core → ℤ → ℤ → Core
enter_precommit_fetch c height round =
    schedule_timeout (update_round_step c round precommit_fetch) fetch_interval height round
      precommit_fetch

-- The precommit is sent, and the deferred end of `enterPrecommit` follows.
unfoldable pub end_precommit : Env → ℤ → ℤ → Core × ProposedData → Core
unfolding enter_precommit_fetch
end_precommit env height round (c, data23) =
    let c' =
      (sign_add_vote env c
        (new_vote env.now precommit_type height round data23 c.last_committed_data)).0 in
    let c'' = update_round_step c' round precommit_step in
    enter_precommit_fetch c'' c''.height c''.round

unfoldable pub enter_precommit : Env → Core → ℤ → ℤ → Outcome Core
unfolding precommit_choice end_precommit
enter_precommit env c height round =
    if is_behind c height round precommit_step
    then done c
    else precommit_choice c round >>= (λ chosen. done (end_precommit env height round chosen))

unfoldable pub start_precommit_wait : Env → Core → ℤ → ℤ → Outcome Core
start_precommit_wait env c height round = do
  votes ← deref c.votes
  sane (has_two_thirds_any (validators_of env c) (precommits_of votes round))
  done (
      update_round_step (schedule_timeout c (precommit env.cfg round) height round precommit_wait)
        round precommit_wait)

unfoldable pub enter_precommit_wait : Env → Core → ℤ → ℤ → Outcome Core
unfolding start_precommit_wait
enter_precommit_wait env c height round =
    if is_behind c height round precommit_wait
    then done c
    else start_precommit_wait env c height round

-- A request for the votes of the step, and the timeout for the next one.
abbrev pub request_votes : Env → Core → Option VoteSet → RoundStepType → Outcome Core
request_votes env c found step = do
  vs ← deref found
  let req = sign_fetch_req (validators_of env c) (make_fetch_votes_req env.now vs)
  let c' =
      schedule_timeout (emit c (send (fetch_req_msg req) none)) fetch_interval c.height c.round step
  done (record c' { in_fetch = true })

unfoldable pub fetch_missing_votes : Env → Core → Outcome Core
fetch_missing_votes env c =
    if c.step == prevote_fetch
    then deref c.votes >>= (λ votes. request_votes env c (prevotes_of votes c.round) prevote_fetch)
    else if c.step == precommit_fetch
    then deref c.votes
      >>= (λ votes. request_votes env c (precommits_of votes c.round) precommit_fetch)
    else done c
