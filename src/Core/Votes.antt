-- ===== src/Core/Votes.antt =====
-- bftcore.go: what a vote does to the core.
use gobft.Base.{
  pos, ◌+ℤ◌, int64, ltb_ℤ, leb_ℤ, leb, ltb, Bool, false, ◌&&◌, ◌||◌, not, Option, none, some, ◌==◌,
  ◌==ℤ◌, if◌then◌else◌, is_some, Outcome, done, panic, deref, ◌>>=◌,
}
use gobft.Errors.{
  VoteError, height_mismatch, invalid_round, invalid_proposer, invalid_proposal_signature,
}
use gobft.Message.{ProposedData, nil_data, Vote, proposal_type, prevote_type, precommit_type}
use gobft.Committee.{verify_signature}
use gobft.Config.{watermark}
use gobft.VoteSet.{
  VoteSet, two_thirds_majority, has_two_thirds_majority, has_two_thirds_any, has_all, add_vote,
}
use gobft.HeightVoteSet.{HeightVoteSet, prevotes_of, precommits_of, hvs_add_vote}
use gobft.Core.State.{new_height, prevote_step, Core, Env, committee_of, validators_of}
use gobft.Core.Enter.{enter_new_round, enter_prevote, enter_prevote_wait}
use gobft.Core.Precommit.{enter_precommit, enter_precommit_wait, unlock, is_for}
use gobft.Core.Decide.{enter_commit}

-- A core, with the results `added` and `err`.
abbrev pub Added : Type 0
Added = Core × Bool × Option VoteError

-- `defaultSetProposal`; an unfit proposal is passed over with no error.
unfoldable pub default_set_proposal : Env → Core → Vote → Core × Option VoteError
default_set_proposal env c proposal =
    if is_some c.proposal
    then (c, none)
    else if not (proposal.height ==ℤ c.height) || not (proposal.round ==ℤ c.round)
    then (c, none)
    else if not (proposal.prev == c.last_committed_data)
    then (c, none)
    else if not ((committee_of env c).get_current_proposer c.round == proposal.address)
    then (c, some invalid_proposer)
    else if not (verify_signature (validators_of env c) proposal)
    then (c, some invalid_proposal_signature)
    else if (committee_of env c).validate_proposal proposal.proposed
    then (enter_prevote env (record c { proposal = some proposal }) c.height c.round, none)
    else (c, none)

-- A precommit for the previous height.
unfoldable pub add_last_precommit : Env → Core → Vote → VoteSet → Outcome Added
add_last_precommit env c vote last = do
  (last', added, err) ← add_vote (validators_of env c) (some last) (some vote)
  let c' = record c { last_commit = some last' }
  (if not added
      then done (c', added, err)
      else if env.cfg.skip_timeout_commit && has_all (validators_of env c) last'
      then enter_new_round env c' c'.height (pos 0) >>= (λ c''. done (c'', added, err))
      else done (c', added, err))

unfoldable pub add_straggler : Env → Core → Vote → Outcome Added
unfolding add_last_precommit
add_straggler env c vote = elim c.last_commit [
  | none ↦ done (c, false, some height_mismatch)
  | some last ↦
      if c.step == new_height && vote.type_ == precommit_type
      then add_last_precommit env c vote last
      else done (c, false, some height_mismatch)
]

-- A majority of prevotes for other data, from a round after the locked one, unlocks.
abbrev pub unlock_by_polka : Core → Vote → ProposedData → Core
unlock_by_polka c vote polka = elim c.locked_proposal [
  | none ↦ c
  | some locked ↦
      if ltb_ℤ c.locked_round vote.round && not (locked.proposed == polka) then unlock c else c
]

-- In the current round it drops a proposal of other data.
abbrev pub drop_proposal : Core → Vote → ProposedData → Core
drop_proposal c vote polka =
    if not (polka == nil_data)
      && (vote.round ==ℤ c.round && (is_some c.proposal && not (is_for c.proposal polka)))
    then record c { proposal = none }
    else c

unfoldable pub apply_polka : Core → Vote → ProposedData × Bool → Core
apply_polka c vote (polka, found) =
    if found then drop_proposal (unlock_by_polka c vote polka) vote polka else c

-- The transitions after an added prevote.
unfoldable pub after_prevote : Env → Core → Vote → Option VoteSet → Outcome Core
after_prevote env c vote prevotes =
    let any = has_two_thirds_any (validators_of env c) prevotes in
    if ltb_ℤ c.round vote.round && any
    then enter_new_round env c c.height vote.round
    else if c.round ==ℤ vote.round && leb prevote_step c.step
    then (if (two_thirds_majority prevotes).1
        then enter_precommit env c c.height vote.round
        else if any
        then enter_prevote_wait env c c.height vote.round
        else done c)
    else if ltb c.step prevote_step
    then (if is_some c.proposal then done (enter_prevote env c c.height c.round) else done c)
    else done c

unfoldable pub handle_prevote : Env → Core → Vote → HeightVoteSet → Outcome Core
unfolding apply_polka after_prevote
handle_prevote env c vote votes =
    let prevotes = prevotes_of votes vote.round in
    after_prevote env (apply_polka c vote (two_thirds_majority prevotes)) vote prevotes

-- A majority of precommits: the height is decided. `height` is the core's at the start.
unfoldable pub decide : Env → Core → Vote → VoteSet → Outcome Core
decide env c vote precommits = do
  c1 ← enter_new_round env c c.height vote.round
  c2 ← enter_precommit env c1 c.height vote.round
  c3 ← enter_commit env c2 c.height vote.round
  (if env.cfg.skip_timeout_commit && has_all (validators_of env c3) precommits
      then enter_new_round env c3 c3.height (pos 0)
      else done c3)

unfoldable pub wait_precommits : Env → Core → Vote → Outcome Core
wait_precommits env c vote = do
  c1 ← enter_new_round env c c.height vote.round
  enter_precommit_wait env c1 c.height vote.round

unfoldable pub handle_precommit : Env → Core → Vote → HeightVoteSet → Outcome Core
unfolding decide wait_precommits
handle_precommit env c vote votes = elim (precommits_of votes vote.round) [
  | none ↦ done c
  | some precommits ↦
      if has_two_thirds_majority (some precommits)
      then decide env c vote precommits
      else if leb_ℤ c.round vote.round && has_two_thirds_any (validators_of env c) (some precommits)
      then wait_precommits env c vote
      else done c
]

-- The `switch` over the type of an added vote.
unfoldable pub handle_added : Env → Core → Vote → HeightVoteSet → Outcome Core
unfolding handle_prevote handle_precommit
handle_added env c vote votes =
    if vote.type_ == prevote_type
    then handle_prevote env c vote votes
    else if vote.type_ == precommit_type
    then handle_precommit env c vote votes
    else panic

-- A prevote or a precommit for the current height.
unfoldable pub add_current : Env → Core → Vote → Outcome Added
unfolding handle_added
add_current env c vote = do
  votes ← deref c.votes
  (votes', added, err) ← hvs_add_vote (validators_of env c) votes vote
  let c' = record c { votes = some votes' }
  (if added
      then handle_added env c' vote votes' >>= (λ c''. done (c'', added, err))
      else done (c', added, err))

-- `Core.addVote`; a nil vote is a nil dereference.
unfoldable pub core_add_vote : Env → Core → Option Vote → Outcome Added
unfolding add_straggler default_set_proposal add_current
core_add_vote env c none = panic
core_add_vote env c (some vote) =
    if int64 (vote.height +ℤ pos 1) ==ℤ c.height
    then add_straggler env c vote
    else if not (vote.height ==ℤ c.height)
    then done (c, false, some height_mismatch)
    else if vote.type_ == proposal_type
    then (let (c', err) = default_set_proposal env c vote in done (c', false, err))
    else if ltb_ℤ (int64 (c.round +ℤ watermark)) vote.round || ltb_ℤ vote.round (pos 0)
    then done (c, false, some invalid_round)
    else add_current env c vote

-- The error is logged.
unfoldable pub try_add_vote : Env → Core → Option Vote → Outcome Core
unfolding core_add_vote
try_add_vote env c vote = core_add_vote env c vote >>= (λ result. done result.0)
