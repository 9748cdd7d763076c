-- ===== src/StateSync.antt =====
-- state_sync.go: the votes of later heights, by which a core that fell behind catches up. `AddVote`
-- and its parts return the maps and the core. The core's votes are taken out of the map, and after
-- `updateState` the method reads the vote set through the pointer that it has, which no transition
-- changes. The log is left out.
pub mod Stale
use gobft.Base.{
  ℤ, pos, negsuc, ltb_ℤ, leb_ℤ, Bool, true, false, ◌&&◌, Option, none, some, List, [], ◌∷◌, ◌==◌,
  if◌then◌else◌, lookup, insert, erase, int_key, is_some, Outcome, done, panic, ◌>>=◌,
}
use gobft.Message.{ProposedData, Vote, prevote_type, precommit_type}
use gobft.VoteSet.{has_two_thirds_majority, has_two_thirds_any, has_all}
use gobft.HeightVoteSet.{
  HeightVoteSet, prevotes_of, precommits_of, new_height_vote_set, hvs_add_vote,
}
use gobft.Core.State.{RoundStepType, new_height, Core, Env, validators_of}
use gobft.Core.Enter.{enter_new_round, enter_prevote_wait}
use gobft.Core.Precommit.{enter_precommit, enter_precommit_wait, unlock}
use gobft.Core.Decide.{enter_commit}

pub record StateSync : Type 0 where
  pub height_votes : List (ℤ × HeightVoteSet)

abbrev pub new_state_sync : StateSync
new_state_sync = record { height_votes = [] }

-- The loop that deletes the heights up to the core's.
unfoldable pub prune : ℤ → List (ℤ × HeightVoteSet) → List (ℤ × HeightVoteSet)
prune height [] = []
prune height ((k, votes) ∷ rest) =
    if leb_ℤ k height then prune height rest else (k, votes) ∷ prune height rest

-- The votes of a height, made where the map has none.
unfoldable pub votes_by_height : ℤ → ProposedData → List (ℤ × HeightVoteSet) → Outcome HeightVoteSet
votes_by_height height base m = elim (lookup height m) [
  | some votes ↦ done votes
  | none ↦ new_height_vote_set height base
]

-- `updateState`: the core jumps to this height and round, with the votes that the map has for it.
unfoldable pub update_state : StateSync → Core → ℤ → ℤ → RoundStepType → StateSync × Core
update_state s c height round step = (
  record { height_votes = erase height s.height_votes },
  record c { height = height; round = round; step = step; votes = lookup height s.height_votes },
)

-- A majority of prevotes in a round after the locked one unlocks.
abbrev pub unlock_before : Core → ℤ → Core
unlock_before c round =
    if is_some c.locked_proposal && ltb_ℤ c.locked_round round then unlock c else c

unfoldable pub sync_prevote :
    Env → StateSync → Core → Vote → HeightVoteSet → Outcome (StateSync × Core)
unfolding update_state
sync_prevote env s c v votes =
    let prevotes = prevotes_of votes v.round in
    let (s', c1) = update_state s c v.height v.round new_height in
    if has_two_thirds_majority prevotes
    then (do
      c2 ← enter_new_round env c1 v.height v.round
      c3 ← enter_precommit env (unlock_before c2 v.round) v.height v.round
      done (s', c3))
    else if has_two_thirds_any (validators_of env c) prevotes
    then (do
      c2 ← enter_new_round env c1 v.height v.round
      c3 ← enter_prevote_wait env c2 v.height v.round
      done (s', c3))
    else done (s, c)

unfoldable pub sync_precommit :
    Env → StateSync → Core → Vote → HeightVoteSet → Outcome (StateSync × Core)
unfolding update_state
sync_precommit env s c v votes = elim (precommits_of votes v.round) [
  | none ↦ done (s, c)
  | some precommits ↦
      let (s', c1) = update_state s c v.height v.round new_height in
      if has_two_thirds_majority (some precommits)
      then (do
        c2 ← enter_new_round env c1 v.height v.round
        c3 ← enter_commit env c2 v.height v.round
        c4 ←
            (if env.cfg.skip_timeout_commit && has_all (validators_of env c3) precommits
              then enter_new_round env c3 v.height (pos 0)
              else done c3)
        done (s', c4))
      else if has_two_thirds_any (validators_of env c) (some precommits)
      then (do
        c2 ← enter_new_round env c1 v.height v.round
        c3 ← enter_precommit_wait env c2 v.height v.round
        done (s', c3))
      else done (s, c)
]

-- What follows an added vote, by its type.
unfoldable pub sync_added :
    Env → StateSync → Core → Vote → HeightVoteSet → Outcome (StateSync × Core)
unfolding sync_prevote sync_precommit
sync_added env s c v votes =
    if v.type_ == prevote_type
    then sync_prevote env s c v votes
    else if v.type_ == precommit_type
    then sync_precommit env s c v votes
    else done (s, c)

-- `StateSync.AddVote`; a nil vote is a nil dereference.
unfoldable pub sync_add_vote : Env → StateSync → Core → Option Vote → Outcome (StateSync × Core)
unfolding prune votes_by_height sync_added
sync_add_vote env s c none = panic
sync_add_vote env s c (some v) = do
  let kept = prune c.height s.height_votes
  votes ← votes_by_height v.height c.last_committed_data kept
  (votes', added, err) ← hvs_add_vote (validators_of env c) votes v
  let s' : StateSync = record { height_votes = insert v.height votes' kept }
  (if added then sync_added env s' c v votes' else done (s', c))
