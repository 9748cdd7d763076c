-- ===== src/Core/Started.antt =====
-- `Start` (bftcore.go) of a new core, and what follows it.
use gobft.Base.{
  ℕ, ◌+◌, ◌<◌, ◌≡◌, refl, ap, ◌∙◌, subst, pos, negsuc, ◌+ℤ◌, int64, int64_add, true, false, none,
  some, List, [], done, arith,
}
use gobft.Message.{PubKey, Commit}
use gobft.Committee.{AppState}
use gobft.Config.{commit}
use gobft.HeightVoteSet.{HeightVoteSet, new_height_vote_set}
use gobft.Core.State.{Core, Env, new_height, update_round_step, schedule_timeout}
use gobft.Core.Decide.{last_precommits, move_to, update_to_app_state, schedule_round0}
use gobft.Core.Messages.{start_fresh, start, new_core}
use gobft.Core.NextHeight.{IsAtHeight, new_height_votes}
use gobft.Core.NextSound.{IsAtHeight-IsSound}
use gobft.Core.Within.{IsSound}
use gobft.Core.Ballots.{AreCommittees, Decides}
use gobft.Core.Inputs.{Input, FitsInputs, run_inputs}
use gobft.Core.Runs.{run_inputs-Advances}

-- The core that `updateToAppState` makes of a new one.
abbrev fresh_core : Env → AppState → HeightVoteSet → ℕ → Core
fresh_core env app votes n = record {
  height = pos (n + 1);
  round = pos 0;
  step = new_height;
  start_time = commit env.cfg (pos env.now);
  commit_time = 0;
  proposal = none;
  locked_round = negsuc 0;
  locked_proposal = none;
  votes = some votes;
  commit_round = negsuc 0;
  last_commit = none;
  last_committed_data = app.last_proposed_data;
  has_recv_commit_records = false;
  in_fetch = false;
  byzantine_prevote = none;
  msg_queue = [];
  started = false;
  effects = [];
  committed = [];
}

-- Then round 0 is scheduled.
abbrev started_core : Env → AppState → HeightVoteSet → ℕ → Core
unfolding schedule_round0
started_core env app votes n =
    record (schedule_round0 env
      (record (fresh_core env app votes n) { start_time = pos env.now +ℤ pos 1_000_000_000 })) {
        started = true;
      }

module _ (env : Env) (app : AppState) (n : ℕ) (state : (env.committee []).get_app_state ≡ some app)
    (last : app.last_height ≡ pos n) (fits : n < 9223372036854775807) where
  fresh_run :
      (votes : HeightVoteSet)
      → new_height_vote_set (pos (n + 1)) app.last_proposed_data ≡ done votes
      → move_to env (record new_core { votes = none }) app ≡ done (fresh_core env app votes n)
  unfolding move_to update_round_step last_precommits new_core
  fresh_run votes made =
      let height : int64 (app.last_height +ℤ pos 1) ≡ pos (n + 1) =
        ap (λ x. int64 (x +ℤ pos 1)) last ∙ int64_add n 1 (omega (arith, fits)) in
      simp (height, made)

  start_run :
      (votes : HeightVoteSet)
      → new_height_vote_set (pos (n + 1)) app.last_proposed_data ≡ done votes
      → start env new_core ≡ done (started_core env app votes n, true)
  unfolding start start_fresh update_to_app_state new_core
  start_run votes made = simp (state, fresh_run votes made)

  start-IsAtHeight :
      (c : Core) × (start env new_core ≡ done (c, true)) × IsAtHeight c n app × (c.committed ≡ [])
  unfolding schedule_round0 schedule_timeout started_core
  start-IsAtHeight =
      let (votes, made, h, b, t, new) = new_height_votes n app.last_proposed_data in
      (
        started_core env app votes n,
        start_run votes made,
        record {
          height = refl;
          round = refl;
          step = refl;
          no_proposal = refl;
          no_lock = refl;
          no_lock_round = refl;
          not_decided = refl;
          base = refl;
          votes = votes;
          is_votes = refl;
          votes_height = h;
          votes_base = b;
          tracks = t;
          is_fresh = new;
        },
        refl,
      )

-- A new core that is started does not panic, and neither does it whatever follows: messages that arrive,
-- and turns of `receiveRoutine`, in any order and at any times. Afterwards it is sound, and it has
-- decided heights in increasing order, none before the one after the application's, each by one commit
-- that `ValidateBasic` accepts. This holds of committees as their interface documents them, whatever was
-- committed, of an application that is at a height that 64 bits hold with the next one, and of inputs
-- that fit the core that handles them: for a vote, the node has a key whose signatures are not empty,
-- the application, handed a commit, is at the core's height or a later one, and 64 bits hold the rounds
-- that the watermark lets in and the power recorded in the vote's set with the vote's; the votes of a
-- commit or a response that are added are such, none nil; a request for the core's height is for a round
-- that is not negative, and the application's commits hold no nil vote; and a timeout that is not ignored
-- is for a step that is timed, in a round that the core has entered, and 64 bits hold the round after the
-- next.
pub start-Advances :
    (env : Env) (members_of : List Commit → List PubKey) (app : AppState) (n : ℕ)
    (inputs : List (ℕ × Input))
    → AreCommittees env members_of
    → (env.committee []).get_app_state ≡ some app
    → app.last_height ≡ pos n
    → n < 9223372036854775807
    → ((c : Core) → start env new_core ≡ done (c, true) → FitsInputs env c inputs)
    → (c : Core) × (c' : Core) × (start env new_core ≡ done (c, true))
      × (run_inputs env c inputs ≡ done c')
      × IsSound env (members_of c'.committed) c'
      × Decides (pos (n + 1)) [] c'.height c'.committed
start-Advances env members_of app n inputs comms state last small fits =
    let (c, run, at, none_yet) = start-IsAtHeight env app n state last small in
    let (c', runs, a) =
      run_inputs-Advances env members_of inputs c comms
        (IsAtHeight-IsSound env (members_of c.committed) c n app at) (fits c run) in
    (
      c,
      c',
      run,
      runs,
      a.sound,
      subst (λ h. Decides h [] c'.height c'.committed) at.height
          (subst (λ cs. Decides c.height cs c'.height c'.committed) none_yet a.decides),
    )
