-- ===== src/Core/NextHeight.antt =====
-- `updateToAppState` (bftcore.go): the step to the next height.
use gobft.Base.{
  ◌≡◌, refl, ap, ◌∙◌, ℤ, pos, negsuc, ◌+ℤ◌, int64, int64_add, ltb_ℤ, leb_ℤ, true, false, none, some,
  [], ◌==◌, ℕ, ◌+◌, ◌≤◌, ◌<◌, if◌then◌else◌, done, arith, lookup, insert, suc, zero, int_key,
}
use gobft.Message.{ProposedData}
use gobft.Committee.{AppState}
use gobft.Config.{commit}
use gobft.VoteSet.{VoteSet, has_two_thirds_majority}
use gobft.HeightVoteSet.{RoundVoteSet, HeightVoteSet, precommits_of, new_height_vote_set}
use gobft.HeightVoteSet.Rounds.{with_round, add_round_lem}
use gobft.Core.State.{Core, Env, new_height, update_round_step}
use gobft.Core.Decide.{last_precommits, app_lags, move_to}
use gobft.HeightVoteSet.Tracking.{Tracks}

-- The application's state after the decision: it has moved on at least to this height.
pub record HasMovedOn (app : AppState) (height : ℤ) (n : ℕ) : Type 0 where
  pub last : app.last_height ≡ pos n
  pub at_least : leb_ℤ height (pos n) ≡ true
  pub fits : n < 9223372036854775807

-- Round 0 alone is there.
abbrev pub first_round : ℤ → ProposedData → HeightVoteSet
first_round height base =
    with_round (record { height = height; base = base; round = pos 0; round_vote_sets = [] })
      (pos 0)

-- The core at the start of the height n + 1.
pub record IsAtHeight (c : Core) (n : ℕ) (app : AppState) : Type 0 where
  pub height : c.height ≡ pos (n + 1)
  pub round : c.round ≡ pos 0
  pub step : c.step ≡ new_height
  pub no_proposal : c.proposal ≡ none
  pub no_lock : c.locked_proposal ≡ none
  pub no_lock_round : c.locked_round ≡ negsuc 0
  pub not_decided : c.commit_round ≡ negsuc 0
  pub base : c.last_committed_data ≡ app.last_proposed_data
  pub votes : HeightVoteSet
  pub is_votes : c.votes ≡ some votes
  pub votes_height : votes.height ≡ pos (n + 1)
  pub votes_base : votes.base ≡ app.last_proposed_data
  pub tracks : Tracks votes 0
  pub is_fresh : votes ≡ first_round votes.height votes.base

first_round-present :
    (height : ℤ) (base : ProposedData) (k : ℕ)
    → k ≤ 0
    → (rvs : RoundVoteSet) × (lookup (pos k) (first_round height base).round_vote_sets ≡ some rvs)
unfolding lookup insert
first_round-present height base zero le = (_, refl)
first_round-present height base (suc k) le = absurd (omega arith)

pub new_height_votes :
    (n : ℕ) (base : ProposedData)
    → (votes : HeightVoteSet) × (new_height_vote_set (pos (n + 1)) base ≡ done votes)
      × (votes.height ≡ pos (n + 1))
      × (votes.base ≡ base)
      × Tracks votes 0
      × (votes ≡ first_round votes.height votes.base)
unfolding new_height_vote_set lookup
new_height_votes n base = (
  first_round (pos (n + 1)) base,
  add_round_lem _ (pos 0) (λ e. ground arith) refl,
  refl,
  refl,
  record { at_round = refl; present = first_round-present (pos (n + 1)) base },
  refl,
)

not_lagging :
    (c : Core) (app : AppState) (n : ℕ) → HasMovedOn app c.height n → app_lags c app ≡ false
not_lagging c app n m = ground (arith, m.at_least, ap (λ x. ltb_ℤ x c.height) m.last)

-- The precommits of the commit round have a majority.
abbrev pub IsDecided : Core → HeightVoteSet → VoteSet → Type 0
IsDecided c votes vs =
    (c.votes ≡ some votes)
    × (precommits_of votes c.commit_round ≡ some vs)
    × (leb_ℤ (pos 0) c.commit_round ≡ true)
    × (has_two_thirds_majority (some vs) ≡ true)

pub last_precommits_lem :
    (c : Core) (votes : HeightVoteSet) (vs : VoteSet)
    → IsDecided c votes vs
    → last_precommits c ≡ done (some vs)
unfolding last_precommits
last_precommits_lem c votes vs (v, p, r, m) =
    let decided : ltb_ℤ (negsuc 0) c.commit_round ≡ true = ground arith in rw (v, decided, p, m)

-- The core that `updateToAppState` leaves.
abbrev moved : Env → Core → AppState → HeightVoteSet → VoteSet → ℕ → Core
moved env c app votes vs n = record c {
  height = pos (n + 1);
  round = pos 0;
  step = new_height;
  in_fetch = false;
  start_time =
      if c.commit_time == 0
      then commit env.cfg (pos env.now)
      else commit env.cfg (pos c.commit_time);
  proposal = none;
  locked_round = negsuc 0;
  locked_proposal = none;
  commit_round = negsuc 0;
  last_commit = some vs;
  last_committed_data = app.last_proposed_data;
  votes = some votes;
}

move_to_run :
    (env : Env) (c : Core) (app : AppState) (fresh : HeightVoteSet) (vs : VoteSet) (n : ℕ)
    → app_lags c app ≡ false
    → last_precommits c ≡ done (some vs)
    → int64 (app.last_height +ℤ pos 1) ≡ pos (n + 1)
    → new_height_vote_set (pos (n + 1)) app.last_proposed_data ≡ done fresh
    → move_to env c app ≡ done (moved env c app fresh vs n)
unfolding move_to update_round_step
move_to_run env c app fresh vs n lag last height made = simp (lag, last, height, made)

pub move_to_lem :
    (env : Env) (c : Core) (app : AppState) (votes : HeightVoteSet) (vs : VoteSet) (n : ℕ)
    → IsDecided c votes vs
    → HasMovedOn app c.height n
    → (c' : Core) × (move_to env c app ≡ done c')
      × IsAtHeight c' n app
      × (c'.last_commit ≡ some vs)
      × (c'.committed ≡ c.committed)
      × (c'.effects ≡ c.effects)
unfolding move_to update_round_step
move_to_lem env c app votes vs n d m =
    let (fresh, made, h, b, t, new) = new_height_votes n app.last_proposed_data in
    (
      moved env c app fresh vs n,
      move_to_run env c app fresh vs n (not_lagging c app n m) (last_precommits_lem c votes vs d)
          (ap (λ x. int64 (x +ℤ pos 1)) m.last ∙ int64_add n 1 (omega (arith, m.fits))) made,
      record {
        height = refl;
        round = refl;
        step = refl;
        no_proposal = refl;
        no_lock = refl;
        no_lock_round = refl;
        not_decided = refl;
        base = refl;
        votes = fresh;
        is_votes = refl;
        votes_height = h;
        votes_base = b;
        tracks = t;
        is_fresh = new;
      },
      refl,
      refl,
      refl,
    )
