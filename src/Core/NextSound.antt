-- ===== src/Core/NextSound.antt =====
-- The start of a height (bftcore.go) is sound, and `enterCommit` of a sound core leads there.
use gobft.Base.{
  ℕ, ◌+◌, ◌≡◌, ◌≢◌, refl, sym, ap, ◌∙◌, subst, inl, inr, ℤ, pos, leb_ℤ, ◌==ℤ◌, leb, Bool, true, not,
  ◌||◌, none, some, List, [], ◌∷◌, done, arith, Bool-cases, lookup, int_key,
}
use gobft.Message.{PubKey, ProposedData, Commit}
use gobft.Message.Validate.{validate_commit}
use gobft.Committee.{AppState}
use gobft.VoteSet.{two_thirds_majority, has_two_thirds_majority}
use gobft.HeightVoteSet.{HeightVoteSet, RoundVoteSet}
use gobft.HeightVoteSet.Rounds.{IsHeightValid, fresh_round-IsRoundOf, write_round-IsHeightValid}
use gobft.HeightVoteSet.Polkas.{
  IsCounted, precommits_of-some, polka-none, write_round-IsCounted, fresh_round-IsSummed,
  with_round-SamePolkas,
}
use gobft.Core.State.{Core, Env, validators_of, commit_step}
use gobft.Core.Decide.{start_commit, enter_commit}
use gobft.Core.NextHeight.{HasMovedOn, IsAtHeight, first_round}
use gobft.Core.Decision.{start_commit_decides}
use gobft.Core.Within.{not_before_refl, NoPolkaAfter, IsSound, Stays}

-- The node has a key and makes signatures, and the application, handed a commit, is then at
-- the core's height or a later one.
pub record IsWorking (env : Env) (c : Core) : Type 0 where
  pub has_key : env.priv_val.pub_key ≢ 0
  pub signs : (digest : List ℕ) → env.priv_val.sign digest ≢ []
  pub moves :
      (commit : Commit)
      → (app : AppState) × (h : ℕ) × ((env.committee (commit ∷ c.committed)).get_app_state
          ≡ some app)
        × HasMovedOn app c.height h

pub IsWorking-after :
    (env : Env) (c c' : Core)
    → c'.height ≡ c.height
    → c'.committed ≡ c.committed
    → IsWorking env c
    → IsWorking env c'
IsWorking-after env c c' h co k = record {
  has_key = k.has_key;
  signs = k.signs;
  moves = λ commit.
      let (app, n, state, moved) = k.moves commit in
      (
        app,
        n,
        ap (λ x. (env.committee (commit ∷ x)).get_app_state) co ∙ state,
        record {
          last = moved.last;
          at_least = ap (λ x. leb_ℤ x (pos n)) h ∙ moved.at_least;
          fits = moved.fits;
        },
      );
}

-- A core that stays within its height, or decides it by one commit and is sound at a later height, for
-- whatever members that one has.
pub data Proceeds (env : Env) (members : List PubKey) (c c' : Core) : Type 0 where
  stayed : Stays env members c c' → Proceeds env members c c'
  moved_on :
      (commit : Commit) (h : ℕ)
      → validate_commit commit ≡ none
      → c'.committed ≡ commit ∷ c.committed
      → c'.height ≡ pos (h + 1)
      → leb_ℤ c.height (pos h) ≡ true
      → ((next_members : List PubKey) → IsSound env next_members c')
      → Proceeds env members c c'

abbrev no_rounds : ℤ → ProposedData → HeightVoteSet
no_rounds height base = record { height = height; base = base; round = pos 0; round_vote_sets = [] }

module _ (env : Env) (members : List PubKey) (c : Core) (n : ℕ) (app : AppState)
    (at : IsAtHeight c n app) where
  first_valid :
      IsHeightValid (validators_of env c) members (first_round at.votes.height at.votes.base)
  unfolding lookup
  first_valid =
      write_round-IsHeightValid (validators_of env c) members
        (no_rounds at.votes.height at.votes.base) (pos 0) _
        (record {
          has_height = λ e. ground (arith, at.votes_height, e);
          rounds = λ round rvs h. cc;
        })
        (fresh_round-IsRoundOf (validators_of env c) members
          (no_rounds at.votes.height at.votes.base) (pos 0))

  first_polkas : NoPolkaAfter (first_round at.votes.height at.votes.base) 0
  unfolding lookup
  first_polkas r late =
      ap (λ (x : ProposedData × Bool). x.1)
        (with_round-SamePolkas (no_rounds at.votes.height at.votes.base) (pos 0) refl (pos r)
          ∙ polka-none _ (pos r) refl)

  first-IsCounted : IsCounted (first_round at.votes.height at.votes.base)
  unfolding lookup
  first-IsCounted =
      write_round-IsCounted (no_rounds at.votes.height at.votes.base) (pos 0) _
        (fresh_round-IsSummed (no_rounds at.votes.height at.votes.base) (pos 0)) (λ r rvs e. cc)

  pub IsAtHeight-IsSound : IsSound env members c
  IsAtHeight-IsSound = record {
    votes = at.votes;
    m = 0;
    n = 0;
    within = record {
      has_votes = at.is_votes;
      valid = subst (IsHeightValid (validators_of env c) members) (sym at.is_fresh) first_valid;
      tracks = at.tracks;
      in_round = at.round;
      one_ahead = inl (refl, refl);
      real_step = inl at.step;
      whole_lock = λ r. ground (arith, ap (leb_ℤ (pos 0)) at.no_lock_round);
    };
    no_polka = subst (λ v. NoPolkaAfter v 0) (sym at.is_fresh) first_polkas;
    counted = subst IsCounted (sym at.is_fresh) first-IsCounted;
  }

-- `enterCommit` for a round whose precommits have a majority.
module _ (env : Env) (members : List PubKey) {c : Core} (s : IsSound env members c)
    (working : IsWorking env c) (k : ℕ) (rvs : RoundVoteSet)
    (found : lookup (pos k) s.votes.round_vote_sets ≡ some rvs)
    (maj : has_two_thirds_majority (some rvs.precommits) ≡ true) where
  majority : two_thirds_majority (some rvs.precommits) ≡ (rvs.precommits.maj23, true)
  unfolding two_thirds_majority has_two_thirds_majority
  majority = rw maj

  commit_decides : (c' : Core) × (start_commit env c (pos k) ≡ done c') × Proceeds env members c c'
  commit_decides =
      let d = rvs.precommits.maj23 in
      let app : Commit → AppState = λ commit. (working.moves commit).0 in
      let h : Commit → ℕ = λ commit. (working.moves commit).1 in
      let is_round = s.within.valid.rounds (pos k) rvs found in
      let (c', commit, run, for_d, accepted, kept, sent, last, at) =
        start_commit_decides env c members s.votes rvs.precommits (pos k) d app h s.within.has_votes
          (precommits_of-some s.votes (pos k) rvs found) (ground arith) is_round.precommits majority
          working.has_key working.signs (λ commit e. (working.moves commit).2)
          (λ commit e. (working.moves commit).3) in
      (
        c',
        run,
        moved_on commit (h commit) accepted kept at.height (working.moves commit).3.at_least
            (λ ms. IsAtHeight-IsSound env ms c' (h commit) (app commit) at),
      )

  pub enter_commit-Proceeds :
      (c' : Core) × (enter_commit env c c.height (pos k) ≡ done c') × Proceeds env members c c'
  unfolding enter_commit
  enter_commit-Proceeds =
      elim (Bool-cases (not (c.height ==ℤ c.height) || leb commit_step c.step)) [
        | inl e ↦ (
          c,
          rw e,
          stayed (record { sound = s; height = refl; later = not_before_refl c; committed = refl }),
        )
        | inr e ↦ let (c', run, p) = commit_decides in (c', rw e run, p)
      ]
