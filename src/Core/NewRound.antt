-- ===== src/Core/NewRound.antt =====
-- `enterNewRound` (bftcore.go) and the rounds that the votes of the height track.
use gobft.Base.{
  ℕ, ◌+◌, ◌<◌, ◌≡◌, refl, ap, ◌∙◌, subst, ◌≢◌, leb, ◌⊎◌, inl, inr, ℤ, pos, ◌+ℤ◌, int64, int64_add,
  ◌==ℤ◌, ==ℤ_iff, ltb_ℤ, Bool, true, false, ◌&&◌, ◌||◌, not, some, List, ◌==◌, done, deref, >>=-run,
  arith, Bool-cases, lookup, int_key,
}
use gobft.Message.{PubKey}
use gobft.HeightVoteSet.{HeightVoteSet, RoundVoteSet, set_round}
use gobft.HeightVoteSet.Rounds.{IsHeightValid}
use gobft.HeightVoteSet.Tracking.{Tracks, set_round-Tracks}
use gobft.Core.State.{
  Core, Env, validators_of, is_behind, new_height, propose_step, update_round_step,
}
use gobft.Core.Enter.{enter_propose, is_stale_round, reset_round, advance_round, enter_new_round}
use gobft.Core.Rounds.{IsInRound, enter_propose-SameHeight}

-- The votes of the core track its rounds: round 0 alone at the start of a height, and one round more than
-- the core's own once a round is entered.
pub record TracksRound (c : Core) (votes : HeightVoteSet) (m : ℕ) : Type 0 where
  pub has_votes : c.votes ≡ some votes
  pub tracks : Tracks votes m
  pub one_ahead : (m ≡ 0) ⊎ ((k : ℕ) × (m ≡ k + 1) × (c.round ≡ pos k) × (c.step ≢ new_height))

-- The core that `enterNewRound` hands to `enterPropose`.
abbrev entered : Core → ℤ → HeightVoteSet → Core
entered c round votes = record (reset_round c round) { votes = some votes }

entered-lem :
    (c : Core) (height : ℤ) (n : ℕ) (votes : HeightVoteSet)
    → is_stale_round c height (pos n) ≡ false
    → (is_behind (entered c (pos n) votes) height (pos n) propose_step ≡ false)
      × ((entered c (pos n) votes).locked_round ≡ c.locked_round)
      × ((entered c (pos n) votes).locked_proposal ≡ c.locked_proposal)
      × ((entered c (pos n) votes).height ≡ c.height)
      × ((entered c (pos n) votes).committed ≡ c.committed)
unfolding update_round_step
entered-lem c height n votes fresh = elim (Bool-cases (pos n ==ℤ pos 0)) [
  | inl e ↦ rw e (ground (arith, ==ℤ_iff (pos n) (pos n)), refl, refl, refl, refl)
  | inr e ↦ rw e (ground (arith, ==ℤ_iff (pos n) (pos n)), refl, refl, refl, refl)
]

not_before :
    (k n : ℕ) (moved : Bool)
    → (ltb_ℤ (pos n) (pos k) || (pos k ==ℤ pos n && moved)) ≡ false
    → moved ≡ true
    → k < n
not_before k n moved fresh m = ground arith

past_new_height : (step : ℕ) → leb propose_step step ≡ true → step ≢ new_height
past_new_height step p e = ground arith

-- A round that is not stale is later than the one that the votes track, or nothing is entered yet.
later :
    (c : Core) (height : ℤ) (votes : HeightVoteSet) (m n : ℕ)
    → TracksRound c votes m
    → is_stale_round c height (pos n) ≡ false
    → (m ≡ 0) ⊎ (m < n + 1)
later c height votes m n t fresh = elim t.one_ahead [
  | inl e ↦ inl e
  | inr (k, e, at, moved) ↦
      let not_stale : (ltb_ℤ (pos n) c.round || (c.round ==ℤ pos n && not (c.step == new_height)))
          ≡ false =
        ground (arith, fresh) in
      let at_k : (ltb_ℤ (pos n) (pos k) || (pos k ==ℤ pos n && not (c.step == new_height)))
          ≡ false =
        subst (λ r. (ltb_ℤ (pos n) r || (r ==ℤ pos n && not (c.step == new_height))) ≡ false) at
          not_stale in
      inr (omega (arith, not_before k n (not (c.step == new_height)) at_k (ground arith)))
]

-- The call, with the vote sets that `SetRound` made.
pub new_round_run :
    (env : Env) (c : Core) (members : List PubKey) (votes : HeightVoteSet) (height : ℤ) (m n : ℕ)
    → IsHeightValid (validators_of env c) members votes
    → TracksRound c votes m
    → is_stale_round c height (pos n) ≡ false
    → n < 9223372036854775806
    → (c' : Core) × (votes' : HeightVoteSet) × (enter_new_round env c height (pos n) ≡ done c')
      × TracksRound c' votes' (n + 1)
      × IsInRound c' (pos n)
      × IsHeightValid (validators_of env c) members votes'
      × ((k : ℤ) (rvs : RoundVoteSet)
          → lookup k votes.round_vote_sets ≡ some rvs
          → lookup k votes'.round_vote_sets ≡ some rvs)
      × (c'.height ≡ c.height)
      × (c'.locked_round ≡ c.locked_round)
      × (c'.locked_proposal ≡ c.locked_proposal)
      × (c'.committed ≡ c.committed)
      × (set_round votes (pos (n + 1)) ≡ done votes')
unfolding enter_new_round advance_round
new_round_run env c members votes height m n valid t fresh fits =
    let (votes', run, valid', tracks', kept, h, b) =
      set_round-Tracks (validators_of env c) members votes m (n + 1)
        (later c height votes m n t fresh) (omega arith) valid t.tracks in
    let (ready, lr, lp, he, co) = entered-lem c height n votes' fresh in
    let (same, here) =
      enter_propose-SameHeight env (entered c (pos n) votes') height (pos n) ready in
    let sets : set_round votes (int64 (pos n +ℤ pos 1)) ≡ done votes' =
      ap (set_round votes) (int64_add n 1 (omega arith)) ∙ run in
    (
      enter_propose env (entered c (pos n) votes') height (pos n),
      votes',
      rw fresh (
          >>=-run (deref c.votes) _ (ap deref t.has_votes)
          ∙ >>=-run (set_round votes (int64 (pos n +ℤ pos 1))) _ sets),
      record {
        has_votes = same.votes;
        tracks = tracks';
        one_ahead = inr (n, refl, here.at_round, past_new_height _ here.past_propose);
      },
      here,
      valid',
      kept,
      same.height ∙ he,
      same.locked_round ∙ lr,
      same.locked_proposal ∙ lp,
      same.committed ∙ co,
      run,
    )

-- `enterNewRound` for a round that is not stale does not panic when the votes are valid and track
-- the core's rounds, as long as 64 bits hold the round after the next. The core is then in that
-- round, at its propose step or a later one; the votes track one round more, keep every vote set
-- and stay valid; and the height, the lock and the commits are as they were.
pub enter_new_round-TracksRound :
    (env : Env) (c : Core) (members : List PubKey) (votes : HeightVoteSet) (height : ℤ) (m n : ℕ)
    → IsHeightValid (validators_of env c) members votes
    → TracksRound c votes m
    → is_stale_round c height (pos n) ≡ false
    → n < 9223372036854775806
    → (c' : Core) × (votes' : HeightVoteSet) × (enter_new_round env c height (pos n) ≡ done c')
      × TracksRound c' votes' (n + 1)
      × IsInRound c' (pos n)
      × IsHeightValid (validators_of env c) members votes'
      × ((k : ℤ) (rvs : RoundVoteSet)
          → lookup k votes.round_vote_sets ≡ some rvs
          → lookup k votes'.round_vote_sets ≡ some rvs)
      × (c'.height ≡ c.height)
      × (c'.locked_round ≡ c.locked_round)
      × (c'.locked_proposal ≡ c.locked_proposal)
      × (c'.committed ≡ c.committed)
enter_new_round-TracksRound env c members votes height m n valid t fresh fits =
    let (c', votes', run, tracks, here, valid', kept, h, lr, lp, co, sets) =
      new_round_run env c members votes height m n valid t fresh fits in
    (c', votes', run, tracks, here, valid', kept, h, lr, lp, co)
