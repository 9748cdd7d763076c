-- ===== src/Core/NextRound.antt =====
-- `enterNewRound`, `enterPropose` and the fetching of votes (bftcore.go), from a core whose votes are
-- valid and tracked.
use gobft.Base.{
  ℕ, ◌+◌, ◌<◌, ◌≡◌, refl, sym, ap, ◌∙◌, subst, ◌⊎◌, inl, inr, ℤ, pos, leb_ℤ, ltb_ℤ, ◌==ℤ◌, ==ℤ_iff,
  is_some, leb, true, false, not, ◌||◌, ◌&&◌, some, done, arith, lookup, int_key, ◌==◌, List,
}
use native.Mathlib.Decide.{dec_lt}
use gobft.Message.{PubKey}
use gobft.HeightVoteSet.{HeightVoteSet, RoundVoteSet}
use gobft.HeightVoteSet.Polkas.{IsCounted, set_round-SamePolkas, set_round-IsCounted}
use gobft.Core.State.{Core, Env, is_behind, propose_step, new_height}
use gobft.Core.Enter.{is_stale_round, enter_new_round, enter_propose}
use gobft.Core.Rounds.{IsInRound, enter_propose-SameHeight}
use gobft.Core.NewRound.{TracksRound, new_round_run}
use gobft.Core.Within.{
  not_before, in_later_round, in_same_round, IsWithin, NoPolkaAfter, valid_after, moved-IsWithin,
}
use gobft.Core.Transitions.{Within, early_step}

-- A later round of the height is not stale, nor is the current one while the core waits for the height.
pub not_stale :
    (c : Core) (height : ℤ) (n k : ℕ)
    → c.height ≡ height
    → c.round ≡ pos n
    → (n < k) ⊎ ((n ≡ k) × (c.step ≡ new_height))
    → is_stale_round c height (pos k) ≡ false
not_stale c height n k h at later =
    let same : (c.height ==ℤ height) ≡ true = (==ℤ_iff c.height height).1 h in
    let at_n : (ltb_ℤ (pos k) (pos n) || (pos n ==ℤ pos k && not (c.step == new_height))) ≡ false =
      ground (arith, later) in
    let fresh : (ltb_ℤ (pos k) c.round || (c.round ==ℤ pos k && not (c.step == new_height)))
        ≡ false =
      subst (λ r. (ltb_ℤ (pos k) r || (r ==ℤ pos k && not (c.step == new_height))) ≡ false) (sym at)
        at_n in
    ground (arith, fresh, same)

-- The round that `enterNewRound` enters is not an earlier one, and the core had no step in it.
pub entered-later :
    (c c' : Core) (height : ℤ) (n k : ℕ)
    → c.round ≡ pos n
    → is_stale_round c height (pos k) ≡ false
    → IsInRound c' (pos k)
    → not_before c c' ≡ true
entered-later c c' height n k at fresh here =
    let at_n : (ltb_ℤ (pos k) (pos n) || (pos n ==ℤ pos k && not (c.step == new_height))) ≡ false =
      subst (λ r. (ltb_ℤ (pos k) r || (r ==ℤ pos k && not (c.step == new_height))) ≡ false) at
        (ground (arith, fresh)) in
    elim (dec_lt n k) [
      | yes lt ↦ in_later_round c c' n k at here.at_round lt
      | no p ↦
          let is_n : n ≡ k = ground (arith, at_n, p) in
          in_same_round c c' (here.at_round ∙ (ap pos (sym is_n) ∙ sym at))
            (ground (arith, at_n, p, here.past_propose))
    ]

-- A core that has entered round k of its height, with the vote sets that it had.
pub record HasEntered (env : Env) (members : List PubKey) (c c' : Core)
    (votes votes' : HeightVoteSet) (k : ℕ) : Type 0 where
  pub within : IsWithin env members c' votes' (k + 1) k
  pub no_polka : NoPolkaAfter votes k → NoPolkaAfter votes' k
  pub counted : IsCounted votes → IsCounted votes'
  pub kept :
      (r : ℤ) (rvs : RoundVoteSet)
      → lookup r votes.round_vote_sets ≡ some rvs
      → lookup r votes'.round_vote_sets ≡ some rvs
  pub height : c'.height ≡ c.height
  pub committed : c'.committed ≡ c.committed

module _ (env : Env) (members : List PubKey) {c : Core} {votes : HeightVoteSet} {m n : ℕ}
    (w : IsWithin env members c votes m n) (height : ℤ) where
  tracks_round : TracksRound c votes m
  tracks_round = record {
    has_votes = w.has_votes;
    tracks = w.tracks;
    one_ahead = elim w.one_ahead [
      | inl (e, z) ↦ inl e
      | inr (e, p) ↦ inr (n, e, w.in_round, λ s. ground (arith, ap (leb propose_step) s))
    ];
  }

  pub enter_new_round-HasEntered :
      (k : ℕ)
      → is_stale_round c height (pos k) ≡ false
      → k < 9223372036854775806
      → (c' : Core) × (votes' : HeightVoteSet) × (enter_new_round env c height (pos k) ≡ done c')
        × HasEntered env members c c' votes votes' k
        × IsInRound c' (pos k)
  enter_new_round-HasEntered k fresh fits =
      let (c', votes', run, t, here, valid, kept, h, lr, lp, co, sets) =
        new_round_run env c members votes height m k w.valid tracks_round fresh fits in
      let same = set_round-SamePolkas votes votes' (pos (k + 1)) w.valid.has_height sets in
      (
        c',
        votes',
        run,
        record {
          within = record {
            has_votes = t.has_votes;
            valid = valid_after env members c c' co valid;
            tracks = t.tracks;
            in_round = here.at_round;
            one_ahead = inr (refl, here.past_propose);
            real_step = inr here.past_propose;
            whole_lock = λ r. ap is_some lp ∙ w.whole_lock (ap (leb_ℤ (pos 0)) (sym lr) ∙ r);
          };
          no_polka = λ after r late. ap (λ x. x.1) (same (pos r)) ∙ after r late;
          counted = set_round-IsCounted votes votes' (pos (k + 1)) w.valid.has_height sets;
          kept = kept;
          height = h;
          committed = co;
        },
        here,
      )

  pub stale-same :
      (k : ℕ)
      → is_stale_round c height (pos k) ≡ true
      → enter_new_round env c height (pos k) ≡ done c
  unfolding enter_new_round
  stale-same k e = rw e

  pub enter_propose-Within :
      is_behind c height (pos n) propose_step ≡ false
      → Within env members w height (enter_propose env c height (pos n))
  enter_propose-Within ahead =
      let (s, here) = enter_propose-SameHeight env c height (pos n) ahead in
      (
        moved-IsWithin s here w,
        s.height,
        s.committed,
        ground (arith, early_step env members w height propose_step ahead, here.past_propose),
      )
