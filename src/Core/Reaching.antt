-- ===== src/Core/Reaching.antt =====
-- `enterNewRound` and `enterPrecommit` (bftcore.go) for the round of a vote, from a sound core.
use gobft.Base.{
  ℕ, ◌+◌, ◌≤◌, ◌<◌, ◌≡◌, refl, sym, ap, ◌∙◌, subst, inl, inr, ℤ, pos, ltb_ℤ, ◌==ℤ◌, ==ℤ_iff, true,
  not, ◌||◌, ◌&&◌, some, List, done, arith, Bool-cases, ◌==◌, lookup, int_key,
}
use native.Mathlib.Decide.{dec_lt}
use gobft.Message.{PubKey}
use gobft.HeightVoteSet.{RoundVoteSet}
use gobft.Core.State.{Core, Env, is_behind, new_height, precommit_step}
use gobft.Core.Enter.{is_stale_round, enter_new_round}
use gobft.Core.Precommit.{enter_precommit}
use gobft.Core.Within.{not_before_refl, in_same_round, IsSound, Stays}
use gobft.Core.Transitions.{enter_precommit-Within}
use gobft.Core.NextRound.{entered-later, enter_new_round-HasEntered, stale-same}
use gobft.Core.Returning.{not_earlier}

-- The core that has reached round k, or was past it, and has the vote sets that it had there.
pub record HasReached (env : Env) (members : List PubKey) (c c' : Core) (n k : ℕ)
    (rvs : RoundVoteSet) : Type 0 where
  pub stays : Stays env members c c'
  pub found : lookup (pos k) stays.sound.votes.round_vote_sets ≡ some rvs
  pub not_before : k ≤ stays.sound.n
  pub there : n ≤ k → stays.sound.n ≡ k

module _ (env : Env) (members : List PubKey) {c : Core} (s : IsSound env members c) (k : ℕ)
    (fits : k < 9223372036854775806) (rvs : RoundVoteSet)
    (found : lookup (pos k) s.votes.round_vote_sets ≡ some rvs) where
  abbrev unmoved : Stays env members c c
  unmoved = record { sound = s; height = refl; later = not_before_refl c; committed = refl }

  stale_past : is_stale_round c c.height (pos k) ≡ true → k ≤ s.n
  stale_past stale =
      let at : (ltb_ℤ (pos k) c.round || (c.round ==ℤ pos k && not (c.step == new_height))) ≡ true =
        ground (arith, stale, ==ℤ_iff c.height c.height) in
      let at_n : (ltb_ℤ (pos k) (pos s.n) || (pos s.n ==ℤ pos k && not (c.step == new_height)))
          ≡ true =
        subst (λ r. (ltb_ℤ (pos k) r || (r ==ℤ pos k && not (c.step == new_height))) ≡ true)
          s.within.in_round at in
      ground (arith, at_n)

  pub reach :
      (c1 : Core) × (enter_new_round env c c.height (pos k) ≡ done c1)
      × HasReached env members c c1 s.n k rvs
  reach = elim (Bool-cases (is_stale_round c c.height (pos k))) [
    | inl e ↦
        let past = stale_past e in
        (
          c,
          stale-same env members s.within c.height k e,
          record {
            stays = unmoved;
            found = found;
            not_before = past;
            there = λ le. omega (arith, past);
          },
        )
    | inr e ↦
        let (c1, votes1, run, entered, here) =
          enter_new_round-HasEntered env members s.within c.height k e fits in
        let earlier = not_earlier env members s.within s.no_polka s.counted c.height k e in
        (
          c1,
          run,
          record {
            stays = record {
              sound = record {
                votes = votes1;
                m = k + 1;
                n = k;
                within = entered.within;
                no_polka = entered.no_polka (λ r late. s.no_polka r (omega (arith, earlier)));
                counted = entered.counted s.counted;
              };
              height = entered.height;
              later = entered-later c c1 c.height s.n k s.within.in_round e here;
              committed = entered.committed;
            };
            found = entered.kept (pos k) rvs found;
            not_before = omega arith;
            there = λ le. refl;
          },
        )
  ]

-- `enterPrecommit` for the round of the core, or for one before it.
passed :
    (env : Env) (c : Core) (height : ℤ) (n k : ℕ)
    → c.round ≡ pos n
    → k < n
    → enter_precommit env c height (pos k) ≡ done c
unfolding enter_precommit
passed env c height n k at lt =
    let late : ltb_ℤ (pos k) c.round ≡ true =
      subst (λ r. ltb_ℤ (pos k) r ≡ true) (sym at) (ground arith) in
    let behind : is_behind c height (pos k) precommit_step ≡ true = ground (arith, late) in
    rw behind

-- What `enterPrecommit` leaves: the same votes.
pub precommit-Stays :
    (env : Env) (members : List PubKey) {c : Core} (s : IsSound env members c) (height : ℤ) (k : ℕ)
    → k ≤ s.n
    → (c' : Core) × (enter_precommit env c height (pos k) ≡ done c')
      × ((st : Stays env members c c') × (st.sound.votes ≡ s.votes))
precommit-Stays env members {c} s height k le = elim (dec_lt k s.n) [
  | yes lt ↦ (
    c,
    passed env c height s.n k s.within.in_round lt,
    (record { sound = s; height = refl; later = not_before_refl c; committed = refl }, refl),
  )
  | no p ↦
      let is_n : s.n ≡ k = omega arith in
      let (c', run, (w, h, co, step)) =
        enter_precommit-Within env members s.within height s.no_polka in
      (
        c',
        ap (λ j. enter_precommit env c height (pos j)) (sym is_n) ∙ run,
        (
          record {
            sound = record {
              votes = s.votes;
              m = s.m;
              n = s.n;
              within = w;
              no_polka = s.no_polka;
              counted = s.counted;
            };
            height = h;
            later = in_same_round c c' (w.in_round ∙ sym s.within.in_round) step;
            committed = co;
          },
          refl,
        ),
      )
]
