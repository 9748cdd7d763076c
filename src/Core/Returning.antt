-- ===== src/Core/Returning.antt =====
-- What the timeouts call (bftcore.go) returns, from a core that is within a height.
use gobft.Base.{
  ℕ, ◌+◌, ◌<◌, ◌≤◌, ◌≡◌, refl, sym, ap, ◌∙◌, subst, inl, inr, ℤ, pos, ◌+ℤ◌, int64, int64_add, ltb_ℤ,
  ◌==ℤ◌, leb, true, false, not, ◌||◌, ◌&&◌, Option, some, List, Outcome, done, deref, ◌>>=◌,
  >>=-run, arith, Bool-cases, ◌==◌,
}
use gobft.Message.{PubKey}
use gobft.VoteSet.{VoteSet}
use gobft.HeightVoteSet.{HeightVoteSet, prevotes_of, precommits_of}
use gobft.HeightVoteSet.Polkas.{IsCounted, prevotes_of-some, precommits_of-some}
use gobft.Core.State.{
  Core, Env, RoundStepType, new_height, propose_step, prevote_fetch, precommit_fetch, is_behind,
  schedule_timeout,
}
use gobft.Core.Enter.{is_stale_round, enter_new_round, enter_propose}
use gobft.Core.Precommit.{enter_precommit, request_votes, fetch_missing_votes}
use gobft.Core.Within.{in_same_round, IsWithin, NoPolkaAfter, Stays, Stays-trans, moved-IsWithin}
use gobft.Core.Transitions.{Within, unmoved, tracked, enter_precommit-Within}
use gobft.Core.NextRound.{
  entered-later, enter_new_round-HasEntered, stale-same, enter_propose-Within,
}

module _ (env : Env) (members : List PubKey) {c : Core} {votes : HeightVoteSet} {m n : ℕ}
    (w : IsWithin env members c votes m n) (after : NoPolkaAfter votes n)
    (counted : IsCounted votes) (height : ℤ) where
  -- A call returns, and leaves the core within its height.
  abbrev pub Returns : Outcome Core → Type 0
  Returns call = (c' : Core) × (call ≡ done c') × Stays env members c c'

  pub stays : {c' : Core} → Within env members w height c' → Stays env members c c'
  stays {c'} (w', h, co, le) = record {
    sound = record {
      votes = votes;
      m = m;
      n = n;
      within = w';
      no_polka = after;
      counted = counted;
    };
    height = h;
    later = in_same_round c c' (w'.in_round ∙ sym w.in_round) le;
    committed = co;
  }

  pub not_earlier : (k : ℕ) → is_stale_round c height (pos k) ≡ false → n ≤ k
  not_earlier k fresh =
      let at_n : (ltb_ℤ (pos k) (pos n) || (pos n ==ℤ pos k && not (c.step == new_height)))
          ≡ false =
        subst (λ r. (ltb_ℤ (pos k) r || (r ==ℤ pos k && not (c.step == new_height))) ≡ false)
          w.in_round (ground (arith, fresh)) in
      ground (arith, at_n)

  pub enter_new_round-Stays :
      (k : ℕ) → k < 9223372036854775806 → Returns (enter_new_round env c height (pos k))
  enter_new_round-Stays k fits = elim (Bool-cases (is_stale_round c height (pos k))) [
    | inl e ↦ (c, stale-same env members w height k e, stays (unmoved env members w height))
    | inr e ↦
        let (c', votes', run, entered, here) =
          enter_new_round-HasEntered env members w height k e fits in
        (
          c',
          run,
          record {
            sound = record {
              votes = votes';
              m = k + 1;
              n = k;
              within = entered.within;
              no_polka = entered.no_polka (λ r late. after r (omega (arith, not_earlier k e)));
              counted = entered.counted counted;
            };
            height = entered.height;
            later = entered-later c c' height n k w.in_round e here;
            committed = entered.committed;
          },
        )
  ]

  in_first_round : is_behind c height (pos 0) propose_step ≡ false → n ≡ 0
  in_first_round ahead =
      let at_n : (ltb_ℤ (pos 0) (pos n) || (pos n ==ℤ pos 0 && leb propose_step c.step)) ≡ false =
        subst (λ r. (ltb_ℤ (pos 0) r || (r ==ℤ pos 0 && leb propose_step c.step)) ≡ false)
          w.in_round (ground (arith, ahead)) in
      ground (arith, at_n)

  proposed-behind :
      is_behind c height (pos 0) propose_step ≡ true → enter_propose env c height (pos 0) ≡ c
  unfolding enter_propose
  proposed-behind e = rw e

  pub enter_propose-Stays : Stays env members c (enter_propose env c height (pos 0))
  enter_propose-Stays = elim (Bool-cases (is_behind c height (pos 0) propose_step)) [
    | inl e ↦
        subst (Stays env members c) (sym (proposed-behind e)) (stays (unmoved env members w height))
    | inr e ↦
        let z = in_first_round e in
        subst (λ k. Stays env members c (enter_propose env c height (pos k))) z
          (stays (
            enter_propose-Within env members w height
              (subst (λ k. is_behind c height (pos k) propose_step ≡ false) (sym z) e)))
  ]

  requested-Returns :
      (found : Option VoteSet) (vs : VoteSet) (step : RoundStepType)
      → found ≡ some vs
      → leb propose_step c.step ≡ true
      → Returns (request_votes env c found step)
  unfolding schedule_timeout
  requested-Returns found vs step e past = (
    _,
    >>=-run (deref found) _ (ap deref e),
    stays (
      moved-IsWithin
          (record {
            height = refl;
            locked_round = refl;
            locked_proposal = refl;
            votes = refl;
            commit_round = refl;
            last_commit = refl;
            last_committed_data = refl;
            committed = refl;
          })
          (record { at_round = w.in_round; past_propose = past }) w,
      refl,
      refl,
      ground arith,
    ),
  )

  fetch_prevotes : (c.step == prevote_fetch) ≡ true → Returns (fetch_missing_votes env c)
  unfolding fetch_missing_votes
  fetch_prevotes e =
      let (rvs, at) = w.tracks.present n (tracked env members w height) in
      let found = ap (prevotes_of votes) w.in_round ∙ prevotes_of-some votes (pos n) rvs at in
      let (c', run, st) =
        requested-Returns (prevotes_of votes c.round) rvs.prevotes prevote_fetch found
          (ground (arith, e)) in
      (c', rw e (>>=-run (deref c.votes) _ (ap deref w.has_votes) ∙ run), st)

  fetch_precommits :
      (c.step == prevote_fetch) ≡ false
      → (c.step == precommit_fetch) ≡ true
      → Returns (fetch_missing_votes env c)
  unfolding fetch_missing_votes
  fetch_precommits d e =
      let (rvs, at) = w.tracks.present n (tracked env members w height) in
      let found = ap (precommits_of votes) w.in_round ∙ precommits_of-some votes (pos n) rvs at in
      let (c', run, st) =
        requested-Returns (precommits_of votes c.round) rvs.precommits precommit_fetch found
          (ground (arith, e)) in
      (c', rw (d, e) (>>=-run (deref c.votes) _ (ap deref w.has_votes) ∙ run), st)

  fetch_nothing :
      (c.step == prevote_fetch) ≡ false
      → (c.step == precommit_fetch) ≡ false
      → Returns (fetch_missing_votes env c)
  unfolding fetch_missing_votes
  fetch_nothing d e = (c, rw (d, e), stays (unmoved env members w height))

  pub fetch_missing_votes-Returns : Returns (fetch_missing_votes env c)
  fetch_missing_votes-Returns = elim (Bool-cases (c.step == prevote_fetch)) [
    | inl e ↦ fetch_prevotes e
    | inr d ↦ elim (Bool-cases (c.step == precommit_fetch)) [
      | inl e ↦ fetch_precommits d e
      | inr e ↦ fetch_nothing d e
    ]
  ]

module _ (env : Env) (members : List PubKey) {c : Core} {votes : HeightVoteSet} {m n : ℕ}
    (w : IsWithin env members c votes m n) (after : NoPolkaAfter votes n)
    (counted : IsCounted votes) where
  pub precommit_wait-Returns :
      (height : ℤ)
      → n < 9223372036854775805
      → Returns env members w after counted height (
          enter_precommit env c height (pos n)
          >>= (λ c'. enter_new_round env c' height (int64 (pos n +ℤ pos 1))))
  precommit_wait-Returns height fits =
      let (c1, run1, (w1, h1, co1, le1)) = enter_precommit-Within env members w height after in
      let (c2, run2, st) =
        enter_new_round-Stays env members w1 after counted height (n + 1) (omega arith) in
      (
        c2,
        >>=-run (enter_precommit env c height (pos n)) _ run1
            ∙ (ap (enter_new_round env c1 height) (int64_add n 1 (omega arith)) ∙ run2),
        Stays-trans
            (record {
              sound = record {
                votes = votes;
                m = m;
                n = n;
                within = w1;
                no_polka = after;
                counted = counted;
              };
              height = h1;
              later = in_same_round c c1 (w1.in_round ∙ sym w.in_round) le1;
              committed = co1;
            })
            st,
      )
