-- ===== src/Core/Precommits.antt =====
-- What an added precommit does (bftcore.go), in a sound core.
use gobft.Base.{
  ℕ, ◌<◌, ◌≡◌, refl, sym, ap, ap₂, ◌∙◌, subst, inl, inr, pos, leb_ℤ, Bool, true, false, ◌&&◌, some,
  List, ◌∷◌, done, done_injective, >>=-run, if◌then◌else◌, arith, Bool-cases, lookup, int_key,
}
use gobft.Message.{PubKey, Vote}
use gobft.VoteSet.{has_two_thirds_majority, has_two_thirds_any, has_all}
use gobft.HeightVoteSet.{HeightVoteSet, RoundVoteSet, precommits_of}
use gobft.HeightVoteSet.Polkas.{precommits_of-some}
use gobft.Core.State.{Core, Env, validators_of}
use gobft.Core.Enter.{enter_new_round}
use gobft.Core.Precommit.{enter_precommit, enter_precommit_wait}
use gobft.Core.Decide.{enter_commit}
use gobft.Core.Votes.{decide, wait_precommits, handle_precommit}
use gobft.Core.Within.{not_before_refl, in_same_round, IsSound, Stays, Stays-trans}
use gobft.Core.Transitions.{enter_precommit_wait-Within}
use gobft.Core.Returning.{enter_new_round-Stays}
use gobft.Core.NextSound.{IsWorking, IsWorking-after, Proceeds, enter_commit-Proceeds}
use gobft.Core.Reaching.{reach, precommit-Stays}

pub Proceeds-from :
    {env : Env} {members : List PubKey} {a b c : Core}
    → Stays env members a b
    → Proceeds env members b c
    → Proceeds env members a c
Proceeds-from st (Proceeds.stayed q) = Proceeds.stayed (Stays-trans st q)
Proceeds-from st (Proceeds.moved_on commit h ok kept height later sound) =
    Proceeds.moved_on commit h ok (kept ∙ ap (◌∷◌ commit) st.committed) height
      (ap (λ x. leb_ℤ x (pos h)) (sym st.height) ∙ later) sound

-- `enterNewRound` of round 0, after a decision or without one.
pub starts_over :
    (env : Env) (members : List PubKey) (c c' : Core)
    → Proceeds env members c c'
    → (c'' : Core) × (enter_new_round env c' c'.height (pos 0) ≡ done c'')
      × Proceeds env members c c''
starts_over env members c c' (Proceeds.stayed st) =
    let s = st.sound in
    let (c'', run, next) =
      enter_new_round-Stays env members s.within s.no_polka s.counted c'.height 0 (omega arith) in
    (c'', run, Proceeds.stayed (Stays-trans st next))
starts_over env members c c' (Proceeds.moved_on commit h ok kept height later sound) =
    let begin = λ (ms : List PubKey).
      enter_new_round-Stays env ms (sound ms).within (sound ms).no_polka (sound ms).counted
        c'.height 0 (omega arith) in
    let (c'', run, next) = begin members in
    (
      c'',
      run,
      Proceeds.moved_on commit h ok (next.committed ∙ kept) (next.height ∙ height) later (λ ms.
          let (other, run', st) = begin ms in
          subst (IsSound env ms) {x = other} (done_injective (sym run' ∙ run)) st.sound),
    )

-- The end of a decision: with every vote there, the next round starts at once.
pub skip_timeout :
    (env : Env) (members : List PubKey) (c c' : Core) (skips : Bool)
    → Proceeds env members c c'
    → (c'' : Core) × ((if skips then enter_new_round env c' c'.height (pos 0) else done c')
        ≡ done c'')
      × Proceeds env members c c''
skip_timeout env members c c' true p = starts_over env members c c' p
skip_timeout env members c c' false p = (c', refl, p)

module _ (env : Env) (members : List PubKey) {c : Core} (s : IsSound env members c)
    (working : IsWorking env c) (k : ℕ) (fits : k < 9223372036854775806) (rvs : RoundVoteSet)
    (found : lookup (pos k) s.votes.round_vote_sets ≡ some rvs) (vote : Vote)
    (at : vote.round ≡ pos k) where
  decide-Proceeds :
      has_two_thirds_majority (some rvs.precommits) ≡ true
      → (c' : Core) × (decide env c vote rvs.precommits ≡ done c') × Proceeds env members c c'
  unfolding decide
  decide-Proceeds maj =
      let (c1, run1, r) = reach env members s k fits rvs found in
      let (c2, run2, (st2, same)) =
        precommit-Stays env members r.stays.sound c.height k r.not_before in
      let st = Stays-trans r.stays st2 in
      let found2 : lookup (pos k) st2.sound.votes.round_vote_sets ≡ some rvs =
        ap (λ (v : HeightVoteSet). lookup (pos k) v.round_vote_sets) same ∙ r.found in
      let (c3, run3, p) =
        enter_commit-Proceeds env members st2.sound
          (IsWorking-after env c c2 st.height st.committed working) k rvs found2 maj in
      let (c4, run4, q) =
        skip_timeout env members c c3
          (env.cfg.skip_timeout_commit && has_all (validators_of env c3) rvs.precommits)
          (Proceeds-from st p) in
      (
        c4,
        >>=-run (enter_new_round env c c.height vote.round) _
              (ap (enter_new_round env c c.height) at ∙ run1)
            ∙ (>>=-run (enter_precommit env c1 c.height vote.round) _
                  (ap (enter_precommit env c1 c.height) at ∙ run2)
                ∙ (>>=-run (enter_commit env c2 c.height vote.round) _
                      (ap₂ (enter_commit env c2) (sym st.height) at ∙ run3)
                    ∙ run4)),
        q,
      )

  wait-Proceeds :
      leb_ℤ c.round vote.round ≡ true
      → has_two_thirds_any (validators_of env c) (some rvs.precommits) ≡ true
      → (c' : Core) × (wait_precommits env c vote ≡ done c') × Proceeds env members c c'
  unfolding wait_precommits
  wait-Proceeds ahead any =
      let (c1, run1, r) = reach env members s k fits rvs found in
      let s1 = r.stays.sound in
      let not_late : leb_ℤ (pos s.n) (pos k) ≡ true =
        sym (ap₂ leb_ℤ s.within.in_round at) ∙ ahead in
      let there : s1.n ≡ k = r.there (ground (arith, not_late)) in
      let some_of : has_two_thirds_any (validators_of env c1) (precommits_of s1.votes (pos s1.n))
          ≡ true =
        ap₂
          (λ committed set.
            has_two_thirds_any
              (record {
                committee = env.committee committed;
                priv_val = env.priv_val;
                hashing = env.hashing;
              })
              set)
          r.stays.committed
          (ap (λ j. precommits_of s1.votes (pos j)) there
            ∙ precommits_of-some s1.votes (pos k) rvs r.found)
        ∙ any in
      let (c2, run2, (w, h, co, step)) =
        enter_precommit_wait-Within env members s1.within c.height some_of in
      (
        c2,
        >>=-run (enter_new_round env c c.height vote.round) _
              (ap (enter_new_round env c c.height) at ∙ run1)
            ∙ (ap (enter_precommit_wait env c1 c.height) (at ∙ ap pos (sym there)) ∙ run2),
        Proceeds.stayed (
            Stays-trans r.stays (record {
              sound = record {
                votes = s1.votes;
                m = s1.m;
                n = s1.n;
                within = w;
                no_polka = s1.no_polka;
                counted = s1.counted;
              };
              height = h;
              later = in_same_round c1 c2 (w.in_round ∙ sym s1.within.in_round) step;
              committed = co;
            })),
      )

  -- The precommit is stored already.
  pub handle_precommit-Proceeds :
      (c' : Core) × (handle_precommit env c vote s.votes ≡ done c') × Proceeds env members c c'
  unfolding handle_precommit
  handle_precommit-Proceeds =
      let set : precommits_of s.votes vote.round ≡ some rvs.precommits =
        ap (precommits_of s.votes) at ∙ precommits_of-some s.votes (pos k) rvs found in
      elim (Bool-cases (has_two_thirds_majority (some rvs.precommits))) [
        | inl maj ↦
            let (c', run, p) = decide-Proceeds maj in (c', rw (set, handle_precommit, maj) run, p)
        | inr few ↦
            elim (Bool-cases (
              leb_ℤ c.round vote.round
              && has_two_thirds_any (validators_of env c) (some rvs.precommits))) [
                | inl waits ↦
                    let (c', run, p) =
                      wait-Proceeds (ground (arith, waits)) (ground (arith, waits)) in
                    (c', rw (set, handle_precommit, few, waits) run, p)
                | inr no_wait ↦ (
                  c,
                  rw (set, handle_precommit, few, no_wait),
                  Proceeds.stayed (record {
                    sound = s;
                    height = refl;
                    later = not_before_refl c;
                    committed = refl;
                  }),
                )
              ]
      ]
