-- ===== src/Core/Adding.antt =====
-- `addVote` of a prevote or a precommit for the current height (bftcore.go), in a sound core.
use gobft.Base.{
  ℕ, ◌+◌, ◌<◌, ◌≡◌, ◌≢◌, refl, sym, ap, ◌∙◌, ◌⊎◌, inl, inr, pos, ◌==ℤ◌, ==ℤ_iff, Bool, true, false,
  Option, some, List, done, deref, >>=-run, arith, Bool-cases, lookup, int_key,
}
use gobft.Errors.{VoteError}
use gobft.Message.{PubKey, Vote, prevote_type, precommit_type}
use gobft.Weights.{IsCommittee, power_of}
use gobft.VoteSet.Sum.{count}
use gobft.HeightVoteSet.{HeightVoteSet, hvs_add_vote}
use gobft.HeightVoteSet.Adding.{IsVoteType, round_at, pick}
use gobft.HeightVoteSet.Tracking.{Tracks}
use gobft.HeightVoteSet.Polkas.{polka_of, same_lookup}
use gobft.HeightVoteSet.Counted.{Takes, hvs_add_vote-Takes}
use gobft.Core.State.{Core, Env, validators_of}
use gobft.Core.Votes.{handle_prevote, handle_precommit, handle_added, add_current}
use gobft.Core.Within.{not_before_refl, IsWithin, IsSound}
use gobft.Core.Prevotes.{handle_prevote-Ends}
use gobft.Core.Precommits.{Proceeds-from, handle_precommit-Proceeds}
use gobft.Core.NextSound.{IsWorking, IsWorking-after, Proceeds}

-- As long as 64 bits hold the power recorded in the vote's set, with the vote's.
abbrev pub HasRoom : Env → Core → HeightVoteSet → Vote → Type 0
HasRoom env c votes vote =
    count (pick vote.type_ (round_at votes vote.round)).votes_by_proposed_data
      + power_of (validators_of env c) vote.address
    < 9223372036854775808

module _ (env : Env) (members : List PubKey) {c : Core} (s : IsSound env members c) (vote : Vote)
    {votes' : HeightVoteSet} {added : Bool}
    (t : Takes (validators_of env c) members s.votes votes' vote added) where
  abbrev stored : Core
  stored = record c { votes = some votes' }

  stored-Tracks : Tracks votes' s.m
  stored-Tracks = record {
    at_round = t.same_round ∙ s.within.tracks.at_round;
    present = λ j le. elim (Bool-cases (vote.round ==ℤ pos j)) [
      | inl hit ↦ (
        t.rvs,
        ap (λ r. lookup r votes'.round_vote_sets) (sym ((==ℤ_iff vote.round (pos j)).0 hit)) ∙ t.at,
      )
      | inr miss ↦
          let (rvs, e) = s.within.tracks.present j le in
          (rvs, t.elsewhere (pos j) (λ e. ground (arith, miss, ==ℤ_iff vote.round (pos j))) ∙ e)
    ];
  }

  stored-IsWithin : IsWithin env members stored votes' s.m s.n
  stored-IsWithin = record {
    has_votes = refl;
    valid = t.valid;
    tracks = stored-Tracks;
    in_round = s.within.in_round;
    one_ahead = s.within.one_ahead;
    real_step = s.within.real_step;
    whole_lock = s.within.whole_lock;
  }

  -- Where no majority of prevotes can be new.
  abbrev stored_sound : (added ≡ false) ⊎ (vote.type_ ≡ precommit_type) → IsSound env members stored
  stored_sound quiet = record {
    votes = votes';
    m = s.m;
    n = s.n;
    within = stored-IsWithin;
    no_polka = λ r late. ap (λ x. x.1) (t.polkas quiet (pos r)) ∙ s.no_polka r late;
    counted = t.counted;
  }

  others :
      (k : ℕ) → vote.round ≡ pos k → (r : ℕ) → s.n < r → r ≢ k → (polka_of votes' (pos r)).1 ≡ false
  others k at r late other =
      ap (λ x. x.1)
        (same_lookup votes' s.votes (pos r)
          (t.elsewhere (pos r) (λ e. other (ground (arith, at, e)))))
      ∙ s.no_polka r late

  found_at : (k : ℕ) → vote.round ≡ pos k → lookup (pos k) votes'.round_vote_sets ≡ some t.rvs
  found_at k at = ap (λ r. lookup r votes'.round_vote_sets) (sym at) ∙ t.at

pub by_prevote :
    (env : Env) (c : Core) (vote : Vote) (votes : HeightVoteSet)
    → vote.type_ ≡ prevote_type
    → handle_added env c vote votes ≡ handle_prevote env c vote votes
unfolding handle_added
by_prevote env c vote votes t = ground (arith, t)

by_precommit :
    (env : Env) (c : Core) (vote : Vote) (votes : HeightVoteSet)
    → vote.type_ ≡ precommit_type
    → handle_added env c vote votes ≡ handle_precommit env c vote votes
unfolding handle_added
by_precommit env c vote votes t = ground (arith, t)

module _ (env : Env) (members : List PubKey) {c : Core} (s : IsSound env members c)
    (comm : IsCommittee (validators_of env c) members) (working : IsWorking env c) (vote : Vote)
    (k : ℕ) (at : vote.round ≡ pos k) (fits : k < 9223372036854775806) where
  -- The transitions after an added vote.
  added-Proceeds :
      {votes' : HeightVoteSet}
      → Takes (validators_of env c) members s.votes votes' vote true
      → IsVoteType vote.type_
      → (c' : Core) × (handle_added env (record c { votes = some votes' }) vote votes' ≡ done c')
        × Proceeds env members c c'
  added-Proceeds {votes'} t (inl prevotes) =
      let c1 : Core = record c { votes = some votes' } in
      let (c', run, st) =
        handle_prevote-Ends env members t.rvs vote (stored-IsWithin env members s vote t) t.counted
          (others env members s vote t k at) fits comm (found_at env members s vote t k at) at in
      (
        c',
        by_prevote env c1 vote votes' prevotes ∙ run,
        Proceeds.stayed (record {
          sound = st.sound;
          height = st.height;
          later = st.later;
          committed = st.committed;
        }),
      )
  added-Proceeds {votes'} t (inr precommits) =
      let c1 : Core = record c { votes = some votes' } in
      let sound = stored_sound env members s vote t (inr precommits) in
      let (c', run, p) =
        handle_precommit-Proceeds env members sound (IsWorking-after env c c1 refl refl working) k
          fits t.rvs (found_at env members s vote t k at) vote at in
      (
        c',
        by_precommit env c1 vote votes' precommits ∙ run,
        Proceeds-from
            (record { sound = sound; height = refl; later = not_before_refl c; committed = refl })
            p,
      )

  pub add-cases :
      {votes' : HeightVoteSet} (added : Bool)
      (t : Takes (validators_of env c) members s.votes votes' vote added)
      → IsVoteType vote.type_
      → (c' : Core) × (add_current env c vote ≡ done (c', added, t.error))
        × Proceeds env members c c'
  unfolding add_current
  add-cases {votes'} true t is =
      let (c', run, p) = added-Proceeds t is in
      (
        c',
        >>=-run (deref c.votes) _ (ap deref s.within.has_votes)
            ∙ (>>=-run (hvs_add_vote (validators_of env c) s.votes vote) _ t.run
                ∙ >>=-run (handle_added env (record c { votes = some votes' }) vote votes') _ run),
        p,
      )
  add-cases {votes'} false t is = (
    record c { votes = some votes' },
    >>=-run (deref c.votes) _ (ap deref s.within.has_votes)
        ∙ >>=-run (hvs_add_vote (validators_of env c) s.votes vote) _ t.run,
    Proceeds.stayed (record {
      sound = stored_sound env members s vote t (inl refl);
      height = refl;
      later = not_before_refl c;
      committed = refl;
    }),
  )

  pub add_current-Proceeds :
      IsVoteType vote.type_
      → HasRoom env c s.votes vote
      → (c' : Core) × (added : Bool) × (e : Option VoteError) × (add_current env c vote
          ≡ done (c', added, e))
        × Proceeds env members c c'
  add_current-Proceeds is room =
      let (votes', added, t) =
        hvs_add_vote-Takes (validators_of env c) members comm s.votes vote is s.within.valid
          s.counted room in
      let (c', run, p) = add-cases added t is in (c', added, t.error, run, p)
