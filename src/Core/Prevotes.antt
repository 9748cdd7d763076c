-- ===== src/Core/Prevotes.antt =====
-- What an added prevote does (bftcore.go), in a core within a height.
use gobft.Base.{
  ℕ, ◌+◌, ◌<◌, ◌≡◌, ◌≢◌, refl, sym, ap, ap₂, ◌∙◌, subst, ◌⊎◌, inl, inr, pos, leb_ℤ, ltb_ℤ, ◌==ℤ◌,
  is_some, leb, ltb, Bool, true, false, ◌&&◌, some, List, Outcome, done, arith, Bool-cases, ◌==◌,
  ==_iff, lookup, int_key,
}
use gobft.Message.{PubKey, ProposedData, Vote}
use gobft.Weights.{IsCommittee}
use gobft.VoteSet.{two_thirds_majority, has_two_thirds_any}
use gobft.HeightVoteSet.{HeightVoteSet, RoundVoteSet, prevotes_of}
use gobft.HeightVoteSet.Polkas.{polka_of, prevotes_of-some, IsCounted}
use gobft.HeightVoteSet.Counted.{polka-any}
use gobft.Core.State.{Core, Env, validators_of, propose_step, prevote_step}
use gobft.Core.Enter.{is_stale_round, enter_new_round, enter_prevote, enter_prevote_wait}
use gobft.Core.Precommit.{enter_precommit}
use gobft.Core.Votes.{apply_polka, after_prevote, handle_prevote}
use gobft.Core.Within.{
  not_before, not_before_trans, in_same_round, in_later_round, IsRealStep, IsWithin, IsSound,
  NoPolkaAfter, Stays, valid_after, IsCommittee-after,
}
use gobft.Core.Transitions.{
  Within, unmoved, enter_prevote-Within, enter_precommit-Within, enter_prevote_wait-Within,
}
use gobft.Core.NextRound.{not_stale, enter_new_round-HasEntered}

-- What a majority of prevotes changes is the lock, and the proposal.
pub record KeepsRound (c c' : Core) : Type 0 where
  pub votes : c'.votes ≡ c.votes
  pub height : c'.height ≡ c.height
  pub round : c'.round ≡ c.round
  pub step : c'.step ≡ c.step
  pub committed : c'.committed ≡ c.committed
  pub whole :
      (leb_ℤ (pos 0) c.locked_round ≡ true → is_some c.locked_proposal ≡ true)
      → leb_ℤ (pos 0) c'.locked_round ≡ true
      → is_some c'.locked_proposal ≡ true

pub apply_polka-KeepsRound :
    (c : Core) (vote : Vote) (polka : ProposedData × Bool) → KeepsRound c (apply_polka c vote polka)
unfolding apply_polka
apply_polka-KeepsRound c vote (d, found) = ground arith

pub kept-IsWithin :
    {env : Env} {members : List PubKey} {c c' : Core} {votes : HeightVoteSet} {m n : ℕ}
    → KeepsRound c c'
    → IsWithin env members c votes m n
    → IsWithin env members c' votes m n
kept-IsWithin {env} {members} {c} {c'} {votes} {m} {n} k w = record {
  has_votes = k.votes ∙ w.has_votes;
  valid = valid_after env members c c' k.committed w.valid;
  tracks = w.tracks;
  in_round = k.round ∙ w.in_round;
  one_ahead =
      subst (λ s. ((m ≡ 0) × (n ≡ 0)) ⊎ ((m ≡ n + 1) × (leb propose_step s ≡ true))) (sym k.step)
        w.one_ahead;
  real_step = subst IsRealStep (sym k.step) w.real_step;
  whole_lock = k.whole w.whole_lock;
}

kept-not_before : (c c' : Core) → KeepsRound c c' → not_before c c' ≡ true
kept-not_before c c' k =
    in_same_round c c' k.round (subst (λ s. leb c.step s ≡ true) (sym k.step) (ground arith))

-- A change that the invariant does not read.
pub kept-Stays :
    {env : Env} {members : List PubKey} {c c' : Core}
    → IsSound env members c
    → KeepsRound c c'
    → Stays env members c c'
kept-Stays {env} {members} {c} {c'} s k = record {
  sound = record {
    votes = s.votes;
    m = s.m;
    n = s.n;
    within = kept-IsWithin k s.within;
    no_polka = s.no_polka;
    counted = s.counted;
  };
  height = k.height;
  later = kept-not_before c c' k;
  committed = k.committed;
}

-- The core after the vote is stored and the majority of its round is applied; only the vote's own
-- round, k, may have a majority that the core has not seen.
module _ (env : Env) (members : List PubKey) {c : Core} {votes : HeightVoteSet} {m n k : ℕ}
    (w : IsWithin env members c votes m n) (counted : IsCounted votes)
    (others : (r : ℕ) → n < r → r ≢ k → (polka_of votes (pos r)).1 ≡ false)
    (fits : k < 9223372036854775806) where
  abbrev pub Ends : Outcome Core → Type 0
  Ends call = (c' : Core) × (call ≡ done c') × Stays env members c c'

  pub seen : ((n < k) → (polka_of votes (pos k)).1 ≡ false) → NoPolkaAfter votes n
  seen own r late = elim (Bool-cases (r == k)) [
    | inl e ↦
        let same : r ≡ k = (==_iff r k).0 e in
        ap (λ j. (polka_of votes (pos j)).1) same ∙ own (subst (λ j. n < j) same late)
    | inr e ↦ others r late (ground (arith, e))
  ]

  pub stays :
      {c' : Core} → NoPolkaAfter votes n → Within env members w c.height c' → Stays env members c c'
  stays {c'} after (w', h, co, le) = record {
    sound = record {
      votes = votes;
      m = m;
      n = n;
      within = w';
      no_polka = after;
      counted = counted;
    };
    height = h;
    later = in_same_round c c' (w'.in_round ∙ sym w.in_round) le;
    committed = co;
  }

  fresh_later : n < k → is_stale_round c c.height (pos k) ≡ false
  fresh_later late = not_stale c c.height n k refl w.in_round (inl late)

  -- A later round is entered.
  pub enters_later : n < k → Ends (enter_new_round env c c.height (pos k))
  enters_later late =
      let (c', votes', run, entered, here) =
        enter_new_round-HasEntered env members w c.height k (fresh_later late) fits in
      (
        c',
        run,
        record {
          sound = record {
            votes = votes';
            m = k + 1;
            n = k;
            within = entered.within;
            no_polka =
                entered.no_polka (λ r l. others r (omega arith) (λ e. absurd (omega (arith, e))));
            counted = entered.counted counted;
          };
          height = entered.height;
          later = in_later_round c c' n k w.in_round here.at_round late;
          committed = entered.committed;
        },
      )

module _ (env : Env) (members : List PubKey) {c : Core} {votes : HeightVoteSet} {m n k : ℕ}
    (w : IsWithin env members c votes m n) (counted : IsCounted votes)
    (others : (r : ℕ) → n < r → r ≢ k → (polka_of votes (pos r)).1 ≡ false)
    (fits : k < 9223372036854775806) (comm : IsCommittee (validators_of env c) members)
    (rvs : RoundVoteSet) (found : lookup (pos k) votes.round_vote_sets ≡ some rvs) (vote : Vote)
    (at : vote.round ≡ pos k) where
  abbrev any : Bool
  any = has_two_thirds_any (validators_of env c) (prevotes_of votes (pos k))

  abbrev Finishes : Outcome Core → Type 0
  Finishes = Ends env members w counted others fits

  abbrev after_it : Outcome Core
  after_it = after_prevote env c vote (prevotes_of votes (pos k))

  via : {call call' : Outcome Core} → call ≡ call' → Finishes call' → Finishes call
  via e (c', run, st) = (c', e ∙ run, st)

  -- The vote's round is not ahead, or two thirds of any are not there.
  no_jump : (ltb_ℤ c.round vote.round && any) ≡ false → NoPolkaAfter votes n
  no_jump e = seen env members w counted others fits λ late.
      let ahead : ltb_ℤ c.round vote.round ≡ true =
        subst (λ r. ltb_ℤ r vote.round ≡ true) (sym w.in_round)
          (subst (λ r. ltb_ℤ (pos n) r ≡ true) (sym at) (ground arith)) in
      let few : any ≡ false = ground (arith, e, ahead) in
      polka-any (validators_of env c) members votes (pos k) rvs comm w.valid counted found (
        ap (has_two_thirds_any (validators_of env c))
          (sym (prevotes_of-some votes (pos k) rvs found))
        ∙ few)

  same_round : (c.round ==ℤ vote.round) ≡ true → n ≡ k
  same_round e =
      let at_n : (pos n ==ℤ pos k) ≡ true = sym (ap₂ ◌==ℤ◌ w.in_round at) ∙ e in
      ground (arith, at_n)

  jump : (ltb_ℤ c.round vote.round && any) ≡ true → Finishes after_it
  unfolding after_prevote
  jump e =
      let ahead : ltb_ℤ c.round vote.round ≡ true = ground (arith, e) in
      let late : ltb_ℤ (pos n) (pos k) ≡ true = sym (ap₂ ltb_ℤ w.in_round at) ∙ ahead in
      via (rw e (ap (enter_new_round env c c.height) at))
        (enters_later env members w counted others fits (ground (arith, late)))

  module _ (e : (ltb_ℤ c.round vote.round && any) ≡ false) where
    in_it : {c' : Core} → Within env members w c.height c' → Stays env members c c'
    in_it = stays env members w counted others fits (no_jump e)

    at_precommit :
        (c.round ==ℤ vote.round && leb prevote_step c.step) ≡ true
        → (two_thirds_majority (prevotes_of votes (pos k))).1 ≡ true
        → Finishes after_it
    unfolding after_prevote
    at_precommit h p =
        let (c', run, w') = enter_precommit-Within env members w c.height (no_jump e) in
        let is_n : vote.round ≡ pos n = at ∙ ap pos (sym (same_round (ground (arith, h)))) in
        via (rw (e, h, p) (ap (enter_precommit env c c.height) is_n)) (c', run, in_it w')

    at_wait :
        (c.round ==ℤ vote.round && leb prevote_step c.step) ≡ true
        → (two_thirds_majority (prevotes_of votes (pos k))).1 ≡ false
        → any ≡ true
        → Finishes after_it
    unfolding after_prevote
    at_wait h p a =
        let is_k : n ≡ k = same_round (ground (arith, h)) in
        let (c', run, w') = enter_prevote_wait-Within env members w c.height (
          subst (λ r. has_two_thirds_any (validators_of env c) (prevotes_of votes (pos r)) ≡ true)
            (sym is_k) a) in
        via (rw (e, h, p, a) (ap (enter_prevote_wait env c c.height) (at ∙ ap pos (sym is_k))))
          (c', run, in_it w')

    at_nothing :
        (c.round ==ℤ vote.round && leb prevote_step c.step) ≡ true
        → (two_thirds_majority (prevotes_of votes (pos k))).1 ≡ false
        → any ≡ false
        → Finishes after_it
    unfolding after_prevote
    at_nothing h p a = (c, rw (e, h, p, a), in_it (unmoved env members w c.height))

    at_prevote :
        (c.round ==ℤ vote.round && leb prevote_step c.step) ≡ false
        → (early has : Bool) → ltb c.step prevote_step ≡ early
        → is_some c.proposal ≡ has
        → Finishes after_it
    unfolding after_prevote
    at_prevote h true true s p =
        via (rw (e, h, s, p) (ap (λ r. done (enter_prevote env c c.height r)) w.in_round))
          (_, refl, in_it (enter_prevote-Within env members w c.height))
    at_prevote h true false s p = (c, rw (e, h, s, p), in_it (unmoved env members w c.height))
    at_prevote h false has s p = (c, rw (e, h, s), in_it (unmoved env members w c.height))

    stays_here : Finishes after_it
    stays_here = elim (Bool-cases (c.round ==ℤ vote.round && leb prevote_step c.step)) [
      | inr h ↦ at_prevote h (ltb c.step prevote_step) (is_some c.proposal) refl refl
      | inl h ↦ elim (Bool-cases (two_thirds_majority (prevotes_of votes (pos k))).1) [
        | inl p ↦ at_precommit h p
        | inr p ↦ elim (Bool-cases any) [ inl a ↦ at_wait h p a | inr a ↦ at_nothing h p a ]
      ]
    ]

  pub after_prevote-Ends : Finishes after_it
  after_prevote-Ends = elim (Bool-cases (ltb_ℤ c.round vote.round && any)) [
    | inl e ↦ jump e
    | inr e ↦ stays_here e
  ]

-- The prevote is stored already.
pub handle_prevote-Ends :
    (env : Env) (members : List PubKey) {c : Core} {votes : HeightVoteSet} {m n k : ℕ}
    (rvs : RoundVoteSet) (vote : Vote)
    → IsWithin env members c votes m n
    → IsCounted votes
    → ((r : ℕ) → n < r → r ≢ k → (polka_of votes (pos r)).1 ≡ false)
    → k < 9223372036854775806
    → IsCommittee (validators_of env c) members
    → lookup (pos k) votes.round_vote_sets ≡ some rvs
    → vote.round ≡ pos k
    → (c' : Core) × (handle_prevote env c vote votes ≡ done c') × Stays env members c c'
unfolding handle_prevote
handle_prevote-Ends env members {c} {votes} {m} {n} {k} rvs vote w counted others fits comm found
      at =
    let c2 = apply_polka c vote (polka_of votes vote.round) in
    let kept = apply_polka-KeepsRound c vote (polka_of votes vote.round) in
    let comm2 : IsCommittee (validators_of env c2) members =
      IsCommittee-after env members c c2 kept.committed comm in
    let (c', run, st) =
      after_prevote-Ends env members (kept-IsWithin kept w) counted others fits comm2 rvs found vote
        at in
    (
      c',
      ap (λ r. after_prevote env c2 vote (prevotes_of votes r)) at ∙ run,
      record {
        sound = st.sound;
        height = st.height ∙ kept.height;
        later = not_before_trans c c2 c' (kept-not_before c c2 kept) st.later;
        committed = st.committed ∙ kept.committed;
      },
    )
