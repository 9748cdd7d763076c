-- ===== src/Core/Within.antt =====
-- What holds of a core within a height (bftcore.go), between the handling of two messages.
use gobft.Base.{
  ℕ, ◌+◌, ◌<◌, ◌≡◌, sym, ap, ap₂, arith, ltb_ℤ, ◌==ℤ◌, ==ℤ_iff, Bool, ◌||◌, ◌&&◌, ◌∙◌, subst, ◌⊎◌,
  inl, inr, ℤ, pos, leb_ℤ, is_some, leb, List, true, false, Option, some,
}
use gobft.Message.{PubKey, Vote}
use gobft.Weights.{IsCommittee}
use gobft.HeightVoteSet.{HeightVoteSet}
use gobft.HeightVoteSet.Rounds.{IsHeightValid}
use gobft.HeightVoteSet.Tracking.{Tracks}
use gobft.HeightVoteSet.Polkas.{polka_of, IsCounted}
use gobft.Core.State.{Core, Env, RoundStepType, validators_of, new_height, propose_step}
use gobft.Core.Rounds.{SameHeight, IsInRound}

-- A step that the core can be at between two messages: waiting for a height, or past the start of a round.
abbrev pub IsRealStep : RoundStepType → Type 0
IsRealStep step = (step ≡ new_height) ⊎ (leb propose_step step ≡ true)

-- The core is in round n of a height whose votes are valid and track the rounds up to m: round 0 alone
-- until a round is entered by `enterNewRound`, and one round more than the core's from then on. A real
-- locked round comes with a locked proposal.
pub record IsWithin (env : Env) (members : List PubKey) (c : Core) (votes : HeightVoteSet) (m n : ℕ)
    : Type 0 where
  pub has_votes : c.votes ≡ some votes
  pub valid : IsHeightValid (validators_of env c) members votes
  pub tracks : Tracks votes m
  pub in_round : c.round ≡ pos n
  pub one_ahead : ((m ≡ 0) × (n ≡ 0)) ⊎ ((m ≡ n + 1) × (leb propose_step c.step ≡ true))
  pub real_step : IsRealStep c.step
  pub whole_lock : leb_ℤ (pos 0) c.locked_round ≡ true → is_some c.locked_proposal ≡ true

-- No round after this one has a majority of prevotes.
abbrev pub NoPolkaAfter : HeightVoteSet → ℕ → Type 0
NoPolkaAfter votes n = (r : ℕ) → n < r → (polka_of votes (pos r)).1 ≡ false

-- All that holds of the core between two messages, in a round n of its height.
pub record IsSound (env : Env) (members : List PubKey) (c : Core) : Type 0 where
  pub votes : HeightVoteSet
  pub m : ℕ
  pub n : ℕ
  pub within : IsWithin env members c votes m n
  pub no_polka : NoPolkaAfter votes n
  pub counted : IsCounted votes

-- A later round, or the same one at the same step or a later one.
abbrev pub not_before : Core → Core → Bool
not_before c c' = ltb_ℤ c.round c'.round || (c.round ==ℤ c'.round && leb c.step c'.step)

-- The core stays within its height, and does not go back.
pub record Stays (env : Env) (members : List PubKey) (c c' : Core) : Type 0 where
  pub sound : IsSound env members c'
  pub height : c'.height ≡ c.height
  pub later : not_before c c' ≡ true
  pub committed : c'.committed ≡ c.committed

pub not_before_trans :
    (a b c : Core) → not_before a b ≡ true → not_before b c ≡ true → not_before a c ≡ true
not_before_trans a b c h k = ground (arith, h, k)

pub in_same_round :
    (c c' : Core) → c'.round ≡ c.round → leb c.step c'.step ≡ true → not_before c c' ≡ true
in_same_round c c' e le =
    let same : (c.round ==ℤ c'.round) ≡ true = (==ℤ_iff c.round c'.round).1 (sym e) in
    ground (arith, same, le)

pub in_later_round :
    (c c' : Core) (n k : ℕ) → c.round ≡ pos n → c'.round ≡ pos k → n < k → not_before c c' ≡ true
in_later_round c c' n k at at' lt =
    let late : ltb_ℤ c.round c'.round ≡ true = ap₂ ltb_ℤ at at' ∙ ground (arith, lt) in
    ground (arith, late)

pub not_before_refl : (c : Core) → not_before c c ≡ true
not_before_refl c = ground arith

pub Stays-trans :
    {env : Env} {members : List PubKey} {a b c : Core}
    → Stays env members a b
    → Stays env members b c
    → Stays env members a c
Stays-trans {env} {members} {a} {b} {c} p q = record {
  sound = q.sound;
  height = q.height ∙ p.height;
  later = not_before_trans a b c p.later q.later;
  committed = q.committed ∙ p.committed;
}

-- The committee depends on the commits only.
pub valid_after :
    (env : Env) (members : List PubKey) (c c' : Core) {votes : HeightVoteSet}
    → c'.committed ≡ c.committed
    → IsHeightValid (validators_of env c) members votes
    → IsHeightValid (validators_of env c') members votes
valid_after env members c c' {votes} e =
    subst
      (λ x.
        IsHeightValid
          (record { committee = env.committee x; priv_val = env.priv_val; hashing = env.hashing })
          members votes)
      (sym e)

pub IsCommittee-after :
    (env : Env) (members : List PubKey) (c c' : Core)
    → c'.committed ≡ c.committed
    → IsCommittee (validators_of env c) members
    → IsCommittee (validators_of env c') members
IsCommittee-after env members c c' e =
    subst
      (λ x.
        IsCommittee
          (record { committee = env.committee x; priv_val = env.priv_val; hashing = env.hashing })
          members)
      (sym e)

module _ {env : Env} {members : List PubKey} {c : Core} {votes : HeightVoteSet} {m n : ℕ} where
  -- Only the round's step, what is sent and scheduled, and what else the invariant does not read.
  pub moved-IsWithin :
      {c' : Core}
      → SameHeight c c'
      → IsInRound c' (pos n)
      → IsWithin env members c votes m n
      → IsWithin env members c' votes m n
  moved-IsWithin {c'} s here w = record {
    has_votes = s.votes ∙ w.has_votes;
    valid = valid_after env members c c' s.committed w.valid;
    tracks = w.tracks;
    in_round = here.at_round;
    one_ahead = elim w.one_ahead [ inl e ↦ inl e | inr (e, p) ↦ inr (e, here.past_propose) ];
    real_step = inr here.past_propose;
    whole_lock = λ r.
        ap is_some s.locked_proposal ∙ w.whole_lock (ap (leb_ℤ (pos 0)) (sym s.locked_round) ∙ r);
  }

  -- Another lock, which is whole.
  pub relocked-IsWithin :
      (r : ℤ) (locked : Option Vote)
      → (leb_ℤ (pos 0) r ≡ true → is_some locked ≡ true)
      → IsWithin env members c votes m n
      → IsWithin env members (record c { locked_round = r; locked_proposal = locked }) votes m n
  relocked-IsWithin r locked whole w = record {
    has_votes = w.has_votes;
    valid = w.valid;
    tracks = w.tracks;
    in_round = w.in_round;
    one_ahead = w.one_ahead;
    real_step = w.real_step;
    whole_lock = whole;
  }
