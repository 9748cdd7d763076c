-- ===== src/HeightVoteSet/Rounds.antt =====
-- What holds of the vote sets of a height (height_vote_set.go), and the rounds that `SetRound` makes.
use gobft.Base.{
  ℕ, zero, suc, ◌+◌, ◌≤◌, ◌<◌, ◌≡◌, refl, sym, ap, ◌∙◌, subst₂, ◌≢◌, inl, inr, ℤ, pos, ◌==ℤ◌,
  ==ℤ_iff, int64_add, ==_iff, Option, none, some, List, [], ◌==◌, lookup, insert, lookup-insert,
  int_key, done, arith, Bool-cases, Option-cases,
}
use gobft.Message.{PubKey, ProposedData, VoteType, nil_data, prevote_type, precommit_type}
use gobft.Committee.{Validators}
use gobft.Weights.{power_of, weight-none}
use gobft.VoteSet.{VoteSet, new_vote_set, get_vote}
use gobft.VoteSet.Invariant.{IsValid, tally}
use gobft.VoteSet.Evidence.{IsTidy}
use gobft.HeightVoteSet.{HeightVoteSet, RoundVoteSet, add_round, add_rounds}

-- An empty vote set.
abbrev pub fresh_set : ℤ → ℤ → VoteType → ProposedData → VoteSet
fresh_set height round type_ base = record {
  height = height;
  round = round;
  type_ = type_;
  base = base;
  sum = pos 0;
  distinct_voter = 0;
  minor_quorum = nil_data;
  maj23 = nil_data;
  votes_by_proposed_data = [];
}

abbrev pub fresh_round : HeightVoteSet → ℤ → RoundVoteSet
fresh_round hvs round = record {
  prevotes = fresh_set hvs.height round prevote_type hvs.base;
  precommits = fresh_set hvs.height round precommit_type hvs.base;
}

-- A valid vote set of this height, round, type and base.
pub record IsSetFor (vals : Validators) (members : List PubKey) (height : ℤ) (base : ProposedData)
    (round : ℤ) (type_ : VoteType) (vs : VoteSet) : Type 0 where
  pub valid : IsValid vals members vs
  pub tidy : IsTidy vs
  pub same_height : vs.height ≡ height
  pub same_round : vs.round ≡ round
  pub same_type : vs.type_ ≡ type_
  pub same_base : vs.base ≡ base

pub record IsRoundOf (vals : Validators) (members : List PubKey) (height : ℤ) (base : ProposedData)
    (round : ℤ) (rvs : RoundVoteSet) : Type 0 where
  pub prevotes : IsSetFor vals members height base round prevote_type rvs.prevotes
  pub precommits : IsSetFor vals members height base round precommit_type rvs.precommits

pub record IsHeightValid (vals : Validators) (members : List PubKey) (hvs : HeightVoteSet)
    : Type 0 where
  pub has_height : hvs.height ≢ pos 0
  pub rounds :
      (round : ℤ) (rvs : RoundVoteSet)
      → lookup round hvs.round_vote_sets ≡ some rvs
      → IsRoundOf vals members hvs.height hvs.base round rvs

module _ (vals : Validators) (members : List PubKey) where
  pub fresh_set-IsSetFor :
      (height : ℤ) (base : ProposedData) (round : ℤ) (type_ : VoteType)
      → IsSetFor vals members height base round type_ (fresh_set height round type_ base)
  unfolding get_vote lookup tally
  fresh_set-IsSetFor height base round type_ = record {
    valid = record {
      recorded = λ d a v e. cc;
      sums = λ d. ap pos (sym (weight-none (power_of vals) members));
      sound = λ n. absurd (n refl);
      found = λ d n q. absurd (omega (arith, weight-none (power_of vals) members));
    };
    tidy = λ d. tt;
    same_height = refl;
    same_round = refl;
    same_type = refl;
    same_base = refl;
  }

  pub fresh_round-IsRoundOf :
      (hvs : HeightVoteSet) (round : ℤ)
      → IsRoundOf vals members hvs.height hvs.base round (fresh_round hvs round)
  fresh_round-IsRoundOf hvs round = record {
    prevotes = fresh_set-IsSetFor hvs.height hvs.base round prevote_type;
    precommits = fresh_set-IsSetFor hvs.height hvs.base round precommit_type;
  }

abbrev pub with_round : HeightVoteSet → ℤ → HeightVoteSet
with_round hvs round = record hvs {
  round_vote_sets = insert round (fresh_round hvs round) hvs.round_vote_sets;
}

pub add_round_lem :
    (hvs : HeightVoteSet) (round : ℤ)
    → hvs.height ≢ pos 0
    → lookup round hvs.round_vote_sets ≡ none
    → add_round hvs round ≡ done (with_round hvs round)
unfolding add_round new_vote_set
add_round_lem hvs round h e = ground (arith, ==ℤ_iff hvs.height (pos 0))

abbrev pub write_round : HeightVoteSet → ℤ → RoundVoteSet → HeightVoteSet
write_round hvs round rvs = record hvs { round_vote_sets = insert round rvs hvs.round_vote_sets }

pub write_round-IsHeightValid :
    (vals : Validators) (members : List PubKey) (hvs : HeightVoteSet) (round : ℤ)
    (rvs : RoundVoteSet)
    → IsHeightValid vals members hvs
    → IsRoundOf vals members hvs.height hvs.base round rvs
    → IsHeightValid vals members (write_round hvs round rvs)
write_round-IsHeightValid vals members hvs round rvs valid new = record {
  has_height = valid.has_height;
  rounds = λ r rvs' e. elim (Bool-cases (round ==ℤ r)) [
    | inl hit ↦
        subst₂ (IsRoundOf vals members hvs.height hvs.base) ((==ℤ_iff round r).0 hit)
          (ground (arith, lookup-insert round r rvs hvs.round_vote_sets)) new
    | inr miss ↦ valid.rounds r rvs' (ground (arith, lookup-insert round r rvs hvs.round_vote_sets))
  ];
}

-- Vote sets that hold `n` rounds from `r`, besides all that were there.
pub record Grown (r n : ℕ) (hvs hvs' : HeightVoteSet) : Type 0 where
  pub made :
      (k : ℕ)
      → r ≤ k
      → k < r + n
      → (rvs : RoundVoteSet) × (lookup (pos k) hvs'.round_vote_sets ≡ some rvs)
  pub kept :
      (k : ℤ) (rvs : RoundVoteSet)
      → lookup k hvs.round_vote_sets ≡ some rvs
      → lookup k hvs'.round_vote_sets ≡ some rvs
  pub same_height : hvs'.height ≡ hvs.height
  pub same_base : hvs'.base ≡ hvs.base
  pub same_round : hvs'.round ≡ hvs.round

with_round-keeps :
    (hvs : HeightVoteSet) (r k : ℤ) (rvs : RoundVoteSet)
    → lookup r hvs.round_vote_sets ≡ none
    → lookup k hvs.round_vote_sets ≡ some rvs
    → lookup k (with_round hvs r).round_vote_sets ≡ some rvs
with_round-keeps hvs r k rvs n e = elim (Bool-cases (r ==ℤ k)) [
  | inl hit ↦
      absurd
        (none≢some (sym n ∙ (ap (λ j. lookup j hvs.round_vote_sets) ((==ℤ_iff r k).0 hit) ∙ e)))
  | inr miss ↦ rw (lookup-insert r k (fresh_round hvs r) hvs.round_vote_sets, miss) e
]
  where
    none≢some : ◌≡◌ {A = Option RoundVoteSet} none (some rvs) → ⊥
    none≢some p = cc

with_round-has :
    (hvs : HeightVoteSet) (r : ℤ)
    → lookup r (with_round hvs r).round_vote_sets ≡ some (fresh_round hvs r)
with_round-has hvs r =
    rw (lookup-insert r r (fresh_round hvs r) hvs.round_vote_sets, (==ℤ_iff r r).1 refl)

grow :
    (r n : ℕ) (hvs hvs1 hvs' : HeightVoteSet) (rvs : RoundVoteSet)
    → lookup (pos r) hvs1.round_vote_sets ≡ some rvs
    → ((k : ℤ) (old : RoundVoteSet)
        → lookup k hvs.round_vote_sets ≡ some old
        → lookup k hvs1.round_vote_sets ≡ some old)
    → hvs1.height ≡ hvs.height
    → hvs1.base ≡ hvs.base
    → hvs1.round ≡ hvs.round
    → Grown (r + 1) n hvs1 hvs'
    → Grown r (suc n) hvs hvs'
grow r n hvs hvs1 hvs' rvs has keeps h b ro g = record {
  made = λ k lo hi. elim (Bool-cases (r == k)) [
    | inl hit ↦ (
      rvs,
      ap (λ j. lookup (pos j) hvs'.round_vote_sets) (sym ((==_iff r k).0 hit))
          ∙ g.kept (pos r) rvs has,
    )
    | inr miss ↦ g.made k (ground arith) (omega arith)
  ];
  kept = λ k old e. g.kept k old (keeps k old e);
  same_height = g.same_height ∙ h;
  same_base = g.same_base ∙ b;
  same_round = g.same_round ∙ ro;
}

-- The loop of `SetRound` does not panic; it makes the rounds that are missing, and keeps the others.
pub add_rounds-Grown :
    (vals : Validators) (members : List PubKey) (n r : ℕ) (hvs : HeightVoteSet)
    → r + n < 9223372036854775808
    → IsHeightValid vals members hvs
    → (hvs' : HeightVoteSet) × (add_rounds n (pos r) hvs ≡ done hvs')
      × IsHeightValid vals members hvs'
      × Grown r n hvs hvs'
unfolding add_rounds
add_rounds-Grown vals members zero r hvs fit valid = (
  hvs,
  refl,
  valid,
  record {
    made = λ k lo hi. absurd (omega arith);
    kept = λ k rvs e. e;
    same_height = refl;
    same_base = refl;
    same_round = refl;
  },
)
add_rounds-Grown vals members (suc n) r hvs fit valid =
    elim (Option-cases (lookup (pos r) hvs.round_vote_sets)) [
      | inr (rvs, e) ↦
          let (hvs', run, valid', g) =
            add_rounds-Grown vals members n (r + 1) hvs (omega arith) valid in
          (
            hvs',
            rw (e, add_rounds, int64_add r 1 (omega arith)) run,
            valid',
            grow r n hvs hvs hvs' rvs e (λ k old q. q) refl refl refl g,
          )
      | inl e ↦
          let (hvs', run, valid', g) =
            add_rounds-Grown vals members n (r + 1) (with_round hvs (pos r)) (omega arith) (
              write_round-IsHeightValid vals members hvs (pos r) (fresh_round hvs (pos r)) valid
                (fresh_round-IsRoundOf vals members hvs (pos r))) in
          (
            hvs',
            rw
                (
                  e,
                  add_rounds,
                  add_round_lem hvs (pos r) valid.has_height e,
                  int64_add r 1 (omega arith),
                )
                run,
            valid',
            grow r n hvs (with_round hvs (pos r)) hvs' (fresh_round hvs (pos r))
                (with_round-has hvs (pos r)) (λ k old q. with_round-keeps hvs (pos r) k old e q)
                refl refl refl g,
          )
    ]
