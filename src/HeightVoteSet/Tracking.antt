-- ===== src/HeightVoteSet/Tracking.antt =====
-- `SetRound` and `POLInfo` (height_vote_set.go): which rounds are tracked, and the last majority.
use gobft.Base.{
  ℕ, zero, suc, ◌+◌, ◌-◌, ◌≤◌, ◌<◌, ◌≡◌, refl, sym, ap, ◌∙◌, subst, ◌⊎◌, inl, inr, ℤ, pos, negsuc,
  pos_part, ◌-ℤ◌, ◌==ℤ◌, ==_iff, ltb_ℤ, int64_add, Bool, true, false, not, ◌&&◌, some, List, ◌==◌,
  if◌then◌else◌, lookup, int_key, done, arith, Bool-cases,
}
use native.Mathlib.Decide.{dec_le}
use gobft.Message.{PubKey, ProposedData, nil_data}
use gobft.Committee.{Validators}
use gobft.VoteSet.{two_thirds_majority}
use gobft.HeightVoteSet.{
  HeightVoteSet, RoundVoteSet, add_rounds, set_round, prevotes_of, pol_below, pol_info, rounds_upto,
}
use gobft.HeightVoteSet.Rounds.{IsHeightValid, add_rounds-Grown}

-- Every round from 0 up to the tracked one has its vote sets.
pub record Tracks (hvs : HeightVoteSet) (m : ℕ) : Type 0 where
  pub at_round : hvs.round ≡ pos m
  pub present :
      (k : ℕ) → k ≤ m → (rvs : RoundVoteSet) × (lookup (pos k) hvs.round_vote_sets ≡ some rvs)

sub_pos : (m n : ℕ) → pos_part (pos n -ℤ pos m) ≡ n - m
unfolding ◌-ℤ◌
sub_pos m n = ground arith

-- The test of `SetRound` passes.
moves_on :
    (m n : ℕ)
    → (m ≡ 0) ⊎ (m < n)
    → not (not (pos m ==ℤ pos 0) && ltb_ℤ (pos n) (pos (m + 1))) ≡ true
moves_on m n later = ground arith

set_round-run :
    (hvs grown : HeightVoteSet) (m n : ℕ)
    → (m ≡ 0) ⊎ (m < n)
    → n < 9223372036854775807
    → hvs.round ≡ pos m
    → add_rounds (n - m) (pos (m + 1)) hvs ≡ done grown
    → set_round hvs (pos n) ≡ done (record grown { round = pos n })
unfolding set_round
set_round-run hvs grown m n later fit e run =
    simp (e, sub_pos m n, int64_add m 1 (omega arith), moves_on m n later, run)

-- `SetRound` from round m to round n, where m is 0 or n is later, on vote sets that are valid and
-- tracked up to m, does not panic, as long as 64 bits hold n + 1. It then tracks the rounds up to
-- n, every vote set that was there is kept as it was, and all of them are valid.
pub set_round-Tracks :
    (vals : Validators) (members : List PubKey) (hvs : HeightVoteSet) (m n : ℕ)
    → (m ≡ 0) ⊎ (m < n)
    → n < 9223372036854775807
    → IsHeightValid vals members hvs
    → Tracks hvs m
    → (hvs' : HeightVoteSet) × (set_round hvs (pos n) ≡ done hvs')
      × IsHeightValid vals members hvs'
      × Tracks hvs' n
      × ((k : ℤ) (rvs : RoundVoteSet)
          → lookup k hvs.round_vote_sets ≡ some rvs
          → lookup k hvs'.round_vote_sets ≡ some rvs)
      × (hvs'.height ≡ hvs.height)
      × (hvs'.base ≡ hvs.base)
set_round-Tracks vals members hvs m n later fit valid t =
    let (grown, run, valid', g) =
      add_rounds-Grown vals members (n - m) (m + 1) hvs (omega arith) valid in
    (
      record grown { round = pos n },
      set_round-run hvs grown m n later fit t.at_round run,
      record { has_height = valid'.has_height; rounds = valid'.rounds },
      record {
        at_round = refl;
        present = λ k le. elim (dec_le k m) [
          | yes old ↦ let (rvs, e) = t.present k old in (rvs, g.kept (pos k) rvs e)
          | no new ↦ g.made k (omega arith) (omega arith)
        ];
      },
      g.kept,
      g.same_height,
      g.same_base,
    )

-- The last round below a bound with a majority of prevotes, by `TwoThirdsMajority`.
pub data LastPolka (hvs : HeightVoteSet) (n : ℕ) (result : ℤ × ProposedData) : Type 0 where
  found :
      (r : ℕ) (d : ProposedData)
      → result ≡ (pos r, d)
      → r < n
      → two_thirds_majority (prevotes_of hvs (pos r)) ≡ (d, true)
      → ((k : ℕ) → r < k → k < n → (two_thirds_majority (prevotes_of hvs (pos k))).1 ≡ false)
      → LastPolka hvs n result
  missing :
      result ≡ (negsuc 0, nil_data)
      → ((k : ℕ) → k < n → (two_thirds_majority (prevotes_of hvs (pos k))).1 ≡ false)
      → LastPolka hvs n result

none_at :
    (hvs : HeightVoteSet) (n k : ℕ)
    → (two_thirds_majority (prevotes_of hvs (pos n))).1 ≡ false
    → ((j : ℕ) → j < n → (two_thirds_majority (prevotes_of hvs (pos j))).1 ≡ false)
    → k < suc n
    → (two_thirds_majority (prevotes_of hvs (pos k))).1 ≡ false
none_at hvs n k here below lt = elim (Bool-cases (k == n)) [
  | inl e ↦ ap (λ j. (two_thirds_majority (prevotes_of hvs (pos j))).1) ((==_iff k n).0 e) ∙ here
  | inr e ↦ below k (ground arith)
]

-- One more round, whose majority is `polka`.
last_step :
    (hvs : HeightVoteSet) (n : ℕ) (polka : ProposedData × Bool) {rest : ℤ × ProposedData}
    → two_thirds_majority (prevotes_of hvs (pos n)) ≡ polka
    → LastPolka hvs n rest
    → LastPolka hvs (suc n) (if polka.1 then (pos n, polka.0) else rest)
last_step hvs n (d, true) e last =
    LastPolka.found n d refl (omega arith) e (λ k lo hi. absurd (omega arith))
last_step hvs n (d, false) e (LastPolka.found r d' same lt polka none_later) =
    LastPolka.found r d' same (omega arith) polka (λ k lo hi. elim (Bool-cases (k == n)) [
      | inl at ↦
          ap (λ j. (two_thirds_majority (prevotes_of hvs (pos j))).1) ((==_iff k n).0 at)
          ∙ ap (λ (p : ProposedData × Bool). p.1) e
      | inr other ↦ none_later k lo (ground arith)
    ])
last_step hvs n (d, false) e (LastPolka.missing same none_below) =
    LastPolka.missing same
      (λ k lt. none_at hvs n k (ap (λ (p : ProposedData × Bool). p.1) e) none_below lt)

pol_below-LastPolka : (hvs : HeightVoteSet) (n : ℕ) → LastPolka hvs n (pol_below hvs n)
unfolding pol_below
pol_below-LastPolka hvs zero = LastPolka.missing refl (λ k lt. elim lt [ ])
pol_below-LastPolka hvs (suc n) =
    last_step hvs n (two_thirds_majority (prevotes_of hvs (pos n))) refl (pol_below-LastPolka hvs n)

-- `POLInfo` returns the last tracked round in which some data has a majority of prevotes, with that
-- data; and -1 and nil exactly if no tracked round has one.
pub pol_info_lem :
    (hvs : HeightVoteSet) (m : ℕ) → hvs.round ≡ pos m → LastPolka hvs (suc m) (pol_info hvs)
unfolding pol_info
pol_info_lem hvs m e =
    subst (λ n. LastPolka hvs (suc m) (pol_below hvs n)) (sym (ap rounds_upto e))
      (pol_below-LastPolka hvs (suc m))
