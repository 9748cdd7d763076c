-- ===== src/Weights.antt =====
-- Voting power as the code's documents speak of it: the committee of a height, and the power of the
-- members that satisfy a test. Nothing here models code; the vote sets are measured by it.
use gobft.Base.{
  All-map, Bool-cases, inl, inr, ◌≢◌, sym, ◌∙◌, ℕ, ◌+◌, ◌*◌, ◌≤◌, ◌<◌, ◌≡◌, refl, ap, Bool, true,
  false, ◌&&◌, ◌||◌, List, [], ◌∷◌, All, Distinct, ◌==◌, if◌then◌else◌, pos, pos_part, none, ==_iff,
  arith,
}
use gobft.Message.{PubKey}
use gobft.Committee.{Validators, get_voting_power, get_total_voting_power}

unfoldable pub elem : PubKey → List PubKey → Bool
elem a [] = false
elem a (m ∷ ms) = m == a || elem a ms

-- The power of the members of the list that pass the test.
unfoldable pub weight : (PubKey → ℕ) → (PubKey → Bool) → List PubKey → ℕ
weight power p [] = 0
weight power p (m ∷ ms) = (if p m then power m else 0) + weight power p ms

abbrev pub everyone : PubKey → Bool
everyone a = true

module _ (power : PubKey → ℕ) where
  pub weight-cong :
      (p q : PubKey → Bool) (ms : List PubKey)
      → ((a : PubKey) → p a ≡ q a)
      → weight power p ms ≡ weight power q ms
  unfolding weight
  weight-cong p q [] h = refl
  weight-cong p q (m ∷ ms) h = ground (arith, h m, weight-cong p q ms h)

  pub weight_mono :
      (p q : PubKey → Bool) (ms : List PubKey)
      → ((a : PubKey) → p a ≡ true → q a ≡ true)
      → weight power p ms ≤ weight power q ms
  unfolding weight
  weight_mono p q [] h = omega arith
  weight_mono p q (m ∷ ms) h = ground (arith, h m, weight_mono p q ms h)

  -- Two sets of members that are large enough share members.
  pub weight-overlap :
      (p q : PubKey → Bool) (ms : List PubKey)
      → weight power p ms + weight power q ms
        ≤ weight power everyone ms + weight power (λ a. p a && q a) ms
  unfolding weight
  weight-overlap p q [] = omega arith
  weight-overlap p q (m ∷ ms) = ground (arith, weight-overlap p q ms)

  pub weight-none : (ms : List PubKey) → weight power (λ a. false) ms ≡ 0
  unfolding weight
  weight-none [] = refl
  weight-none (m ∷ ms) = omega (arith, weight-none ms)

  weight-same :
      (p q : PubKey → Bool) (a : PubKey) (ms : List PubKey)
      → ((b : PubKey) → q b ≡ (b == a || p b))
      → All (λ b. b ≡ a → ⊥) ms
      → weight power q ms ≡ weight power p ms
  unfolding weight
  weight-same p q a [] h n = refl
  weight-same p q a (m ∷ ms) h n = ground (arith, h m, n.0, weight-same p q a ms h n.1)

  -- One more member adds its power.
  pub weight-insert :
      (p q : PubKey → Bool) (a : PubKey) (ms : List PubKey)
      → ((b : PubKey) → q b ≡ (b == a || p b))
      → p a ≡ false
      → Distinct ms
      → elem a ms ≡ true
      → weight power q ms ≡ power a + weight power p ms
  unfolding weight elem
  weight-insert p q a [] h new d e = cc
  weight-insert p q a (m ∷ ms) h new d e = elim (Bool-cases (m == a)) [
    | inl hit ↦
        let same : m ≡ a = (==_iff m a).0 hit in
        let others : All (λ b. b ≡ a → ⊥) ms =
          All-map (λ b. b ≢ m) (λ b. b ≡ a → ⊥) ms (λ b n r. n (r ∙ sym same)) d.0 in
        ground (arith, h m, weight-same p q a ms h others, ap p same, ap power same)
    | inr miss ↦ ground (arith, h m, weight-insert p q a ms h new d.1)
  ]

abbrev pub power_of : Validators → PubKey → ℕ
power_of vals a = pos_part (get_voting_power vals a)

-- A committee as its interface documents it: finitely many validators, with powers that are not
-- negative, and a total that is their sum, twice which 64 bits hold.
pub record IsCommittee (vals : Validators) (members : List PubKey) : Type 0 where
  pub distinct : Distinct members
  pub complete : (a : PubKey) → elem a members ≡ false → vals.committee.get_validator a ≡ none
  pub powers : (a : PubKey) → get_voting_power vals a ≡ pos (power_of vals a)
  pub total : get_total_voting_power vals ≡ pos (weight (power_of vals) everyone members)
  pub small : 2 * weight (power_of vals) everyone members < 9223372036854775808
