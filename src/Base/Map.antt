-- ===== src/Base/Map.antt =====
-- Go maps as association lists, newest key last. The keys are numbers or integers, so the test on
-- keys is an instance.
use Prim.Native.Nat.{ℕ}
use mathlib.Core.Path.{◌≡◌, refl, sym, ◌∙◌}
use mathlib.Core.Logic.{◌↔◌, ◌≢◌, inl, inr}
use mathlib.Core.Bool.{Bool, true}
use mathlib.Core.List.{List, [], ◌∷◌}
use mathlib.Core.Option.{Option, none, some}
use native.Mathlib.Omega.{arith}
use gobft.Base.Lists.{All, Distinct}
use gobft.Base.Tests.{Bool-cases, ◌==◌, ==_iff, if◌then◌else◌}
use gobft.Base.Int.{ℤ, ◌==ℤ◌, ==ℤ_iff}

pub record Key {ℓ} (K : Type ℓ) : Type ℓ where
  pub beq : K → K → Bool
  pub beq_iff : (a b : K) → (beq a b ≡ true) ↔ (a ≡ b)

instance abbrev pub nat_key : Key ℕ
nat_key = record { beq = ◌==◌; beq_iff = ==_iff }

instance abbrev pub int_key : Key ℤ
int_key = record { beq = ◌==ℤ◌; beq_iff = ==ℤ_iff }

module _ {ℓ κ} {K : Type ℓ} {V : Type κ} ⦃key : Key K⦄ where
  -- `m[k]` with its `ok`.
  unfoldable pub lookup : K → List (K × V) → Option V
  lookup k [] = none
  lookup k ((j, v) ∷ m) = if key.beq j k then some v else lookup k m

  -- `m[k] = v`
  unfoldable pub insert : K → V → List (K × V) → List (K × V)
  insert k v [] = (k, v) ∷ []
  insert k v ((j, w) ∷ m) = if key.beq j k then (k, v) ∷ m else (j, w) ∷ insert k v m

  -- `delete(m, k)`
  unfoldable pub erase : K → List (K × V) → List (K × V)
  erase k [] = []
  erase k ((j, w) ∷ m) = if key.beq j k then erase k m else (j, w) ∷ erase k m

  pub lookup-insert :
      (k j : K) (v : V) (m : List (K × V))
      → lookup j (insert k v m) ≡ (if key.beq k j then some v else lookup j m)
  unfolding lookup insert
  lookup-insert k j v [] = refl
  lookup-insert k j v ((i, w) ∷ m) =
      ground (arith, key.beq_iff k j, key.beq_iff i k, key.beq_iff i j, lookup-insert k j v m)

  pub lookup-erase :
      (k j : K) (m : List (K × V))
      → lookup j (erase k m) ≡ (if key.beq k j then none else lookup j m)
  unfolding lookup erase
  lookup-erase k j [] = ground arith
  lookup-erase k j ((i, w) ∷ m) =
      ground (arith, key.beq_iff k j, key.beq_iff i k, key.beq_iff i j, lookup-erase k j m)

  abbrev pub keys : List (K × V) → List K
  keys [] = []
  keys ((k, v) ∷ m) = k ∷ keys m

  insert-keys_ne :
      (k j : K) (v : V) (m : List (K × V))
      → k ≢ j
      → All (λ i. i ≢ j) (keys m)
      → All (λ i. i ≢ j) (keys (insert k v m))
  unfolding insert
  insert-keys_ne k j v [] n h = (n, tt)
  insert-keys_ne k j v ((i, w) ∷ m) n h = elim (Bool-cases (key.beq i k)) [
    | inl hit ↦ rw hit (n, h.1)
    | inr miss ↦ rw miss (h.0, insert-keys_ne k j v m n h.1)
  ]

  pub insert-Distinct :
      (k : K) (v : V) (m : List (K × V)) → Distinct (keys m) → Distinct (keys (insert k v m))
  unfolding insert
  insert-Distinct k v [] d = (tt, tt)
  insert-Distinct k v ((i, w) ∷ m) d = elim (Bool-cases (key.beq i k)) [
    | inl hit ↦ rw (hit, ← (key.beq_iff i k).0 hit) d
    | inr miss ↦ rw miss (
      insert-keys_ne k i v m (λ e. cc ((key.beq_iff i k).1 (sym e))) d.0,
      insert-Distinct k v m d.1,
    )
  ]

  lookup-cons_ne : (k j : K) (w : V) (m : List (K × V)) → k ≢ j → lookup k ((j, w) ∷ m) ≡ lookup k m
  unfolding lookup
  lookup-cons_ne k j w m n = elim (Bool-cases (key.beq j k)) [
    | inl hit ↦ absurd (n (sym ((key.beq_iff j k).0 hit)))
    | inr miss ↦ rw miss
  ]

  -- Every pair of a map is what its key is mapped to.
  abbrev pub Stored : List (K × V) → K × V → Type κ
  Stored m entry = lookup entry.0 m ≡ some entry.1

  Stored-cons :
      (j : K) (w : V) (m rest : List (K × V))
      → All (λ i. i ≢ j) (keys rest)
      → All (Stored m) rest
      → All (Stored ((j, w) ∷ m)) rest
  Stored-cons j w m [] n h = tt
  Stored-cons j w m ((k, v) ∷ rest) n h =
      (lookup-cons_ne k j w m n.0 ∙ h.0, Stored-cons j w m rest n.1 h.1)

  pub All-Stored : (m : List (K × V)) → Distinct (keys m) → All (Stored m) m
  unfolding lookup
  All-Stored [] d = tt
  All-Stored ((k, v) ∷ m) d =
      (rw ((key.beq_iff k k).1 refl), Stored-cons k v m m d.0 (All-Stored m d.1))

  pub insert-insert :
      (k : K) (v w : V) (m : List (K × V)) → insert k v (insert k w m) ≡ insert k v m
  unfolding insert
  insert-insert k v w [] = rw ((key.beq_iff k k).1 refl)
  insert-insert k v w ((i, x) ∷ m) = elim (Bool-cases (key.beq i k)) [
    | inl hit ↦ rw (hit, (key.beq_iff k k).1 refl)
    | inr miss ↦ rw (miss, miss, insert-insert k v w m)
  ]
