-- ===== src/Base/Panics.antt =====
-- A call that returns, or that panics: by `PanicSanity`, or by a nil dereference.
use mathlib.Core.Path.{◌≡◌, refl, ap}
use mathlib.Core.Logic.{◌⊎◌, inl, inr}
use mathlib.Core.Bool.{Bool, true, false}
use mathlib.Core.Option.{Option, none, some}

pub data Outcome {ℓ} (A : Type ℓ) : Type ℓ where
  done : A → Outcome A
  panic : Outcome A

infixl 5 ◌>>=◌ ◌>>◌
abbrev pub ◌>>=◌ {ℓ κ} : {A : Type ℓ} {B : Type κ} → Outcome A → (A → Outcome B) → Outcome B
done a >>= f = f a
panic >>= f = panic

abbrev pub ◌>>◌ {ℓ} : {B : Type ℓ} → Outcome (Unit {0}) → Outcome B → Outcome B
m >> k = m >>= λ _. k

-- A dereference.
abbrev pub deref {ℓ} : {A : Type ℓ} → Option A → Outcome A
deref none = panic
deref (some a) = done a

-- A sanity check.
abbrev pub sane : Bool → Outcome (Unit {0})
sane true = done tt
sane false = panic

pub Outcome-cases {ℓ} : {A : Type ℓ} (m : Outcome A) → (m ≡ panic) ⊎ ((a : A) × (m ≡ done a))
Outcome-cases panic = inl refl
Outcome-cases (done a) = inr (a, refl)

pub >>=-eq-done {ℓ κ} :
    {A : Type ℓ} {B : Type κ} (m : Outcome A) (f : A → Outcome B) {b : B}
    → (m >>= f) ≡ done b
    → (a : A) × (m ≡ done a) × (f a ≡ done b)
>>=-eq-done (done a) f h = (a, refl, h)
>>=-eq-done panic f h = cc

-- A call that returns hands its result on.
pub >>=-run {ℓ κ} :
    {A : Type ℓ} {B : Type κ} (m : Outcome A) (f : A → Outcome B) {a : A}
    → m ≡ done a
    → (m >>= f) ≡ f a
>>=-run m f h = ap (λ x. x >>= f) h

pub done_injective {ℓ} : {A : Type ℓ} {a b : A} → ◌≡◌ {A = Outcome A} (done a) (done b) → a ≡ b
done_injective {A} {a} h = ap (λ o. elim o [ done x ↦ x | panic ↦ a ]) h

pub panic≢done {ℓ} : {A : Type ℓ} {a : A} → ◌≡◌ {A = Outcome A} panic (done a) → ⊥
panic≢done h = cc

pub sane-eq-done {ℓ} :
    {B : Type ℓ} (b : Bool) (k : Outcome B) {x : B}
    → (sane b >> k) ≡ done x
    → (b ≡ true) × (k ≡ done x)
sane-eq-done true k h = (refl, h)
sane-eq-done false k h = cc
