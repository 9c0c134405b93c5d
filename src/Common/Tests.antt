-- ===== src/Common/Tests.antt =====
-- Boolean tests on numbers and texts, the conditional, and decidable equality as an interface.
use Prim.Native.Nat.{ℕ, ◌*◌, ◌≤◌, ◌<◌, compare, Ordering}
use Prim.Native.String.{String}
use mathlib.Core.Path.{◌≡◌, refl}
use mathlib.Core.Logic.{◌↔◌, ◌⊎◌, inl, inr, ◌≢◌}
use mathlib.Core.Bool.{Bool, true, false}
use mathlib.Core.Option.{Option, none, some}
use native.Mathlib.Nat.{mul-le-mul_left}
use native.Mathlib.Omega.{arith}
use text.Mathlib.Text.{◌==◌ as str_eq}
use text.Mathlib.TextEquality.{eq_iff}

abbrev pub ltb : ℕ → ℕ → Bool
ltb a b = elim (compare a b) [ Ordering.lt ↦ true | _ ↦ false ]

abbrev pub leb : ℕ → ℕ → Bool
leb a b = elim (compare a b) [ Ordering.gt ↦ false | _ ↦ true ]

abbrev pub nat_beq : ℕ → ℕ → Bool
nat_beq a b = elim (compare a b) [ Ordering.eq ↦ true | _ ↦ false ]

pub nat_beq_iff : (a b : ℕ) → (nat_beq a b ≡ true) ↔ (a ≡ b)
nat_beq_iff a b = ground arith

infix 1 if◌then◌else◌
abbrev pub if◌then◌else◌ {ℓ} : {A : Type ℓ} → Bool → A → A → A
if true then x else y = x
if false then x else y = y

pub ltb→lt : (a b : ℕ) → ltb a b ≡ true → a < b
ltb→lt a b h = ground arith

pub lt→ltb : (a b : ℕ) → a < b → ltb a b ≡ true
lt→ltb a b h = ground arith

pub ltb-false : (a b : ℕ) → ltb a b ≡ false → b ≤ a
ltb-false a b h = ground arith

pub Bool-cases : (b : Bool) → (b ≡ true) ⊎ (b ≡ false)
Bool-cases true = inl refl
Bool-cases false = inr refl

pub Option-cases {ℓ} : {A : Type ℓ} (o : Option A) → (o ≡ none) ⊎ ((a : A) × (o ≡ some a))
Option-cases none = inl refl
Option-cases (some a) = inr (a, refl)

-- Go's comma-ok test of a map lookup.
abbrev pub is_some {ℓ} : {A : Type ℓ} → Option A → Bool
is_some none = false
is_some (some a) = true

-- Go's constraint `comparable`: the types that have `==`.
pub record Comparable {ℓ} (T : Type ℓ) : Type ℓ where
  pub test : T → T → Bool
  pub test_iff : (x y : T) → (test x y ≡ true) ↔ (x ≡ y)

instance abbrev pub string_comparable : Comparable String
string_comparable = record { test = str_eq; test_iff = eq_iff }

instance abbrev pub nat_comparable : Comparable ℕ
nat_comparable = record { test = nat_beq; test_iff = nat_beq_iff }

infix 50 ◌==◌
abbrev pub ◌==◌ {ℓ} : {T : Type ℓ} ⦃c : Comparable T⦄ → T → T → Bool
◌==◌ ⦃c⦄ x y = c.test x y

module _ {ℓ} {A : Type ℓ} ⦃e : Comparable A⦄ where
  pub beq_refl : (a : A) → (a == a) ≡ true
  beq_refl a = (e.test_iff a a).1 refl

  pub beq_sym : (a b : A) → (a == b) ≡ (b == a)
  beq_sym a b = ground (arith, e.test_iff a b, e.test_iff b a)

  pub beq_false : (a b : A) → a ≢ b → (a == b) ≡ false
  beq_false a b h = ground (arith, e.test_iff a b)

-- A Go pair of a value and an `error`, of which exactly one is meant.
pub data Result {ℓ} (E A : Type ℓ) : Type ℓ where
  ok : A → Result E A
  err : E → Result E A

-- An error ends a chain of steps.
module _ {ℓ} {E A : Type ℓ} where
  infixl 5 ◌>>◌ ◌>>=◌
  abbrev pub ◌>>=◌ : {B : Type ℓ} → Result E A → (A → Result E B) → Result E B
  err why >>= next = err why
  ok value >>= next = next value

  pub Result-cases : (r : Result E A) → ((why : E) × (r ≡ err why)) ⊎ ((value : A) × (r ≡ ok value))
  Result-cases (err why) = inl (why, refl)
  Result-cases (ok value) = inr (value, refl)

  -- The next step alone decides, if there was no error.
  abbrev pub ◌>>◌ : {B : Type ℓ} → Result E A → Result E B → Result E B
  step >> next = step >>= λ _. next

  -- What a chain that succeeds went through.
  pub >>=-eq-ok :
      {B : Type ℓ} {b : B} (r : Result E A) (next : A → Result E B)
      → (r >>= next) ≡ ok b
      → (value : A) × (r ≡ ok value) × (next value ≡ ok b)
  >>=-eq-ok (err why) next e = cc
  >>=-eq-ok (ok value) next e = (value, refl, e)

pub le-mul : (a b : ℕ) → 0 < b → a ≤ a * b
le-mul a b h = omega (arith, mul-le-mul_left {m = 1} {n = b} a h)
