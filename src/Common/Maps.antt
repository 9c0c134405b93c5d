-- ===== src/Common/Maps.antt =====
-- Go maps as association lists: a write keeps the place of the key or appends, `delete` drops it.
-- The order of the list stands for Go's unspecified order of iteration.
use Prim.Native.Nat.{◌+◌}
use mathlib.Core.Path.{◌≡◌, refl}
use mathlib.Core.Bool.{Bool}
use mathlib.Core.List.{List, [], ◌∷◌}
use mathlib.Core.Option.{Option, none, some}
use native.Mathlib.Omega.{arith}
use llm_d_inference_sim.Common.Tests.{Comparable, ◌==◌, if◌then◌else◌, is_some, beq_sym}
use llm_d_inference_sim.Common.Lists.{length}

abbrev pub Map {ℓ κ} : Type ℓ → Type κ → Type (ℓ ⊔ κ)
Map Key Val = List (Key × Val)

module _ {ℓ κ} {Key : Type ℓ} {Val : Type κ} ⦃e : Comparable Key⦄ where
  unfoldable pub lookup : Key → Map Key Val → Option Val
  lookup k [] = none
  lookup k ((key, v) ∷ rest) = if key == k then some v else lookup k rest

  unfoldable pub insert : Key → Val → Map Key Val → Map Key Val
  insert k v [] = (k, v) ∷ []
  insert k v ((key, val) ∷ rest) =
      if key == k then (key, v) ∷ rest else (key, val) ∷ insert k v rest

  unfoldable pub erase : Key → Map Key Val → Map Key Val
  erase k [] = []
  erase k ((key, val) ∷ rest) = if key == k then rest else (key, val) ∷ erase k rest

  -- Each key at most once.
  abbrev pub IsMap : Map Key Val → Type κ
  IsMap [] = Unit
  IsMap ((k, v) ∷ m) = (lookup k m ≡ none) × IsMap m

  -- The test of `v, exists := m[k]`.
  abbrev pub has : Key → Map Key Val → Bool
  has k m = is_some (lookup k m)

  -- `m[k]`, with the zero value of the type for a missing key.
  abbrev pub get_or : Key → Val → Map Key Val → Val
  get_or k d m = elim (lookup k m) [ none ↦ d | some v ↦ v ]

  pub lookup-insert :
      (k j : Key) (v : Val) (m : Map Key Val)
      → lookup j (insert k v m) ≡ (if k == j then some v else lookup j m)
  unfolding lookup insert
  lookup-insert k j v [] = refl
  lookup-insert k j v ((key, _) ∷ rest) =
      ground (arith, lookup-insert k j v rest, e.test_iff key j, e.test_iff key k, e.test_iff k j)

  pub lookup-erase :
      (k j : Key) (m : Map Key Val)
      → IsMap m
      → lookup j (erase k m) ≡ (if k == j then none else lookup j m)
  unfolding lookup erase
  lookup-erase k j [] d = ground arith
  lookup-erase k j ((i, w) ∷ m) d =
      ground (arith, e.test_iff k j, e.test_iff i k, e.test_iff i j, lookup-erase k j m d.1)

  pub insert-IsMap : (k : Key) (v : Val) (m : Map Key Val) → IsMap m → IsMap (insert k v m)
  unfolding lookup insert
  insert-IsMap k v [] d = (refl, tt)
  insert-IsMap k v ((i, w) ∷ m) d =
      ground (arith, lookup-insert k i v m, beq_sym i k, insert-IsMap k v m d.1)

  pub erase-IsMap : (k : Key) (m : Map Key Val) → IsMap m → IsMap (erase k m)
  unfolding lookup erase
  erase-IsMap k [] d = tt
  erase-IsMap k ((i, w) ∷ m) d =
      ground (arith, lookup-erase k i m d.1, beq_sym i k, erase-IsMap k m d.1)

  pub length-insert_new :
      (k : Key) (v : Val) (m : Map Key Val)
      → lookup k m ≡ none
      → length (insert k v m) ≡ length m + 1
  unfolding lookup insert
  length-insert_new k v [] h = omega arith
  length-insert_new k v ((i, w) ∷ m) h = ground (arith, length-insert_new k v m)

  pub length-insert_old :
      (k : Key) (v : Val) {w : Val} (m : Map Key Val)
      → lookup k m ≡ some w
      → length (insert k v m) ≡ length m
  unfolding lookup insert
  length-insert_old k v [] h = cc
  length-insert_old k v {w} ((i, x) ∷ m) h = ground (arith, length-insert_old k v {w = w} m)

  pub length-erase :
      (k : Key) {w : Val} (m : Map Key Val)
      → lookup k m ≡ some w
      → length (erase k m) + 1 ≡ length m
  unfolding lookup erase
  length-erase k [] h = cc
  length-erase k {w} ((i, x) ∷ m) h = ground (arith, length-erase k {w = w} m)

  pub erase_absent : (k : Key) (m : Map Key Val) → lookup k m ≡ none → erase k m ≡ m
  unfolding lookup erase
  erase_absent k [] h = refl
  erase_absent k ((i, x) ∷ m) h = ground (arith, erase_absent k m)
