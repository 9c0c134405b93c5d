-- ===== src/Lora/Slots.antt =====
-- The slots of LoRA ids: assignLoraID, freeLoraID and GetLoraID of pkg/simulator/lora.go. An empty
-- name is a free slot.
use llm_d_inference_sim.Lora.{assign_slot, free_slot, slot_of}
use llm_d_inference_sim.Common.{
  ℕ, suc, ◌+◌, ◌≤◌, ◌<◌, ◌≡◌, ◌≢◌, refl, List, [], ◌∷◌, some, String, length, count, get_elem?,
  if◌then◌else◌, ◌==◌, string_comparable, arith, Bool-cases, inl, inr,
}
use text.Mathlib.TextEquality.{eq_iff}

-- The number of slots in use.
abbrev pub taken : List String → ℕ
taken [] = 0
taken (x ∷ xs) = (if x == "" then 0 else 1) + taken xs

-- The slots in use come first.
abbrev pub IsPacked : List String → Type 0
IsPacked [] = Unit
IsPacked (x ∷ xs) = (x ≡ "" → taken xs ≡ 0) × IsPacked xs

-- `old` gives its slot to `new`.
abbrev pub replace : String → String → List String → List String
replace old new [] = []
replace old new (x ∷ xs) = if x == old then new ∷ xs else x ∷ replace old new xs

count-taken : (m : String) → m ≢ "" → (ids : List String) → count m ids ≤ taken ids
count-taken m named [] = omega arith
count-taken m named (x ∷ xs) = ground (arith, count-taken m named xs, eq_iff x m, eq_iff x "")

module _ (m : String) (named : m ≢ "") where
  -- A LoRA that has a slot keeps it.
  pub assign_slot_owned :
      (ids : List String) → IsPacked ids → 0 < count m ids → assign_slot m ids ≡ ids
  unfolding assign_slot
  assign_slot_owned [] p h = refl
  assign_slot_owned (x ∷ xs) p h =
      ground (arith, assign_slot_owned xs p.1, count-taken m named xs, eq_iff x m, eq_iff x "")

  -- A new LoRA takes the first free slot.
  pub assign_slot_new :
      (ids : List String)
      → IsPacked ids
      → count m ids ≡ 0
      → taken ids < length ids
      → IsPacked (assign_slot m ids)
        × (taken (assign_slot m ids) ≡ taken ids + 1)
        × (length (assign_slot m ids) ≡ length ids)
  unfolding assign_slot
  assign_slot_new [] p h room = absurd (omega arith)
  assign_slot_new (x ∷ xs) p h room =
      ground (arith, assign_slot_new xs p.1, eq_iff x m, eq_iff x "", eq_iff m "")

  pub count-assign_slot :
      (ids : List String) (a : String)
      → count m ids ≡ 0
      → taken ids < length ids
      → a ≢ ""
      → count a (assign_slot m ids) ≡ (if m == a then 1 else 0) + count a ids
  unfolding assign_slot
  count-assign_slot [] a h room q = absurd (omega arith)
  count-assign_slot (x ∷ xs) a h room q =
      ground (arith, count-assign_slot xs a, eq_iff x m, eq_iff x "", eq_iff x a)

  -- Evicting a LoRA for `m` gives its slot to `m`.
  pub assign_slot-free_slot :
      (old : String) (ids : List String)
      → old ≢ ""
      → IsPacked ids
      → count m ids ≡ 0
      → 0 < count old ids
      → assign_slot m (free_slot old ids) ≡ replace old m ids
  unfolding assign_slot free_slot
  assign_slot-free_slot old [] q p h k = refl
  assign_slot-free_slot old (x ∷ xs) q p h k = ground (
    arith,
    assign_slot-free_slot old xs q p.1,
    eq_iff x m,
    eq_iff x "",
    eq_iff x old,
    eq_iff "" m,
    eq_iff m "",
    count-taken old q xs,
  )

  pub replace-slots :
      (old : String) (ids : List String)
      → old ≢ ""
      → IsPacked ids
      → IsPacked (replace old m ids)
        × (taken (replace old m ids) ≡ taken ids)
        × (length (replace old m ids) ≡ length ids)
  replace-slots old [] q p = (tt, refl, refl)
  replace-slots old (x ∷ xs) q p =
      ground (arith, replace-slots old xs q p.1, eq_iff x old, eq_iff x "", eq_iff m "")

  pub count-replace :
      (old : String) (ids : List String) (a : String)
      → 0 < count old ids
      → count a (replace old m ids) + (if old == a then 1 else 0)
        ≡ (if m == a then 1 else 0) + count a ids
  count-replace old [] a h = absurd (omega arith)
  count-replace old (x ∷ xs) a h =
      ground (arith, count-replace old xs a, eq_iff x old, eq_iff x a, eq_iff old a)

  -- The slots of the others stay.
  pub slot_of-assign_slot :
      (i : ℕ) (a : String) (ids : List String)
      → a ≢ ""
      → a ≢ m
      → slot_of i a (assign_slot m ids) ≡ slot_of i a ids
  unfolding assign_slot slot_of
  slot_of-assign_slot i a [] q n = refl
  slot_of-assign_slot i a (x ∷ xs) q n =
      ground (
        arith,
        slot_of-assign_slot (suc i) a xs q n,
        eq_iff x m,
        eq_iff x a,
        eq_iff x "",
        eq_iff m a,
      )

pub slot_of-free_slot :
    (old : String) (i : ℕ) (a : String) (ids : List String)
    → a ≢ ""
    → a ≢ old
    → slot_of i a (free_slot old ids) ≡ slot_of i a ids
unfolding free_slot slot_of
slot_of-free_slot old i a [] q n = refl
slot_of-free_slot old i a (x ∷ xs) q n =
    ground (arith, slot_of-free_slot old (suc i) a xs q n, eq_iff x old, eq_iff x a, eq_iff "" a)

-- The slot of a name that has one, counted from 1.
pub slot_of-get_elem? :
    (i : ℕ) (a : String) (ids : List String)
    → 0 < count a ids
    → (k : ℕ) × (slot_of i a ids ≡ i + k + 1) × (get_elem? ids k ≡ some a) × (k < length ids)
unfolding slot_of
slot_of-get_elem? i a [] h = absurd (omega arith)
slot_of-get_elem? i a (x ∷ xs) h = elim (Bool-cases (x == a)) [
  | inl e ↦ (0, rw e (omega arith), ground (arith, eq_iff x a, e), omega arith)
  | inr e ↦
      let (k, at_slot, found, short) = slot_of-get_elem? (suc i) a xs (ground (arith, h, e)) in
      (suc k, rw e (omega (arith, at_slot)), found, omega arith)
]
