-- ===== src/Lora/Invariant.antt =====
-- What holds of the LoRA slots of pkg/simulator/lora.go while requests run.
use llm_d_inference_sim.Lora.{SimContext, unused_lora, assign_slot, free_slot}
use llm_d_inference_sim.Lora.Slots.{
  taken, IsPacked, replace, assign_slot_owned, assign_slot_new, count-assign_slot,
  assign_slot-free_slot, replace-slots, count-replace,
}
use llm_d_inference_sim.Common.Int.{ℤ, pos, increment}
use llm_d_inference_sim.Common.Maps.{
  Map, lookup, insert, erase, has, get_or, IsMap, lookup-insert, lookup-erase, insert-IsMap,
  erase-IsMap, length-insert_new, length-insert_old, length-erase,
}
use llm_d_inference_sim.Common.{
  ℕ, ◌+◌, ◌≤◌, ◌<◌, ◌≡◌, ◌≢◌, ◌⊎◌, true, List, [], ◌∷◌, some, none, Option, String, length, count,
  if◌then◌else◌, ◌==◌, string_comparable, arith, Option-cases, inl, inr,
}
use text.Mathlib.TextEquality.{eq_iff}

-- The entry of `loadedLoras` for a LoRA that `n` requests use: it may stay loaded while unused.
abbrev pub Entry : Option ℤ → ℕ → Type 0
Entry o n = (o ≡ some (pos n)) ⊎ ((o ≡ none) × (n ≡ 0))

-- `users m` requests run with LoRA `m`; the maps of a context with `max` slots agree with that.
pub record Slots (users : String → ℕ) (loaded : Map String ℤ) (ids : List String) (max : ℕ)
    : Type 0 where
  pub loaded_map : IsMap loaded
  pub counted : (m : String) → Entry (lookup m loaded) (users m)
  pub nameless : lookup "" loaded ≡ none
  pub limited : length loaded ≤ max
  pub one_each : length ids ≡ max
  pub packed : IsPacked ids
  pub all_taken : taken ids ≡ length loaded
  pub owned : (m : String) → m ≢ "" → count m ids ≡ (if has m loaded then 1 else 0)

abbrev pub Valid : (String → ℕ) → SimContext → Type 0
Valid users s = Slots users s.loaded_loras s.lora_ids s.max_loras

-- One more request of LoRA `k`.
abbrev pub one_more : String → (String → ℕ) → String → ℕ
one_more k u m = (if k == m then 1 else 0) + u m

-- The value that a new request of `m` writes.
abbrev pub raised : String → Map String ℤ → ℤ
raised m loaded = increment (get_or m (pos 0) loaded)

module _ {users : String → ℕ} {loaded : Map String ℤ} {ids : List String} {max : ℕ} (m : String)
    (named : m ≢ "") (h : Slots users loaded ids max) where
  counted-insert :
      (k : String) → Entry (lookup k (insert m (raised m loaded) loaded)) (one_more m users k)
  unfolding increment
  counted-insert k =
      ground
        (arith, h.counted k, h.counted m, lookup-insert m k (raised m loaded) loaded, eq_iff m k)

  -- A loaded LoRA gets a request more.
  pub use_again :
      has m loaded ≡ true
      → Slots (one_more m users) (insert m (raised m loaded) loaded) (assign_slot m ids) max
  use_again e = rw (assign_slot_owned m named ids h.packed (ground (arith, h.owned m))) (record {
    loaded_map = insert-IsMap m _ loaded h.loaded_map;
    counted = counted-insert;
    nameless = ground (arith, h.nameless, lookup-insert m "" (raised m loaded) loaded, eq_iff m "");
    limited = ground (arith, h.limited, same_length);
    one_each = h.one_each;
    packed = h.packed;
    all_taken = ground (arith, h.all_taken, same_length);
    owned = λ k q.
        ground
          (arith, h.owned k, h.owned m, lookup-insert m k (raised m loaded) loaded, eq_iff m k);
  })
    where
      same_length : length (insert m (raised m loaded) loaded) ≡ length loaded
      same_length = elim (Option-cases (lookup m loaded)) [
        | inl q ↦ absurd (ground (arith, q, e))
        | inr (v, q) ↦ length-insert_old m (raised m loaded) loaded q
      ]

  -- A LoRA that is not loaded takes a free slot.
  pub use_new :
      lookup m loaded ≡ none
      → length loaded < max
      → Slots (one_more m users) (insert m (raised m loaded) loaded) (assign_slot m ids) max
  use_new e room = record {
    loaded_map = insert-IsMap m _ loaded h.loaded_map;
    counted = counted-insert;
    nameless = ground (arith, h.nameless, lookup-insert m "" (raised m loaded) loaded, eq_iff m "");
    limited = ground (arith, h.limited, longer);
    one_each = omega (arith, slots.2, h.one_each);
    packed = slots.0;
    all_taken = omega (arith, slots.1, h.all_taken, longer);
    owned = λ k q. ground (
      arith,
      h.owned k,
      lookup-insert m k (raised m loaded) loaded,
      eq_iff m k,
      count-assign_slot m named ids k free (omega (arith, h.one_each, h.all_taken)) q,
    );
  }
    where
      free : count m ids ≡ 0
      free = ground (arith, h.owned m, e)

      slots :
          IsPacked (assign_slot m ids)
          × (taken (assign_slot m ids) ≡ taken ids + 1)
          × (length (assign_slot m ids) ≡ length ids)
      slots = assign_slot_new m named ids h.packed free (omega (arith, h.one_each, h.all_taken))

      longer : length (insert m (raised m loaded) loaded) ≡ length loaded + 1
      longer = length-insert_new m (raised m loaded) loaded e

  -- A LoRA that is not loaded takes the slot of an unused one.
  pub use_evicting :
      (old : String)
      → lookup m loaded ≡ none
      → lookup old loaded ≡ some (pos 0)
      → let rest = erase old loaded in
        Slots
          (one_more m users)
          (insert m (raised m rest) rest)
          (assign_slot m (free_slot old ids))
          max
  use_evicting old e f =
      rw (assign_slot-free_slot m named old ids old_named h.packed free_m held) (record {
        loaded_map = insert-IsMap m _ rest (erase-IsMap old loaded h.loaded_map);
        counted = λ k.
            unfold increment in
            ground (
              arith,
              h.counted k,
              h.counted m,
              h.counted old,
              lookup-insert m k (raised m rest) rest,
              eq_iff m k,
              lookup-erase old k loaded h.loaded_map,
              eq_iff old k,
              at_rest,
            );
        nameless = ground (
          arith,
          h.nameless,
          lookup-insert m "" (raised m rest) rest,
          eq_iff m "",
          lookup-erase old "" loaded h.loaded_map,
        );
        limited = omega (arith, h.limited, same_length);
        one_each = omega (arith, slots.2, h.one_each);
        packed = slots.0;
        all_taken = omega (arith, slots.1, h.all_taken, same_length);
        owned = λ k q. ground (
          arith,
          h.owned k,
          lookup-insert m k (raised m rest) rest,
          eq_iff m k,
          lookup-erase old k loaded h.loaded_map,
          eq_iff old k,
          count-replace m named old ids k held,
        );
      })
    where
      rest : Map String ℤ
      rest = erase old loaded

      old_named : old ≢ ""
      old_named = λ q. ground (arith, h.nameless)

      free_m : count m ids ≡ 0
      free_m = ground (arith, h.owned m, e)

      held : 0 < count old ids
      held = ground (arith, h.owned old old_named, f)

      at_rest : lookup m rest ≡ none
      at_rest = ground (arith, lookup-erase old m loaded h.loaded_map, e)

      slots :
          IsPacked (replace old m ids)
          × (taken (replace old m ids) ≡ taken ids)
          × (length (replace old m ids) ≡ length ids)
      slots = replace-slots m named old ids old_named h.packed

      same_length : length (insert m (raised m rest) rest) ≡ length loaded
      same_length =
          omega (arith, length-insert_new m (raised m rest) rest at_rest, length-erase old loaded f)

pub unused_lora-lookup :
    (loaded : Map String ℤ) {old : String}
    → IsMap loaded
    → unused_lora loaded ≡ some old
    → lookup old loaded ≡ some (pos 0)
unfolding unused_lora lookup
unused_lora-lookup [] d e = cc
unused_lora-lookup ((lora, n) ∷ rest) {old} d e =
    ground (arith, unused_lora-lookup rest {old = old} d.1, eq_iff lora old)
