-- ===== src/Lora/Load.antt =====
-- Loading, counting and releasing LoRA adaptors: loadLora, incrementLora, decrementLora and GetLoraID
-- of pkg/simulator/lora.go.
use llm_d_inference_sim.Channel.{write_to_channel}
use llm_d_inference_sim.Lora.{
  SimContext, is_lora, unused_lora, tell_cache, evict_lora, count_lora, enter_lora, load_lora,
  decrement_lora, assign_lora_id, free_lora_id, assign_slot, free_slot,
}
use llm_d_inference_sim.Lora.Invariant.{
  Entry, Slots, Valid, one_more, raised, use_again, use_new, use_evicting, unused_lora-lookup,
}
use llm_d_inference_sim.Common.Int.{ℤ, pos, decrement}
use llm_d_inference_sim.Common.Maps.{
  Map, lookup, insert, erase, has, lookup-insert, insert-IsMap, length-insert_old,
}
use llm_d_inference_sim.Common.{
  ℕ, suc, ◌≤◌, ◌<◌, ◌≡◌, ◌≢◌, ◌⊎◌, refl, Bool, true, false, List, [], ◌∷◌, some, none, String,
  length, if◌then◌else◌, ◌==◌, string_comparable, nat_comparable, arith, Bool-cases, Option-cases,
  inl, inr, ltb, ◌||◌,
}
use text.Mathlib.TextEquality.{eq_iff}

pub enter_lora-Parts :
    (s : SimContext) (m : String)
    → ((enter_lora s m).loaded_loras ≡ insert m (raised m s.loaded_loras) s.loaded_loras)
      × ((enter_lora s m).lora_ids ≡ assign_slot m s.lora_ids)
      × ((enter_lora s m).max_loras ≡ s.max_loras)
      × ((enter_lora s m).lora_adaptors ≡ s.lora_adaptors)
unfolding enter_lora tell_cache assign_lora_id count_lora
enter_lora-Parts s m = ground arith

pub evict_lora-Parts :
    (s : SimContext) (m : String)
    → ((evict_lora s m).loaded_loras ≡ erase m s.loaded_loras)
      × ((evict_lora s m).lora_ids ≡ free_slot m s.lora_ids)
      × ((evict_lora s m).max_loras ≡ s.max_loras)
      × ((evict_lora s m).lora_adaptors ≡ s.lora_adaptors)
unfolding evict_lora tell_cache free_lora_id
evict_lora-Parts s m = ground arith

unused_lora-none :
    (loaded : Map String ℤ) (k : String)
    → unused_lora loaded ≡ none
    → lookup k loaded ≢ some (pos 0)
unfolding unused_lora lookup
unused_lora-none [] k e = λ q. cc
unused_lora-none ((lora, n) ∷ rest) k e = ground (arith, unused_lora-none rest k)

-- The ways of a call of loadLora for a LoRA.
pub load_lora_cases {ℓ} :
    (s : SimContext) (m : String) (P : SimContext × Bool → Type ℓ)
    → is_lora s m ≡ true
    → ((has m s.loaded_loras ≡ true)
          ⊎ ((lookup m s.loaded_loras ≡ none) × (length s.loaded_loras < s.max_loras))
        → P (enter_lora s m, true))
    → (lookup m s.loaded_loras ≡ none
        → s.max_loras ≤ length s.loaded_loras
        → unused_lora s.loaded_loras ≡ none
        → P (s, false))
    → ((old : String)
        → lookup m s.loaded_loras ≡ none
        → unused_lora s.loaded_loras ≡ some old
        → P (enter_lora (evict_lora s old) m, true))
    → P (load_lora s m)
unfolding load_lora
load_lora_cases s m P e enter refuse evict =
    rw e (elim (Bool-cases (has m s.loaded_loras || ltb (length s.loaded_loras) s.max_loras)) [
      | inl q ↦ rw q (enter (ground (arith, q)))
      | inr q ↦ rw q (elim (Option-cases (unused_lora s.loaded_loras)) [
        | inl f ↦ rw f (refuse (ground (arith, q)) (ground (arith, q)) f)
        | inr (old, f) ↦ rw f (evict old (ground (arith, q)) f)
      ])
    ])

enter_lora-Valid :
    {users : String → ℕ} (s : SimContext) (m : String)
    → Valid users s
    → m ≢ ""
    → (has m s.loaded_loras ≡ true)
      ⊎ ((lookup m s.loaded_loras ≡ none) × (length s.loaded_loras < s.max_loras))
    → Valid (one_more m users) (enter_lora s m)
enter_lora-Valid s m h q e =
    let (a, b, c, _) = enter_lora-Parts s m in
    rw (a, b, c)
      (elim e [ inl old ↦ use_again m q h old | inr (new, room) ↦ use_new m q h new room ])

evicting-Valid :
    {users : String → ℕ} (s : SimContext) (m old : String)
    → Valid users s
    → m ≢ ""
    → lookup m s.loaded_loras ≡ none
    → unused_lora s.loaded_loras ≡ some old
    → Valid (one_more m users) (enter_lora (evict_lora s old) m)
evicting-Valid s m old h q new e =
    let (a, b, c, _) = enter_lora-Parts (evict_lora s old) m in
    let (a', b', c', _) = evict_lora-Parts s old in
    rw (a, b, c)
      (rw (a', b', c')
        (use_evicting m q h old new (unused_lora-lookup s.loaded_loras h.loaded_map e)))

-- A call of loadLora for a LoRA counts one request more and keeps the slots valid if it succeeds. It
-- fails, and changes nothing, only if the LoRA is not loaded, every slot is taken, and every loaded
-- LoRA has running requests.
pub load_lora-Valid :
    {users : String → ℕ} (s : SimContext) (m : String)
    → Valid users s
    → is_lora s m ≡ true
    → m ≢ ""
    → ((load_lora s m).1 ≡ true → Valid (one_more m users) (load_lora s m).0)
      × ((load_lora s m).1 ≡ false
          → ((load_lora s m).0 ≡ s)
            × (lookup m s.loaded_loras ≡ none)
            × (length s.loaded_loras ≡ s.max_loras)
            × ((k : String) → has k s.loaded_loras ≡ true → users k ≢ 0))
load_lora-Valid {users} s m h e q =
    load_lora_cases s m
      (λ x.
        (x.1 ≡ true → Valid (one_more m users) x.0)
        × (x.1 ≡ false
            → (x.0 ≡ s)
              × (lookup m s.loaded_loras ≡ none)
              × (length s.loaded_loras ≡ s.max_loras)
              × ((k : String) → has k s.loaded_loras ≡ true → users k ≢ 0)))
      e (λ way. (λ _. enter_lora-Valid s m h q way, λ x. cc))
      (λ new full none_unused. (
        λ x. cc,
        λ _. (
          refl,
          new,
          omega (arith, h.limited),
          λ k l z. ground (arith, h.counted k, unused_lora-none s.loaded_loras k none_unused),
        ),
      ))
      (λ old new found. (λ _. evicting-Valid s m old h q new found, λ x. cc))

one_more-held :
    (users : String → ℕ) (loaded : Map String ℤ) (m : String)
    → Entry (lookup m loaded) (one_more m users m)
    → lookup m loaded ≡ some (pos (suc (users m)))
one_more-held users loaded m c = ground (arith, c, eq_iff m m)

use_less :
    {users : String → ℕ} (loaded : Map String ℤ) {ids : List String} {max : ℕ} (m : String)
    → Slots (one_more m users) loaded ids max
    → m ≢ ""
    → Slots users (insert m (pos (users m)) loaded) ids max
use_less {users} loaded {ids} {max} m h q = record {
  loaded_map = insert-IsMap m _ loaded h.loaded_map;
  counted = λ k. ground (arith, h.counted k, lookup-insert m k (pos (users m)) loaded, eq_iff m k);
  nameless = ground (arith, h.nameless, lookup-insert m "" (pos (users m)) loaded, eq_iff m "");
  limited = omega (arith, h.limited, same_length);
  one_each = h.one_each;
  packed = h.packed;
  all_taken = omega (arith, h.all_taken, same_length);
  owned = λ k z. ground (
    arith,
    h.owned k,
    lookup-insert m k (pos (users m)) loaded,
    eq_iff m k,
    one_more-held users loaded m (h.counted m),
  );
}
  where
    same_length : length (insert m (pos (users m)) loaded) ≡ length loaded
    same_length =
        length-insert_old m (pos (users m)) loaded (one_more-held users loaded m (h.counted m))

-- The context when `n` requests of the LoRA are left.
left_with : SimContext → String → ℕ → SimContext
left_with s m n =
    let s' = record s { loaded_loras = insert m (pos n) s.loaded_loras } in
    if n == 0 then record s' { lora_removable = write_to_channel s.lora_removable 1 } else s'

decrement_lora-left_with :
    (s : SimContext) (m : String) (n : ℕ)
    → is_lora s m ≡ true
    → m ≢ ""
    → lookup m s.loaded_loras ≡ some (pos (suc n))
    → decrement_lora s m ≡ left_with s m n
unfolding decrement_lora decrement left_with
decrement_lora-left_with s m n e q held = ground (arith, eq_iff m "")

-- The end of a request of a registered LoRA takes its count back, and signals that the LoRA can be
-- removed exactly when it was the last one.
pub decrement_lora-Valid :
    {users : String → ℕ} (s : SimContext) (m : String)
    → Valid (one_more m users) s
    → is_lora s m ≡ true
    → m ≢ ""
    → Valid users (decrement_lora s m)
      × ((decrement_lora s m).lora_removable
          ≡ (if users m == 0 then write_to_channel s.lora_removable 1 else s.lora_removable))
unfolding left_with
decrement_lora-Valid {users} s m h e q =
    rw
      (decrement_lora-left_with s m (users m) e q
        (one_more-held users s.loaded_loras m (h.counted m)))
      (elim (Bool-cases (users m == 0)) [
        | inl z ↦ rw z (use_less s.loaded_loras m h q, refl)
        | inr z ↦ rw z (use_less s.loaded_loras m h q, refl)
      ])
