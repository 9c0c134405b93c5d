-- ===== src/Lora/Ids.antt =====
-- The ids that running LoRA adaptors keep: GetLoraID of pkg/simulator/lora.go.
use llm_d_inference_sim.Lora.{
  SimContext, is_lora, unused_lora, get_loras, evict_lora, enter_lora, load_lora, decrement_lora,
  get_lora_id, unload_lora_adaptor,
}
use llm_d_inference_sim.Lora.Invariant.{Valid, unused_lora-lookup, raised}
use llm_d_inference_sim.Lora.Load.{load_lora_cases, enter_lora-Parts, evict_lora-Parts}
use llm_d_inference_sim.Lora.Slots.{slot_of-assign_slot, slot_of-free_slot, slot_of-get_elem?}
use llm_d_inference_sim.Common.Int.{pos}
use llm_d_inference_sim.Common.Maps.{Map, lookup, erase, has, IsMap, lookup-insert, lookup-erase}
use llm_d_inference_sim.Common.{
  ℕ, zero, suc, ◌≤◌, ◌<◌, ◌≡◌, ◌≢◌, refl, ◌∙◌, true, false, [], ◌∷◌, map, some, String, count,
  contains, string_comparable, arith,
}
use text.Mathlib.TextEquality.{eq_iff}

-- Ids of loaded LoRAs lie between 1 and the number of slots, and two LoRAs never share one.
pub get_lora_id_injective :
    {users : String → ℕ} (s : SimContext) (a b : String)
    → Valid users s
    → has a s.loaded_loras ≡ true
    → has b s.loaded_loras ≡ true
    → (0 < get_lora_id s a)
      × (get_lora_id s a ≤ s.max_loras)
      × (get_lora_id s a ≡ get_lora_id s b → a ≡ b)
unfolding get_lora_id
get_lora_id_injective s a b h p q =
    let (i, at_i, found_i, short) = slot_of-get_elem? 0 a s.lora_ids (held a p) in
    let (j, at_j, found_j, _) = slot_of-get_elem? 0 b s.lora_ids (held b q) in
    (
      omega (arith, at_i),
      omega (arith, at_i, h.one_each),
      λ e. let same : i ≡ j = omega (arith, at_i, at_j) in cc,
    )
  where
    held : (m : String) → has m s.loaded_loras ≡ true → 0 < count m s.lora_ids
    held m l = ground (arith, h.owned m (λ z. ground (arith, h.nameless)))

-- A LoRA that is loaded and not `old` keeps its entry and its id when `old` is evicted.
evict_lora-keeps :
    {users : String → ℕ} (s : SimContext) (old a : String)
    → Valid users s
    → a ≢ ""
    → a ≢ old
    → (lookup a (evict_lora s old).loaded_loras ≡ lookup a s.loaded_loras)
      × (get_lora_id (evict_lora s old) a ≡ get_lora_id s a)
unfolding get_lora_id
evict_lora-keeps s old a h q n =
    let (l, i, _, _) = evict_lora-Parts s old in
    (
      rw (l, lookup-erase old a s.loaded_loras h.loaded_map) (ground (arith, eq_iff old a)),
      rw i (slot_of-free_slot old 0 a s.lora_ids q n),
    )

enter_lora-keeps :
    (s : SimContext) (m a : String)
    → m ≢ ""
    → a ≢ ""
    → a ≢ m
    → (lookup a (enter_lora s m).loaded_loras ≡ lookup a s.loaded_loras)
      × (get_lora_id (enter_lora s m) a ≡ get_lora_id s a)
unfolding get_lora_id
enter_lora-keeps s m a z q n =
    let (l, i, _, _) = enter_lora-Parts s m in
    (
      rw (l, lookup-insert m a (raised m s.loaded_loras) s.loaded_loras)
          (ground (arith, eq_iff m a)),
      rw i (slot_of-assign_slot m z 0 a s.lora_ids q n),
    )

-- In a valid context, while requests run with a LoRA, loading another registered LoRA leaves its count
-- and its id alone.
pub load_lora-keeps :
    {users : String → ℕ} (s : SimContext) (m a : String)
    → Valid users s
    → is_lora s m ≡ true
    → m ≢ ""
    → a ≢ ""
    → a ≢ m
    → users a ≢ 0
    → (lookup a (load_lora s m).0.loaded_loras ≡ lookup a s.loaded_loras)
      × (get_lora_id (load_lora s m).0 a ≡ get_lora_id s a)
load_lora-keeps {users} s m a h e z q n used =
    load_lora_cases s m
      (λ x.
        (lookup a x.0.loaded_loras ≡ lookup a s.loaded_loras)
        × (get_lora_id x.0 a ≡ get_lora_id s a))
      e (λ _. enter_lora-keeps s m a z q n) (λ _ _ _. (refl, refl))
      (λ old new found.
        let (l, i) = enter_lora-keeps (evict_lora s old) m a z q n in
        let (l', i') = evict_lora-keeps s old a h q (other old found) in (l ∙ l', i ∙ i'))
  where
    other : (old : String) → unused_lora s.loaded_loras ≡ some old → a ≢ old
    other old found = λ same.
        ground (
          arith,
          h.counted a,
          unused_lora-lookup s.loaded_loras {old = old} h.loaded_map found,
          same,
        )

contains-keys :
    {V : Type 0} (m : String) (t : Map String V) → contains m (map (λ e. e.0) t) ≡ has m t
unfolding lookup
contains-keys m [] = refl
contains-keys m ((k, v) ∷ t) = ground (arith, contains-keys m t)

-- The ends of `n` requests of LoRA `m`.
unfoldable pub ends : ℕ → SimContext → String → SimContext
ends zero s m = s
ends (suc n) s m = ends n (decrement_lora s m) m

ends-unregistered : (n : ℕ) (s : SimContext) (m : String) → is_lora s m ≡ false → ends n s m ≡ s
unfolding ends decrement_lora
ends-unregistered zero s m e = refl
ends-unregistered (suc n) s m e =
    let still : decrement_lora s m ≡ s = unfold decrement_lora in ground (arith, e) in
    rw still (ends-unregistered n s m e)

-- A LoRA that is unregistered while requests run with it holds its slot for good: however many of its
-- requests end, its count stays what it was, and no other LoRA that is loaded later evicts it.
pub unload_lora_adaptor-leaks :
    {users : String → ℕ} (s : SimContext) (m k : String) (n : ℕ)
    → Valid users s
    → IsMap s.lora_adaptors
    → users m ≢ 0
    → m ≢ ""
    → k ≢ ""
    → m ≢ k
    → is_lora (unload_lora_adaptor s m) k ≡ true
    → let s' = ends n (unload_lora_adaptor s m) m in
      (lookup m s'.loaded_loras ≡ some (pos (users m)))
      × (lookup m (load_lora s' k).0.loaded_loras ≡ some (pos (users m)))
unload_lora_adaptor-leaks {users} s m k n h d used q z other reg =
    let gone = unload_lora_adaptor s m in
    rw (ends-unregistered n gone m unregistered) (
      entry,
      (load_lora-keeps {users = users} gone k m (unfold unload_lora_adaptor in h) reg z q other
            used).0
          ∙ entry,
    )
  where
    unregistered : is_lora (unload_lora_adaptor s m) m ≡ false
    unregistered =
        unfold is_lora get_loras unload_lora_adaptor in
        rw (contains-keys m (erase m s.lora_adaptors))
          (ground (arith, lookup-erase m m s.lora_adaptors d, eq_iff m m))

    entry : lookup m (unload_lora_adaptor s m).loaded_loras ≡ some (pos (users m))
    entry = unfold unload_lora_adaptor in ground (arith, h.counted m)
