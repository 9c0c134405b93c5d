-- ===== src/Lora/Tests.antt =====
-- Runs of the LoRA slots of pkg/simulator/lora.go, and its theorems at concrete inputs.
use llm_d_inference_sim.Channel.{absent, write_to_channel}
use llm_d_inference_sim.Lora.{
  SimContext, load_lora, decrement_lora, get_loras, assign_lora_id, assign_slot, count_lora,
  enter_lora, slot_of, get_lora_id, unload_lora_adaptor, get_lora_path, is_lora,
}
use llm_d_inference_sim.Lora.Invariant.{Valid, one_more}
use llm_d_inference_sim.Lora.Load.{load_lora-Valid, decrement_lora-Valid}
use llm_d_inference_sim.Lora.Ids.{
  get_lora_id_injective, load_lora-keeps, unload_lora_adaptor-leaks, ends,
}
use llm_d_inference_sim.Common.Int.{pos, increment, decrement}
use llm_d_inference_sim.Common.Maps.{lookup, insert, erase, has}
use llm_d_inference_sim.Common.{
  ℕ, ◌<◌, ◌≤◌, ◌≡◌, ◌≢◌, refl, [], ◌∷◌, none, some, true, false, String, length, inr,
  nat_comparable, arith, if◌then◌else◌, ◌==◌, string_comparable,
}
use text.Mathlib.TextEquality.{eq_iff}

-- Two LoRAs are registered, none is loaded, and there are two slots.
abbrev empty : SimContext
empty = record {
  lora_adaptors = ("a", "/a") ∷ ("b", "") ∷ [];
  loaded_loras = [];
  lora_ids = "" ∷ "" ∷ [];
  lora_removable = record { buffer = []; capacity = 1; name = "removable"; shutdown = absent };
  max_loras = 2;
  kvcache_helper = none;
}

abbrev nobody : String → ℕ
nobody m = 0

empty-Valid : Valid nobody empty
unfolding lookup
empty-Valid = record {
  loaded_map = tt;
  counted = λ m. inr (refl, refl);
  nameless = refl;
  limited = omega arith;
  one_each = refl;
  packed = ((λ e. refl), ((λ e. refl), tt));
  all_taken = refl;
  owned = λ m n. ground (arith, eq_iff "" m);
}

paths : get_lora_path empty "a" ≡ "/a"
unfolding get_lora_path lookup
paths = refl

nameless_path : get_lora_path empty "b" ≡ "b"
unfolding get_lora_path lookup
nameless_path = refl

evaluation : Unit {0}
unfolding load_lora decrement_lora is_lora get_loras lookup insert erase assign_lora_id assign_slot
    count_lora enter_lora increment decrement get_lora_id slot_of unload_lora_adaptor ends
evaluation = tt

a_named : ◌≢◌ {A = String} "a" ""
a_named e = ground (arith, eq_iff "a" "")

b_named : ◌≢◌ {A = String} "b" ""
b_named e = ground (arith, eq_iff "b" "")

a_b : ◌≢◌ {A = String} "a" "b"
a_b e = ground (arith, eq_iff "a" "b")

-- One request runs with the LoRA "a".
running : SimContext
running = (load_lora empty "a").0

running-Valid : Valid (one_more "a" nobody) running
unfolding running evaluation
running-Valid = (load_lora-Valid {users = nobody} empty "a" empty-Valid refl a_named).0 refl

one_runs : one_more "a" nobody "a" ≢ 0
one_runs e = omega (arith, e)

load_lora-Valid_example :
    ((load_lora empty "a").1 ≡ true → Valid (one_more "a" nobody) (load_lora empty "a").0)
    × ((load_lora empty "a").1 ≡ false
        → ((load_lora empty "a").0 ≡ empty)
          × (lookup "a" empty.loaded_loras ≡ none)
          × (length empty.loaded_loras ≡ empty.max_loras)
          × ((k : String) → has k empty.loaded_loras ≡ true → nobody k ≢ 0))
unfolding evaluation
load_lora-Valid_example = load_lora-Valid {users = nobody} empty "a" empty-Valid refl a_named

decrement_lora-Valid_example :
    Valid nobody (decrement_lora running "a")
    × ((decrement_lora running "a").lora_removable ≡ (
        if nobody "a" == 0
        then write_to_channel running.lora_removable 1
        else running.lora_removable))
unfolding running evaluation
decrement_lora-Valid_example =
    decrement_lora-Valid {users = nobody} running "a" running-Valid refl a_named

get_lora_id_injective_example :
    (0 < get_lora_id running "a")
    × (get_lora_id running "a" ≤ running.max_loras)
    × (get_lora_id running "a" ≡ get_lora_id running "a" → ◌≡◌ {A = String} "a" "a")
unfolding running evaluation
get_lora_id_injective_example =
    get_lora_id_injective {users = one_more "a" nobody} running "a" "a" running-Valid refl refl

load_lora-keeps_example :
    (lookup "a" (load_lora running "b").0.loaded_loras ≡ lookup "a" running.loaded_loras)
    × (get_lora_id (load_lora running "b").0 "a" ≡ get_lora_id running "a")
unfolding running evaluation
load_lora-keeps_example =
    load_lora-keeps {users = one_more "a" nobody} running "b" "a" running-Valid refl b_named a_named
      a_b one_runs

unload_lora_adaptor-leaks_example :
    let s' = ends 3 (unload_lora_adaptor running "a") "a" in
    (lookup "a" s'.loaded_loras ≡ some (pos 1))
    × (lookup "a" (load_lora s' "b").0.loaded_loras ≡ some (pos 1))
unfolding running evaluation
unload_lora_adaptor-leaks_example =
    unload_lora_adaptor-leaks {users = one_more "a" nobody} running "a" "b" 3 running-Valid
      (refl, (refl, tt)) one_runs a_named b_named a_b refl
