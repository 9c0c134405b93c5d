-- ===== src/Lora.antt =====
-- LoRA adaptors and their slots: pkg/simulator/lora.go, with lorasUsageInfo of
-- pkg/simulator/context.go. The body of an admin request is taken as parsed. The KV cache is held, if
-- it is enabled, since loading tells it the model; the mutex makes each method one step.
pub mod Slots
pub mod Invariant
pub mod Load
pub mod Ids
mod Tests
use llm_d_inference_sim.BlockCache.{BlockCache, set_model_loaded, set_model_unloaded}
use llm_d_inference_sim.Channel.{Channel, write_to_channel}
use llm_d_inference_sim.Common.Int.{ℤ, pos, increment, decrement, is_zero, is_nonpositive}
use llm_d_inference_sim.Common.Maps.{Map, lookup, insert, erase, has, get_or}
use llm_d_inference_sim.Common.{
  ℕ, suc, ◌+◌, Bool, true, false, ◌&&◌, ◌||◌, not, List, [], ◌∷◌, map, Option, none, some, String,
  ltb, length, contains, if◌then◌else◌, ◌==◌, string_comparable,
}

pub record SimContext : Type 0 where
  -- loraAdaptors: name and path.
  pub lora_adaptors : Map String String
  pub loaded_loras : Map String ℤ
  pub lora_ids : List String
  pub lora_removable : Channel ℕ
  pub max_loras : ℕ
  pub kvcache_helper : Option BlockCache

unfoldable pub get_loras : SimContext → List String
get_loras s = map (λ e. e.0) s.lora_adaptors

pub get_lora_path : SimContext → String → String
get_lora_path s name = elim (lookup name s.lora_adaptors) [
  | none ↦ name
  | some path ↦ if path == "" then name else path
]

unfoldable pub load_lora_adaptor : SimContext → String → String → SimContext
load_lora_adaptor s name path = record s { lora_adaptors = insert name path s.lora_adaptors }

unfoldable pub unload_lora_adaptor : SimContext → String → SimContext
unload_lora_adaptor s name = record s { lora_adaptors = erase name s.lora_adaptors }

unfoldable pub is_lora : SimContext → String → Bool
unfolding get_loras
is_lora s model = contains model (get_loras s)

unfoldable pub lora_is_loaded : SimContext → String → Bool
lora_is_loaded s model = if not (is_lora s model) then true else has model s.loaded_loras

-- The loop of assignLoraID over the slots.
pub assign_slot : String → List String → List String
assign_slot lora [] = []
assign_slot lora (name ∷ names) =
    if name == lora
    then name ∷ names
    else if name == ""
    then lora ∷ names
    else name ∷ assign_slot lora names

pub assign_lora_id : SimContext → String → SimContext
unfolding assign_slot
assign_lora_id s lora = record s { lora_ids = assign_slot lora s.lora_ids }

pub free_slot : String → List String → List String
free_slot lora [] = []
free_slot lora (name ∷ names) = if name == lora then "" ∷ names else name ∷ free_slot lora names

pub free_lora_id : SimContext → String → SimContext
unfolding free_slot
free_lora_id s lora = record s { lora_ids = free_slot lora s.lora_ids }

pub slot_of : ℕ → String → List String → ℕ
slot_of i lora [] = 0
slot_of i lora (name ∷ names) = if name == lora then i + 1 else slot_of (suc i) lora names

pub get_lora_id : SimContext → String → ℕ
unfolding slot_of
get_lora_id s lora = slot_of 0 lora s.lora_ids

-- The first LoRA of the loop that no request uses.
pub unused_lora : Map String ℤ → Option String
unused_lora [] = none
unused_lora ((lora, n) ∷ rest) = if is_zero n then some lora else unused_lora rest

pub tell_cache : (BlockCache → String → BlockCache) → SimContext → String → SimContext
tell_cache f s model = elim s.kvcache_helper [
  | none ↦ s
  | some c ↦ record s { kvcache_helper = some (f c model) }
]

pub evict_lora : SimContext → String → SimContext
unfolding free_lora_id tell_cache
evict_lora s lora =
    let s' = tell_cache set_model_unloaded (free_lora_id s lora) lora in
    record s' { loaded_loras = erase lora s'.loaded_loras }

pub count_lora : SimContext → String → SimContext
count_lora s model = record s {
  loaded_loras = insert model (increment (get_or model (pos 0) s.loaded_loras)) s.loaded_loras;
}

pub enter_lora : SimContext → String → SimContext
unfolding count_lora assign_lora_id tell_cache
enter_lora s model = tell_cache set_model_loaded (assign_lora_id (count_lora s model) model) model

unfoldable pub load_lora : SimContext → String → SimContext × Bool
unfolding unused_lora evict_lora enter_lora
load_lora s model =
    if not (is_lora s model)
    then (s, true)
    else if has model s.loaded_loras || ltb (length s.loaded_loras) s.max_loras
    then (enter_lora s model, true)
    else elim (unused_lora s.loaded_loras) [
      | none ↦ (s, false)
      | some lora ↦ (enter_lora (evict_lora s lora) model, true)
    ]

unfoldable pub increment_lora : SimContext → String → SimContext
unfolding count_lora
increment_lora s model = if not (is_lora s model) then s else count_lora s model

unfoldable pub decrement_lora : SimContext → String → SimContext
decrement_lora s model =
    if model == "" || not (is_lora s model)
    then s
    else let n = decrement (get_or model (pos 0) s.loaded_loras) in
      let s' = record s { loaded_loras = insert model n s.loaded_loras } in
      if is_nonpositive n
      then record s' { lora_removable = write_to_channel s'.lora_removable 1 }
      else s'
