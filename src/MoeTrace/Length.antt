-- ===== src/MoeTrace/Length.antt =====
-- Sizes of pkg/moetrace/format.go: expertIDBytes, checkedMul, checkedAdd and the length of a prompt
-- block. uint64 products and sums wrap.
pub mod Exact
use llm_d_inference_sim.Common.{
  ℕ, ◌+◌, ◌-◌, ◌*◌, ◌/◌, ◌%◌, ◌<◌, Bool, true, false, ◌&&◌, not, List, [], ◌∷◌, ltb, leb, ◌==◌,
  if◌then◌else◌, nat_comparable, Result, ok, err, ◌>>=◌,
}

abbrev pub u64_mod : ℕ
u64_mod = 18446744073709551616

pub data SizeError : Type 0 where
  size_overflows experts_not_positive : SizeError
  experts_exceed_limit : ℕ → SizeError

unfoldable pub expert_id_bytes : ℕ → Result SizeError ℕ
expert_id_bytes num_experts =
    if ltb num_experts 1
    then err experts_not_positive
    else if leb num_experts 256
    then ok 1
    else if leb num_experts 65536
    then ok 2
    else err (experts_exceed_limit num_experts)

pub checked_mul : ℕ → ℕ → Result SizeError ℕ
checked_mul a b =
    if not (a == 0) && ltb ((u64_mod - 1) / a) b then err size_overflows else ok (a * b % u64_mod)

pub checked_add : ℕ → ℕ → Result SizeError ℕ
checked_add a b = if ltb (u64_mod - 1 - a) b then err size_overflows else ok ((a + b) % u64_mod)

abbrev pub prompt_block_header_size : ℕ
prompt_block_header_size = 32

-- The loop that sums up the parts.
pub add_all : ℕ → List ℕ → Result SizeError ℕ
unfolding checked_add
add_all total [] = ok total
add_all total (n ∷ ns) = checked_add total n >>= λ t. add_all t ns

-- The part of version 2.
pub add_sources : ℕ → ℕ → ℕ → ℕ → ℕ → Result SizeError ℕ
unfolding checked_mul checked_add
add_sources version all_tokens num_layers source_bytes total =
    if leb 2 version
    then (do
      source_entries ← checked_mul all_tokens num_layers
      source_data_bytes ← checked_mul source_entries source_bytes
      checked_add total source_data_bytes)
    else ok total

unfoldable pub prompt_block_length_for_version : ℕ → ℕ → ℕ → ℕ → ℕ → ℕ → ℕ → ℕ → Result SizeError ℕ
unfolding checked_mul checked_add add_all add_sources
prompt_block_length_for_version input_tokens decode_tokens num_layers num_experts top_k expert_bytes
      version source_bytes =
    do
      input_bytes ← checked_mul input_tokens 4
      decode_bytes ← checked_mul decode_tokens 4
      count_entries ← checked_mul num_layers num_experts
      count_bytes ← checked_mul count_entries 4
      all_tokens ← checked_add input_tokens decode_tokens
      layer_entries ← checked_mul all_tokens num_layers
      route_entries ← checked_mul layer_entries top_k
      route_bytes ← checked_mul route_entries expert_bytes
      total ←
          add_all prompt_block_header_size
            (input_bytes ∷ decode_bytes ∷ count_bytes ∷ route_bytes ∷ [])
      add_sources version all_tokens num_layers source_bytes total

unfoldable pub prompt_block_length : ℕ → ℕ → ℕ → ℕ → ℕ → ℕ → Result SizeError ℕ
unfolding prompt_block_length_for_version
prompt_block_length input_tokens decode_tokens num_layers num_experts top_k expert_bytes =
    prompt_block_length_for_version input_tokens decode_tokens num_layers num_experts top_k
      expert_bytes 1 0
