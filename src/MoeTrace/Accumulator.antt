-- ===== src/MoeTrace/Accumulator.antt =====
-- The collection of one prompt's routes: pkg/moetrace/accumulator.go. An accumulator is changed in
-- place, so `add` returns it also with an error. Layer numbers are natural.
pub mod Seen
pub mod Shape
pub mod Complete
pub mod Kept
pub mod Sized
use llm_d_inference_sim.Common.Int.{ℤ, pos, negsuc}
use llm_d_inference_sim.Common.Maps.{Map, lookup}
use llm_d_inference_sim.Common.{
  ℕ, zero, suc, ◌+◌, ◌-◌, ◌*◌, ◌%◌, Bool, true, false, ◌&&◌, not, List, [], ◌∷◌, Option, none, some,
  String, length, get_elem?, set, replicate, contains, map, ltb, if◌then◌else◌, ◌==◌,
  nat_comparable, string_comparable, Result, ok, err, ◌>>=◌,
}

pub record PromptMetadata : Type 0 where
  pub index : ℕ
  pub prompt : String
  pub input_tokens : ℕ
  pub decode_tokens : ℕ
  pub generated_text : String

pub record PromptAccumulator : Type 0 where
  pub meta : PromptMetadata
  pub num_layers : ℕ
  pub num_experts : ℕ
  pub top_k : ℕ
  pub layer_slots : Map ℕ ℕ
  pub input_token_ids : List ℕ
  pub decode_token_ids : List ℕ
  pub input_token_seen : List Bool
  pub decode_token_seen : List Bool
  pub prefill_seen : List Bool
  pub decode_seen : List Bool
  pub prefill_counts : List ℕ
  pub prefill_routes : List ℕ
  pub decode_routes : List ℕ

-- One line of the source.
pub record SourceTraceRecord : Type 0 where
  pub prompt : ℤ
  pub layer : ℕ
  pub token_id : ℤ
  pub position : ℤ
  pub phase : String
  pub experts : List ℤ
  pub gate_weights : ℕ

-- `out_of_range` is the panic of an index.
pub data AddError : Type 0 where
  negative_token_counts non_sparse_layer token_outside wrong_experts wrong_weights expert_outside
        repeated_expert invalid_position duplicate_route inconsistent_token count_overflow
        unsupported_phase out_of_range :
      AddError

unfoldable pub new_prompt_accumulator :
    ℕ → String → ℤ → ℤ → String → ℕ → ℕ → ℕ → Map ℕ ℕ → Result AddError PromptAccumulator
new_prompt_accumulator index prompt (negsuc p) d text l e k slots = err negative_token_counts
new_prompt_accumulator index prompt (pos p) (negsuc d) text l e k slots = err negative_token_counts
new_prompt_accumulator index prompt (pos p) (pos d) text l e k slots = ok (record {
  meta = record {
    index = index;
    prompt = prompt;
    input_tokens = p;
    decode_tokens = d;
    generated_text = text;
  };
  num_layers = l;
  num_experts = e;
  top_k = k;
  layer_slots = slots;
  input_token_ids = replicate p 0;
  decode_token_ids = replicate d 0;
  input_token_seen = replicate p false;
  decode_token_seen = replicate d false;
  prefill_seen = replicate (p * l) false;
  decode_seen = replicate (d * l) false;
  prefill_counts = replicate (l * e) 0;
  prefill_routes = replicate (l * p * k) 0;
  decode_routes = replicate (d * l * k) 0;
})

abbrev pub expected_records : PromptAccumulator → ℕ
expected_records p = (p.meta.input_tokens + p.meta.decode_tokens) * p.num_layers

-- The number, if it is at least 0 and below the limit.
abbrev pub in_range : ℤ → ℕ → Option ℕ
in_range (negsuc n) limit = none
in_range (pos n) limit = if ltb n limit then some n else none

-- The loop over the experts: each in range, none twice.
pub check_experts : ℕ → List ℕ → List ℤ → Result AddError (List ℕ)
check_experts num_experts expert_seen [] = ok []
check_experts num_experts expert_seen (e ∷ es) = elim (in_range e num_experts) [
  | none ↦ err expert_outside
  | some x ↦
      let rest = check_experts num_experts (x ∷ expert_seen) es in
      if contains x expert_seen then err repeated_expert else rest >>= λ xs. ok (x ∷ xs)
]

-- `copy` into a slice of the routes, whose entries are of 16 bits.
pub write_slice : List ℕ → ℕ → List ℕ → List ℕ
write_slice routes base [] = routes
write_slice routes base (e ∷ es) = write_slice (set routes base e) (suc base) es

-- The loop that counts the experts of a prefill record.
pub count_experts : List ℕ → ℕ → List ℕ → List ℕ × Option AddError
count_experts counts base [] = (counts, none)
count_experts counts base (e ∷ es) = elim (get_elem? counts (base + e)) [
  | none ↦ (counts, some out_of_range)
  | some n ↦ elim (n == 4294967295) [
    | true ↦ (counts, some count_overflow)
    | false ↦ count_experts (set counts (base + e) (n + 1)) base es
  ]
]

-- The token of a position was recorded before with another id.
abbrev pub is_inconsistent : List Bool → List ℕ → ℕ → ℕ → Bool
is_inconsistent seen ids position token = elim (get_elem? seen position) [
  | none ↦ false
  | some false ↦ false
  | some true ↦ elim (get_elem? ids position) [ none ↦ false | some id ↦ not (id == token) ]
]

-- A route that is new: its place, its token, its experts and their counts.
pub enter_prefill : PromptAccumulator → ℕ → ℕ → ℕ → ℕ → List ℕ → PromptAccumulator × Option AddError
unfolding write_slice count_experts
enter_prefill p slot position seen_index token experts =
    let p' = record p { prefill_seen = set p.prefill_seen seen_index true } in
    if is_inconsistent p.input_token_seen p.input_token_ids position token
    then (p', some inconsistent_token)
    else let counted = count_experts p.prefill_counts (slot * p.num_experts) experts in
      (
        record p' {
          input_token_seen = set p.input_token_seen position true;
          input_token_ids = set p.input_token_ids position token;
          prefill_routes =
              write_slice p.prefill_routes (seen_index * p.top_k) (map (λ x. x % 65536) experts);
          prefill_counts = counted.0;
        },
        counted.1,
      )

pub add_prefill : PromptAccumulator → ℕ → ℤ → ℕ → List ℕ → PromptAccumulator × Option AddError
unfolding enter_prefill
add_prefill p slot position token experts = elim (in_range position p.meta.input_tokens) [
  | none ↦ (p, some invalid_position)
  | some position ↦
      let seen_index = slot * p.meta.input_tokens + position in
      elim (get_elem? p.prefill_seen seen_index) [
        | none ↦ (p, some out_of_range)
        | some true ↦ (p, some duplicate_route)
        | some false ↦ enter_prefill p slot position seen_index token experts
      ]
]

-- record.Position - InputTokens, in range.
abbrev pub decode_position : ℤ → ℕ → ℕ → Option ℕ
decode_position (negsuc n) inputs limit = none
decode_position (pos n) inputs limit =
    if ltb n inputs then none else in_range (pos (n - inputs)) limit

pub enter_decode : PromptAccumulator → ℕ → ℕ → ℕ → List ℕ → PromptAccumulator × Option AddError
unfolding write_slice
enter_decode p position seen_index token experts =
    let p' = record p { decode_seen = set p.decode_seen seen_index true } in
    if is_inconsistent p.decode_token_seen p.decode_token_ids position token
    then (p', some inconsistent_token)
    else (
      record p' {
        decode_token_seen = set p.decode_token_seen position true;
        decode_token_ids = set p.decode_token_ids position token;
        decode_routes =
            write_slice p.decode_routes (seen_index * p.top_k) (map (λ x. x % 65536) experts);
      },
      none,
    )

pub add_decode : PromptAccumulator → ℕ → ℤ → ℕ → List ℕ → PromptAccumulator × Option AddError
unfolding enter_decode
add_decode p slot position token experts =
    elim (decode_position position p.meta.input_tokens p.meta.decode_tokens) [
      | none ↦ (p, some invalid_position)
      | some position ↦
          let seen_index = position * p.num_layers + slot in
          elim (get_elem? p.decode_seen seen_index) [
            | none ↦ (p, some out_of_range)
            | some true ↦ (p, some duplicate_route)
            | some false ↦ enter_decode p position seen_index token experts
          ]
    ]

-- The switch over the phase.
pub add_checked :
    PromptAccumulator → SourceTraceRecord → ℕ → ℕ → List ℕ → PromptAccumulator × Option AddError
unfolding add_prefill add_decode
add_checked p r slot token experts =
    if r.phase == "prefill"
    then add_prefill p slot r.position token experts
    else if r.phase == "decode"
    then add_decode p slot r.position token experts
    else (p, some unsupported_phase)

unfoldable pub add : PromptAccumulator → SourceTraceRecord → PromptAccumulator × Option AddError
unfolding check_experts add_checked
add p r = elim (lookup r.layer p.layer_slots) [
  | none ↦ (p, some non_sparse_layer)
  | some slot ↦ elim (in_range r.token_id 4294967296) [
    | none ↦ (p, some token_outside)
    | some token ↦
        if not (length r.experts == p.top_k)
        then (p, some wrong_experts)
        else if not (r.gate_weights == 0) && not (r.gate_weights == p.top_k)
        then (p, some wrong_weights)
        else elim (check_experts p.num_experts [] r.experts) [
          | err e ↦ (p, some e)
          | ok experts ↦ add_checked p r slot token experts
        ]
  ]
]

pub data Missing : Type 0 where
  missing_input_token missing_decode_token missing_prefill_route missing_decode_route : ℕ → Missing

-- The first flag that is not set, from index `i` on.
pub first_unseen : ℕ → List Bool → Option ℕ
first_unseen i [] = none
first_unseen i (true ∷ seen) = first_unseen (suc i) seen
first_unseen i (false ∷ seen) = some i

unfoldable pub validate_complete : PromptAccumulator → Option Missing
unfolding first_unseen
validate_complete p = elim (first_unseen 0 p.input_token_seen) [
  | some i ↦ some (missing_input_token i)
  | none ↦ elim (first_unseen 0 p.decode_token_seen) [
    | some i ↦ some (missing_decode_token i)
    | none ↦ elim (first_unseen 0 p.prefill_seen) [
      | some i ↦ some (missing_prefill_route i)
      | none ↦ elim (first_unseen 0 p.decode_seen) [
        | some i ↦ some (missing_decode_route i)
        | none ↦ none
      ]
    ]
  ]
]
