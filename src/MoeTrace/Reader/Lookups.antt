-- ===== src/MoeTrace/Reader/Lookups.antt =====
-- The lookups of pkg/moetrace/reader.go in a prompt that was read, whatever the file.
use llm_d_inference_sim.MoeTrace.Words.{take, drop, length-take, length-drop}
use llm_d_inference_sim.MoeTrace.Header.{IndexEntry}
use llm_d_inference_sim.MoeTrace.Accumulator.{PromptMetadata}
use llm_d_inference_sim.MoeTrace.Accumulator.Seen.{get_elem?-within}
use llm_d_inference_sim.MoeTrace.Slices.{read_uint32_slice, read_expert_slice}
use llm_d_inference_sim.MoeTrace.Slices.Codec.{length-read_uint32_slice, length-read_expert_slice}
use llm_d_inference_sim.MoeTrace.Reader.{
  Reader, PromptData, ReadError, required, check, read_source_gpus, read_section, read_prompt,
  slice, index_of, prefill_expert_count, prefill_experts, decode_experts, out_of_range, unread_data,
}
use llm_d_inference_sim.Common.Int.{ℤ, pos, negsuc}
use llm_d_inference_sim.Common.{
  ℕ, suc, ◌+◌, ◌*◌, ◌≤◌, ◌<◌, ◌≡◌, sym, ap, subst, ◌∙◌, List, Option, none, some, ◌==◌,
  nat_comparable, length, get_elem?, Result, ok, err, >>=-eq-ok, arith,
}
use native.Mathlib.Nat.{mul-le-mul_right}

-- The slices have the sizes that the lookups rely on.
pub record IsReadable (p : PromptData) : Type 0 where
  pub counts_size : length p.prefill_counts ≡ p.num_layers * p.num_experts
  pub prefill_size : length p.prefill_routes ≡ p.num_layers * length p.input_token_ids * p.top_k
  pub routes_size : length p.decode_routes ≡ length p.decode_token_ids * p.num_layers * p.top_k

abbrev OnRead : Result ReadError PromptData → Type 0
OnRead (ok p) = IsReadable p
OnRead (err e) = Unit

required-ok : {A : Type 0} (o : Option A) (e : ReadError) (a : A) → required o e ≡ ok a → o ≡ some a
required-ok none e a h = cc
required-ok (some b) e a h = cc

read_section-IsReadable :
    (r : Reader) (entry : IndexEntry) (meta : PromptMetadata) (section : List ℕ) (p : PromptData)
    → read_section r entry meta section ≡ ok p
    → IsReadable p
unfolding read_section
read_section-IsReadable r entry meta section p e =
    let input = >>=-eq-ok (required (read_uint32_slice _ _) _) _ e in
    let decode = >>=-eq-ok (required (read_uint32_slice _ _) _) _ input.2 in
    let counts = >>=-eq-ok (required (read_uint32_slice _ _) _) _ decode.2 in
    let prefill = >>=-eq-ok (required (read_expert_slice _ _ _) _) _ counts.2 in
    let routes = >>=-eq-ok (required (read_expert_slice _ _ _) _) _ prefill.2 in
    let sources =
      >>=-eq-ok
        (read_source_gpus r.header.version (length r.metadata.sparse_layers * entry.input_tokens)
          (entry.decode_tokens * length r.metadata.sparse_layers) routes.0.1)
        _ routes.2 in
    let layers = length r.metadata.sparse_layers in
    let built : PromptData = record {
      metadata = meta;
      input_token_ids = input.0.0;
      decode_token_ids = decode.0.0;
      prefill_counts = counts.0.0;
      prefill_routes = prefill.0.0;
      decode_routes = routes.0.0;
      prefill_source_gpus = sources.0.0;
      decode_source_gpus = sources.0.1;
      num_layers = layers;
      num_experts = r.metadata.num_experts;
      top_k = r.metadata.top_k;
      version = r.header.version;
      source_gpu_bytes = r.metadata.source_gpu_bytes;
    } in
    let end = >>=-eq-ok (check (length sources.0.2 == 0) unread_data) (λ _. ok built) sources.2 in
    let inputs : length input.0.0 ≡ entry.input_tokens =
      length-read_uint32_slice _ _ _ _ (required-ok _ _ _ input.1) in
    let decodes : length decode.0.0 ≡ entry.decode_tokens =
      length-read_uint32_slice _ _ _ _ (required-ok _ _ _ decode.1) in
    subst OnRead end.2 (record {
      counts_size = length-read_uint32_slice _ _ _ _ (required-ok _ _ _ counts.1);
      prefill_size =
          length-read_expert_slice _ _ _ _ _ (required-ok _ _ _ prefill.1)
          ∙ ap (λ n. layers * n * r.metadata.top_k) (sym inputs);
      routes_size =
          length-read_expert_slice _ _ _ _ _ (required-ok _ _ _ routes.1)
          ∙ ap (λ n. n * layers * r.metadata.top_k) (sym decodes);
    })

read_prompt-IsReadable :
    (r : Reader) (z : ℤ) (p : PromptData) → read_prompt r z ≡ ok p → IsReadable p
unfolding read_prompt
read_prompt-IsReadable r (negsuc n) p e = cc
read_prompt-IsReadable r (pos n) p e =
    let entry = >>=-eq-ok (required (get_elem? r.index n) _) _ e in
    let meta = >>=-eq-ok (required (get_elem? r.metadata.prompts n) _) _ entry.2 in
    read_section-IsReadable r entry.0 meta.0 _ p meta.2

-- A row of `k` entries lies within `a` times `b` rows.
row_within : (a b k i j : ℕ) → i < a → j < b → (i * b + j) * k + k ≤ a * b * k
row_within a b k i j h l =
    let row : suc (i * b + j) ≤ a * b = grind (arith, h, l) in omega (arith, mul-le-mul_right k row)

slice-within :
    (values : List ℕ) (base n : ℕ)
    → base + n ≤ length values
    → (xs : List ℕ) × (slice values base n ≡ ok xs) × (length xs ≡ n)
unfolding slice
slice-within values base n h = (
  take n (drop base values),
  ground (arith, h),
  length-take n (drop base values) (length-drop base n values h),
)

index_of-below : (n limit : ℕ) → n < limit → index_of (pos n) limit ≡ some n
unfolding index_of
index_of-below n limit h = ground (arith, h)

module _ (r : Reader) (z : ℤ) (p : PromptData) where
  -- In a prompt that was read, whatever the file, each place below the numbers of layers and tokens has its
  -- experts, as many as a token is routed to, and each expert of a layer its count: no lookup is beyond the
  -- end of a slice.
  pub read_prompt-lookups :
      (slot i j e : ℕ)
      → read_prompt r z ≡ ok p
      → slot < p.num_layers
      → i < length p.input_token_ids
      → j < length p.decode_token_ids
      → e < p.num_experts
      → ((xs : List ℕ) × (prefill_experts p (pos slot) (pos i) ≡ ok xs) × (length xs ≡ p.top_k))
        × ((ys : List ℕ) × (decode_experts p (pos j) (pos slot) ≡ ok ys) × (length ys ≡ p.top_k))
        × ((c : ℕ) × (prefill_expert_count p (pos slot) (pos e) ≡ ok c))
  unfolding prefill_experts decode_experts prefill_expert_count
  read_prompt-lookups slot i j e readable below_slot below_i below_j below_e =
      let d = read_prompt-IsReadable r z p readable in
      let inputs = length p.input_token_ids in
      let xs = slice-within p.prefill_routes ((slot * inputs + i) * p.top_k) p.top_k (
        omega (
          arith,
          d.prefill_size,
          row_within p.num_layers inputs p.top_k slot i below_slot below_i,
        )) in
      let ys = slice-within p.decode_routes ((j * p.num_layers + slot) * p.top_k) p.top_k (
        omega (
          arith,
          d.routes_size,
          row_within (length p.decode_token_ids) p.num_layers p.top_k j slot below_j below_slot,
        )) in
      let c = get_elem?-within p.prefill_counts (slot * p.num_experts + e) (
        omega (
          arith,
          d.counts_size,
          row_within p.num_layers p.num_experts 1 slot e below_slot below_e,
        )) in
      (
        (
          xs.0,
          rw
              (
                index_of-below slot p.num_layers below_slot,
                index_of-below i inputs below_i,
                prefill_experts,
              )
              xs.1,
          xs.2,
        ),
        (
          ys.0,
          rw
              (
                index_of-below j (length p.decode_token_ids) below_j,
                index_of-below slot p.num_layers below_slot,
                decode_experts,
              )
              ys.1,
          ys.2,
        ),
        (
          c.0,
          rw
              (
                index_of-below slot p.num_layers below_slot,
                index_of-below e p.num_experts below_e,
                prefill_expert_count,
              )
              (ap (λ o. required o out_of_range) c.1),
        ),
      )
