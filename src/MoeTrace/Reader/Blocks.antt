-- ===== src/MoeTrace/Reader/Blocks.antt =====
-- A prompt block that pkg/moetrace/writer.go wrote, read by pkg/moetrace/reader.go.
use llm_d_inference_sim.MoeTrace.Words.{take, drop, take_all, drop_all}
use llm_d_inference_sim.MoeTrace.Header.{IndexEntry}
use llm_d_inference_sim.MoeTrace.Accumulator.{PromptAccumulator}
use llm_d_inference_sim.MoeTrace.Slices.{
  uint32_bytes, expert_bytes, read_uint32_slice, read_expert_slice,
}
use llm_d_inference_sim.MoeTrace.Slices.Codec.{
  read_uint32_slice-uint32_bytes, read_expert_slice-expert_bytes,
}
use llm_d_inference_sim.MoeTrace.Writer.{prompt_header}
use llm_d_inference_sim.MoeTrace.Writer.Grown.{payload}
use llm_d_inference_sim.MoeTrace.Reader.{
  Reader, PromptData, read_source_gpus, read_section, read_prompt,
}
use llm_d_inference_sim.Common.Int.{pos}
use llm_d_inference_sim.Common.{
  ℕ, ◌+◌, ◌-◌, ◌*◌, ◌<◌, ◌≡◌, refl, sym, ◌∙◌, List, [], ◌++◌, some, nat_comparable, length,
  get_elem?, ok, All, arith, append_assoc, append_nil, length-append,
}

-- The slices have the sizes that the numbers of tokens, layers and experts give, and their entries fit.
pub record IsSized (p : PromptAccumulator) : Type 0 where
  pub input_size : length p.input_token_ids ≡ p.meta.input_tokens
  pub decode_size : length p.decode_token_ids ≡ p.meta.decode_tokens
  pub counts_size : length p.prefill_counts ≡ p.num_layers * p.num_experts
  pub prefill_size : length p.prefill_routes ≡ p.num_layers * p.meta.input_tokens * p.top_k
  pub routes_size : length p.decode_routes ≡ p.meta.decode_tokens * p.num_layers * p.top_k
  pub input_fits : All (λ v. v < 4294967296) p.input_token_ids
  pub decode_fits : All (λ v. v < 4294967296) p.decode_token_ids
  pub counts_fit : All (λ v. v < 4294967296) p.prefill_counts
  pub prefill_fits : All (λ v. v < 65536) p.prefill_routes
  pub routes_fit : All (λ v. v < 65536) p.decode_routes

-- What a reader has of a prompt that was written.
abbrev pub data_of : PromptAccumulator → ℕ → PromptData
data_of p source_bytes = record {
  metadata = p.meta;
  input_token_ids = p.input_token_ids;
  decode_token_ids = p.decode_token_ids;
  prefill_counts = p.prefill_counts;
  prefill_routes = p.prefill_routes;
  decode_routes = p.decode_routes;
  prefill_source_gpus = [];
  decode_source_gpus = [];
  num_layers = p.num_layers;
  num_experts = p.num_experts;
  top_k = p.top_k;
  version = 1;
  source_gpu_bytes = source_bytes;
}

-- The metadata of a reader are those with which the prompt was collected.
pub record Agrees (r : Reader) (p : PromptAccumulator) : Type 0 where
  pub layers : length r.metadata.sparse_layers ≡ p.num_layers
  pub experts : r.metadata.num_experts ≡ p.num_experts
  pub top : r.metadata.top_k ≡ p.top_k
  pub version_1 : r.header.version ≡ 1

pub read_section-payload :
    (r : Reader) (entry : IndexEntry) (p : PromptAccumulator) (prefill decode : List ℕ)
    → IsSized p
    → Agrees r p
    → entry.input_tokens ≡ p.meta.input_tokens
    → entry.decode_tokens ≡ p.meta.decode_tokens
    → expert_bytes r.metadata.metadata_expert_bytes p.prefill_routes ≡ some prefill
    → expert_bytes r.metadata.metadata_expert_bytes p.decode_routes ≡ some decode
    → read_section r entry p.meta (payload p prefill decode)
      ≡ ok (data_of p r.metadata.source_gpu_bytes)
unfolding read_section
read_section-payload r entry p prefill decode s a input_same decode_same prefill_encoded
      decode_encoded =
    rw (input_back, decode_back, counts_back, prefill_back, routes_back, sources, read_section)
      (λ i. ok (record (data_of p r.metadata.source_gpu_bytes) {
        num_layers = a.layers i;
        num_experts = a.experts i;
        top_k = a.top i;
        version = a.version_1 i;
      }))
  where
    width : ℕ
    width = r.metadata.metadata_expert_bytes

    input_back :
        read_uint32_slice entry.input_tokens (payload p prefill decode)
        ≡ some (
          p.input_token_ids,
          uint32_bytes p.decode_token_ids ++ (uint32_bytes p.prefill_counts ++ (prefill ++ decode)),
        )
    input_back =
        rw (input_same ∙ sym s.input_size) (read_uint32_slice-uint32_bytes _ _ s.input_fits)

    decode_back :
        read_uint32_slice entry.decode_tokens (
          uint32_bytes p.decode_token_ids ++ (uint32_bytes p.prefill_counts ++ (prefill ++ decode)))
        ≡ some (p.decode_token_ids, uint32_bytes p.prefill_counts ++ (prefill ++ decode))
    decode_back =
        rw (decode_same ∙ sym s.decode_size) (read_uint32_slice-uint32_bytes _ _ s.decode_fits)

    counts_back :
        read_uint32_slice
          (length r.metadata.sparse_layers * r.metadata.num_experts)
          (uint32_bytes p.prefill_counts ++ (prefill ++ decode))
        ≡ some (p.prefill_counts, prefill ++ decode)
    counts_back =
        rw (a.layers, a.experts, sym s.counts_size)
          (read_uint32_slice-uint32_bytes _ _ s.counts_fit)

    prefill_back :
        read_expert_slice
          (length r.metadata.sparse_layers * entry.input_tokens * r.metadata.top_k)
          width
          (prefill ++ decode)
        ≡ some (p.prefill_routes, decode)
    prefill_back =
        rw (a.layers, a.top, input_same, sym s.prefill_size)
          (read_expert_slice-expert_bytes width p.prefill_routes prefill decode s.prefill_fits
            prefill_encoded)

    routes_back :
        read_expert_slice
          (entry.decode_tokens * length r.metadata.sparse_layers * r.metadata.top_k)
          width
          decode
        ≡ some (p.decode_routes, [])
    routes_back =
        rw (a.layers, a.top, decode_same, sym s.routes_size)
          (rw (append_nil decode) at (
            read_expert_slice-expert_bytes width p.decode_routes decode [] s.routes_fit
              decode_encoded))

    sources : (m n : ℕ) → read_source_gpus r.header.version m n [] ≡ ok ([], [], [])
    sources m n = rw a.version_1 refl

-- A block within a file, after `before`, is read back by the entry that tells its place.
pub read_prompt-block :
    (r : Reader) (n : ℕ) (entry : IndexEntry) (p : PromptAccumulator)
    (prefill decode before after : List ℕ)
    → IsSized p
    → Agrees r p
    → get_elem? r.index n ≡ some entry
    → get_elem? r.metadata.prompts n ≡ some p.meta
    → entry.input_tokens ≡ p.meta.input_tokens
    → entry.decode_tokens ≡ p.meta.decode_tokens
    → entry.offset ≡ length before
    → entry.length ≡ 32 + length (payload p prefill decode)
    → r.file
      ≡ before
        ++ (prompt_header p r.metadata.metadata_expert_bytes ++ (payload p prefill decode ++ after))
    → expert_bytes r.metadata.metadata_expert_bytes p.prefill_routes ≡ some prefill
    → expert_bytes r.metadata.metadata_expert_bytes p.decode_routes ≡ some decode
    → read_prompt r (pos n) ≡ ok (data_of p r.metadata.source_gpu_bytes)
unfolding read_prompt prompt_header
read_prompt-block r n entry p prefill decode before after s a found meta_found input_same
      decode_same start size file prefill_encoded decode_encoded =
    rw (found, meta_found, section, read_prompt)
      (read_section-payload r entry p prefill decode s a input_same decode_same prefill_encoded
        decode_encoded)
  where
    hdr : List ℕ
    hdr = prompt_header p r.metadata.metadata_expert_bytes

    tail : drop (entry.offset + 32) r.file ≡ payload p prefill decode ++ after
    tail =
        rw (file, sym (append_assoc before hdr (payload p prefill decode ++ after)))
          (drop_all (entry.offset + 32) (before ++ hdr) (payload p prefill decode ++ after)
            (omega (arith, start, length-append before hdr)))

    section : take (entry.length - 32) (drop (entry.offset + 32) r.file) ≡ payload p prefill decode
    section =
        rw tail
          (take_all (entry.length - 32) (payload p prefill decode) after (omega (arith, size)))
