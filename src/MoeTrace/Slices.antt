-- ===== src/MoeTrace/Slices.antt =====
-- Slices of a prompt block: writeUint32Slice and writeExpertSlice of pkg/moetrace/writer.go,
-- readUint32Slice and readExpertSlice of pkg/moetrace/reader.go. A reader is the list of the bytes that
-- are left.
pub mod Codec
use llm_d_inference_sim.MoeTrace.Words.{drop, put_u16, put_u32, u16, u32, read_full}
use llm_d_inference_sim.Common.{
  ℕ, zero, suc, ◌*◌, List, [], ◌∷◌, ◌++◌, Option, none, some, Bool, true, false, if◌then◌else◌, ltb,
  ◌==◌, nat_comparable,
}

-- The buffer of writeUint32Slice.
unfoldable pub uint32_bytes : List ℕ → List ℕ
uint32_bytes [] = []
uint32_bytes (v ∷ values) = put_u32 v ++ uint32_bytes values

-- Two bytes for each expert.
pub uint16_bytes : List ℕ → List ℕ
uint16_bytes [] = []
uint16_bytes (v ∷ values) = put_u16 v ++ uint16_bytes values

-- One byte for each expert; an expert above 255 is refused.
pub expert_bytes_1 : List ℕ → Option (List ℕ)
expert_bytes_1 [] = some []
expert_bytes_1 (v ∷ values) = elim (expert_bytes_1 values) [
  | none ↦ none
  | some bs ↦ if ltb 255 v then none else some (v ∷ bs)
]

-- The buffer of writeExpertSlice.
unfoldable pub expert_bytes : ℕ → List ℕ → Option (List ℕ)
unfolding uint16_bytes expert_bytes_1
expert_bytes width values = if width == 1 then expert_bytes_1 values else some (uint16_bytes values)

-- The numbers of a buffer of four bytes each.
pub decode_uint32 : ℕ → List ℕ → List ℕ
decode_uint32 zero buf = []
decode_uint32 (suc n) buf = u32 buf ∷ decode_uint32 n (drop 4 buf)

pub decode_uint16 : ℕ → List ℕ → List ℕ
decode_uint16 zero buf = []
decode_uint16 (suc n) buf = u16 buf ∷ decode_uint16 n (drop 2 buf)

unfoldable pub read_uint32_slice : ℕ → List ℕ → Option (List ℕ × List ℕ)
unfolding decode_uint32
read_uint32_slice n bytes = elim (read_full (n * 4) bytes) [
  | none ↦ none
  | some (buf, rest) ↦ some (decode_uint32 n buf, rest)
]

unfoldable pub read_expert_slice : ℕ → ℕ → List ℕ → Option (List ℕ × List ℕ)
unfolding decode_uint16
read_expert_slice n width bytes =
    if width == 1 then read_full n bytes else elim (read_full (n * 2) bytes) [
      | none ↦ none
      | some (buf, rest) ↦ some (decode_uint16 n buf, rest)
    ]
