-- ===== src/MoeTrace/Slices/Codec.antt =====
-- The slices of a prompt block (pkg/moetrace/writer.go, pkg/moetrace/reader.go) are read as they were
-- written.
use llm_d_inference_sim.MoeTrace.Words.{
  drop, u16-put_u16, u32-put_u32, read_full, read_full-append, length-read_full,
}
use llm_d_inference_sim.MoeTrace.Slices.{
  uint32_bytes, uint16_bytes, expert_bytes_1, expert_bytes, decode_uint32, decode_uint16,
  read_uint32_slice, read_expert_slice,
}
use llm_d_inference_sim.Common.{
  zero, suc, sym, ◌∙◌, ℕ, ◌*◌, ◌<◌, ◌≡◌, refl, ap, List, [], ◌∷◌, ◌++◌, some, false, if◌then◌else◌,
  ltb, ◌==◌, nat_comparable, length, All, arith, Bool-cases, Option-cases, inl, inr,
}

pub length-uint32_bytes : (values : List ℕ) → length (uint32_bytes values) ≡ length values * 4
unfolding uint32_bytes
length-uint32_bytes [] = refl
length-uint32_bytes (v ∷ values) = omega (arith, length-uint32_bytes values)

pub length-uint16_bytes : (values : List ℕ) → length (uint16_bytes values) ≡ length values * 2
unfolding uint16_bytes
length-uint16_bytes [] = refl
length-uint16_bytes (v ∷ values) = omega (arith, length-uint16_bytes values)

decode_uint32-uint32_bytes :
    (values : List ℕ)
    → All (λ v. v < 4294967296) values
    → decode_uint32 (length values) (uint32_bytes values) ≡ values
unfolding decode_uint32 uint32_bytes
decode_uint32-uint32_bytes [] h = refl
decode_uint32-uint32_bytes (v ∷ values) h =
    λ i. u32-put_u32 v (uint32_bytes values) h.0 i ∷ decode_uint32-uint32_bytes values h.1 i

decode_uint16-uint16_bytes :
    (values : List ℕ)
    → All (λ v. v < 65536) values
    → decode_uint16 (length values) (uint16_bytes values) ≡ values
unfolding decode_uint16 uint16_bytes
decode_uint16-uint16_bytes [] h = refl
decode_uint16-uint16_bytes (v ∷ values) h =
    λ i. u16-put_u16 v (uint16_bytes values) h.0 i ∷ decode_uint16-uint16_bytes values h.1 i

-- A slice of one byte each is its own buffer.
pub expert_bytes_1_self : (values bs : List ℕ) → expert_bytes_1 values ≡ some bs → bs ≡ values
unfolding expert_bytes_1
expert_bytes_1_self [] bs e = cc
expert_bytes_1_self (v ∷ values) bs e = elim (Option-cases (expert_bytes_1 values)) [
  | inl refused ↦ let e' = rw (refused, expert_bytes_1) at e in cc
  | inr (cs, same) ↦ elim (Bool-cases (ltb 255 v)) [
    | inl large ↦ let e' = rw (same, large, expert_bytes_1) at e in cc
    | inr small ↦
        let e' = rw (same, small, expert_bytes_1) at e in cc (expert_bytes_1_self values cs same)
  ]
]

pub read_uint32_slice-uint32_bytes :
    (values rest : List ℕ)
    → All (λ v. v < 4294967296) values
    → read_uint32_slice (length values) (uint32_bytes values ++ rest) ≡ some (values, rest)
unfolding read_uint32_slice
read_uint32_slice-uint32_bytes values rest h =
    rw
      (
        read_full-append (length values * 4) (uint32_bytes values) rest
            (length-uint32_bytes values),
        read_uint32_slice,
      )
      (ap (λ vs. some (vs, rest)) (decode_uint32-uint32_bytes values h))

-- Two bytes for each expert, unless the width is one.
expert_bytes-wide :
    (width : ℕ) (values bs : List ℕ)
    → (width == 1) ≡ false
    → expert_bytes width values ≡ some bs
    → bs ≡ uint16_bytes values
unfolding expert_bytes
expert_bytes-wide width values bs two e = let e' = rw two at e in cc

-- The size of a buffer of experts.
pub length-expert_bytes :
    (width : ℕ) (values bs : List ℕ)
    → expert_bytes width values ≡ some bs
    → length bs ≡ length values * (if width == 1 then 1 else 2)
unfolding expert_bytes
length-expert_bytes width values bs e = elim (Bool-cases (width == 1)) [
  | inl one ↦ rw one (omega (arith, ap length (expert_bytes_1_self values bs (rw one at e))))
  | inr two ↦ rw two (
      omega
        (arith, ap length (expert_bytes-wide width values bs two e), length-uint16_bytes values))
]

pub read_expert_slice-expert_bytes :
    (width : ℕ) (values bs rest : List ℕ)
    → All (λ v. v < 65536) values
    → expert_bytes width values ≡ some bs
    → read_expert_slice (length values) width (bs ++ rest) ≡ some (values, rest)
unfolding read_expert_slice expert_bytes
read_expert_slice-expert_bytes width values bs rest h e = elim (Bool-cases (width == 1)) [
  | inl one ↦
      let same = expert_bytes_1_self values bs (rw one at e) in
      rw one (rw same (read_full-append (length values) values rest refl))
  | inr two ↦ rw two (
      rw (expert_bytes-wide width values bs two e) (
        rw
          (read_full-append (length values * 2) (uint16_bytes values) rest
            (length-uint16_bytes values))
          (ap (λ vs. some (vs, rest)) (decode_uint16-uint16_bytes values h))))
]

length-decode_uint32 : (n : ℕ) (buf : List ℕ) → length (decode_uint32 n buf) ≡ n
unfolding decode_uint32
length-decode_uint32 zero buf = refl
length-decode_uint32 (suc n) buf = ap suc (length-decode_uint32 n (drop 4 buf))

length-decode_uint16 : (n : ℕ) (buf : List ℕ) → length (decode_uint16 n buf) ≡ n
unfolding decode_uint16
length-decode_uint16 zero buf = refl
length-decode_uint16 (suc n) buf = ap suc (length-decode_uint16 n (drop 2 buf))

-- A slice that was read has the size that was asked for.
pub length-read_uint32_slice :
    (n : ℕ) (bytes xs rest : List ℕ) → read_uint32_slice n bytes ≡ some (xs, rest) → length xs ≡ n
unfolding read_uint32_slice
length-read_uint32_slice n bytes xs rest e = elim (Option-cases (read_full (n * 4) bytes)) [
  | inl missing ↦ let e' = rw (missing, read_uint32_slice) at e in cc
  | inr (read, found) ↦
      let e' = rw (found, read_uint32_slice) at e in
      let same : decode_uint32 n read.0 ≡ xs = cc e' in
      ap length (sym same) ∙ length-decode_uint32 n read.0
]

pub length-read_expert_slice :
    (n width : ℕ) (bytes xs rest : List ℕ)
    → read_expert_slice n width bytes ≡ some (xs, rest)
    → length xs ≡ n
unfolding read_expert_slice
length-read_expert_slice n width bytes xs rest e = elim (Bool-cases (width == 1)) [
  | inl one ↦ length-read_full n bytes xs rest (rw one at e)
  | inr two ↦ elim (Option-cases (read_full (n * 2) bytes)) [
    | inl missing ↦ let e' = rw (two, missing, read_expert_slice) at e in cc
    | inr (read, found) ↦
        let e' = rw (two, found, read_expert_slice) at e in
        let same : decode_uint16 n read.0 ≡ xs = cc e' in
        ap length (sym same) ∙ length-decode_uint16 n read.0
  ]
]
