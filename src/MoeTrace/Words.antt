-- ===== src/MoeTrace/Words.antt =====
-- Little-endian numbers of pkg/moetrace/format.go: encoding/binary's PutUint16, PutUint32, PutUint64
-- and Uint16, Uint32, Uint64. A byte is a number below 256; a conversion to a narrower type drops the
-- high bytes.
use llm_d_inference_sim.Common.{
  ◌≤◌, ℕ, zero, suc, ◌+◌, ◌*◌, ◌/◌, ◌%◌, ◌<◌, ◌≡◌, refl, ap, List, [], ◌∷◌, ◌++◌, Option, none,
  some, length, length-append, arith, ltb, if◌then◌else◌,
}

abbrev pub take {ℓ} : {A : Type ℓ} → ℕ → List A → List A
take zero xs = []
take (suc n) [] = []
take (suc n) (x ∷ xs) = x ∷ take n xs

abbrev pub drop {ℓ} : {A : Type ℓ} → ℕ → List A → List A
drop zero xs = xs
drop (suc n) [] = []
drop (suc n) (x ∷ xs) = drop n xs

module _ {ℓ} {A : Type ℓ} where
  pub take-append_length : (xs ys : List A) → take (length xs) (xs ++ ys) ≡ xs
  take-append_length [] ys = refl
  take-append_length (x ∷ xs) ys = ap (◌∷◌ x) (take-append_length xs ys)

  pub drop-append_length : (xs ys : List A) → drop (length xs) (xs ++ ys) ≡ ys
  drop-append_length [] ys = refl
  drop-append_length (x ∷ xs) ys = drop-append_length xs ys

abbrev pub put_u16 : ℕ → List ℕ
put_u16 v = v % 256 ∷ (v / 256 % 256) ∷ []

abbrev pub put_u32 : ℕ → List ℕ
put_u32 v = v % 256 ∷ (v / 256 % 256) ∷ (v / 65536 % 256) ∷ (v / 16777216 % 256) ∷ []

abbrev pub put_u64 : ℕ → List ℕ
put_u64 v = put_u32 (v % 4294967296) ++ put_u32 (v / 4294967296)

-- The number in the first bytes of a slice that is long enough.
abbrev pub u16 : List ℕ → ℕ
u16 (a ∷ b ∷ rest) = a + 256 * b
u16 (a ∷ []) = a
u16 [] = 0

abbrev pub u32 : List ℕ → ℕ
u32 (a ∷ b ∷ c ∷ d ∷ rest) = a + 256 * b + 65536 * c + 16777216 * d
u32 (a ∷ b ∷ c ∷ []) = 0
u32 (a ∷ b ∷ []) = 0
u32 (a ∷ []) = 0
u32 [] = 0

abbrev pub u64 : List ℕ → ℕ
u64 bytes = u32 bytes + 4294967296 * u32 (drop 4 bytes)

pub u16-put_u16 : (v : ℕ) (rest : List ℕ) → v < 65536 → u16 (put_u16 v ++ rest) ≡ v
u16-put_u16 v rest h = omega arith

pub u32-put_u32 : (v : ℕ) (rest : List ℕ) → v < 4294967296 → u32 (put_u32 v ++ rest) ≡ v
u32-put_u32 v rest h = omega arith

pub u64-put_u64 : (v : ℕ) (rest : List ℕ) → v < 18446744073709551616 → u64 (put_u64 v ++ rest) ≡ v
u64-put_u64 v rest h = omega arith

-- A reader that fails at the end of its bytes: io.ReadFull.
unfoldable pub read_full : ℕ → List ℕ → Option (List ℕ × List ℕ)
read_full n bytes = if ltb (length bytes) n then none else some (take n bytes, drop n bytes)

-- What was put in front is read back.
pub read_full-append :
    (n : ℕ) (xs rest : List ℕ) → length xs ≡ n → read_full n (xs ++ rest) ≡ some (xs, rest)
unfolding read_full
read_full-append n xs rest e =
    rw (← e) (
      ground (arith, length-append xs rest, take-append_length xs rest, drop-append_length xs rest))

pub take_all {ℓ} :
    {A : Type ℓ} (n : ℕ) (xs rest : List A) → length xs ≡ n → take n (xs ++ rest) ≡ xs
take_all n xs rest e = rw (← e) (take-append_length xs rest)

pub drop_all {ℓ} :
    {A : Type ℓ} (n : ℕ) (xs rest : List A) → length xs ≡ n → drop n (xs ++ rest) ≡ rest
drop_all n xs rest e = rw (← e) (drop-append_length xs rest)

pub length-take : (n : ℕ) (xs : List ℕ) → n ≤ length xs → length (take n xs) ≡ n
length-take zero xs h = refl
length-take (suc n) [] h = absurd (omega (arith, h))
length-take (suc n) (x ∷ xs) h = ap suc (length-take n xs (omega (arith, h)))

-- As many bytes are read as were asked for.
pub length-read_full :
    (n : ℕ) (bytes xs rest : List ℕ) → read_full n bytes ≡ some (xs, rest) → length xs ≡ n
unfolding read_full
length-read_full n bytes xs rest e = ground (arith, length-take n bytes, e)

pub length-drop : (base n : ℕ) (xs : List ℕ) → base + n ≤ length xs → n ≤ length (drop base xs)
length-drop zero n xs h = omega (arith, h)
length-drop (suc base) n [] h = absurd (omega (arith, h))
length-drop (suc base) n (x ∷ xs) h = length-drop base n xs (omega (arith, h))
