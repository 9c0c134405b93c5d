-- ===== src/MoeTrace/Length/Exact.antt =====
-- The checked sizes of pkg/moetrace/format.go and the exact ones.
use llm_d_inference_sim.MoeTrace.Length.{
  u64_mod, SizeError, size_overflows, checked_mul, checked_add, add_all, add_sources,
  prompt_block_length_for_version,
}
use llm_d_inference_sim.Common.{
  sum, ℕ, ◌+◌, ◌-◌, ◌*◌, ◌/◌, ◌≤◌, ◌<◌, ◌≡◌, ◌⊎◌, refl, ap, ◌∙◌, true, List, [], ◌∷◌, ltb, leb,
  ◌==◌, if◌then◌else◌, nat_comparable, Result, ok, err, ◌>>=◌, arith, Bool-cases, inl, inr,
  nat_beq_iff, le-mul,
}
use native.Mathlib.Nat.{mod-eq_of_lt, div-lt_iff_lt-mul, le-div_iff_mul-le, mul_comm}

-- Both outcomes of a checked product: it fits and is exact, or it overflows.
pub checked_mul_cases :
    (a b : ℕ)
    → ((checked_mul a b ≡ ok (a * b)) × (a * b < u64_mod))
      ⊎ ((checked_mul a b ≡ err size_overflows) × (u64_mod ≤ a * b))
unfolding checked_mul
checked_mul_cases a b = elim (Bool-cases (a == 0)) [
  | inl z ↦
      let none_left : a * b ≡ 0 = omega (arith, ap (λ (t : ℕ). t * b) ((nat_beq_iff a 0).0 z)) in
      inl (ground (arith, z, none_left), omega (arith, none_left))
  | inr p ↦ elim (Bool-cases (ltb ((u64_mod - 1) / a) b)) [
    | inl over ↦
        let large =
          (div-lt_iff_lt-mul {k = a} {x = u64_mod - 1} {y = b} (ground (arith, p))).0
            (ground (arith, over)) in
        inr (rw p (rw over refl), omega (arith, large, mul_comm b a))
    | inr fits ↦
        let small =
          (le-div_iff_mul-le {k = a} {x = b} {y = u64_mod - 1} (ground (arith, p))).0
            (ground (arith, fits)) in
        let below : a * b < u64_mod = omega (arith, small, mul_comm b a) in
        inl (rw p (rw fits (ap ok (mod-eq_of_lt below))), below)
  ]
]

pub checked_add_cases :
    (a b : ℕ)
    → a < u64_mod
    → ((checked_add a b ≡ ok (a + b)) × (a + b < u64_mod))
      ⊎ ((checked_add a b ≡ err size_overflows) × (u64_mod ≤ a + b))
unfolding checked_add
checked_add_cases a b h = elim (Bool-cases (ltb (u64_mod - 1 - a) b)) [
  | inl over ↦ inr (rw over refl, ground (arith, over))
  | inr fits ↦
      let small : a + b < u64_mod = ground (arith, fits) in
      inl (rw fits (ap ok (mod-eq_of_lt small)), small)
]

-- The length of a prompt block as a plain number.
abbrev pub exact_length : ℕ → ℕ → ℕ → ℕ → ℕ → ℕ → ℕ → ℕ → ℕ
exact_length i d l e k w version s =
    32
    + i * 4
    + d * 4
    + l * e * 4
    + (i + d) * l * k * w
    + (if leb 2 version then (i + d) * l * s else 0)

-- A size is exact and fits, or the overflow is reported; `large` tells that it does not fit.
abbrev pub Checked : ℕ → Type 0 → Result SizeError ℕ → Type 0
Checked n large r = ((r ≡ ok n) × (n < u64_mod)) ⊎ ((r ≡ err size_overflows) × large)

add_sources-Checked :
    (version t l s total : ℕ)
    → total < u64_mod
    → Checked
        (total + (if leb 2 version then t * l * s else 0))
        ((leb 2 version ≡ true → 0 < s)
          → u64_mod ≤ total + (if leb 2 version then t * l * s else 0))
        (add_sources version t l s total)
unfolding add_sources
add_sources-Checked version t l s total h = elim (Bool-cases (leb 2 version)) [
  | inr old ↦ rw old (inl (ap ok (omega arith), omega (arith, h)))
  | inl new ↦ rw new (elim (checked_mul_cases t l) [
    | inr (e, large) ↦ rw e (inr (refl, λ p. omega (arith, large, le-mul (t * l) s (p refl))))
    | inl (e, small) ↦ rw e (elim (checked_mul_cases (t * l) s) [
      | inr (e', large) ↦ rw e' (inr (refl, λ p. omega (arith, large)))
      | inl (e', small') ↦ rw e' (elim (checked_add_cases total (t * l * s) h) [
        | inr (e₃, large) ↦ inr (e₃, λ p. large)
        | inl r ↦ inl r
      ])
    ])
  ])
]

add_all-Checked :
    (total : ℕ) (ns : List ℕ)
    → total < u64_mod
    → Checked (total + sum ns) (u64_mod ≤ total + sum ns) (add_all total ns)
unfolding add_all
add_all-Checked total [] h = inl (ap ok (omega arith), omega (arith, h))
add_all-Checked total (n ∷ ns) h = elim (checked_add_cases total n h) [
  | inr (e, large) ↦ rw e (inr (refl, omega (arith, large)))
  | inl (e, small) ↦ rw e (elim (add_all-Checked (total + n) ns small) [
    | inl (e', fits) ↦ inl (e' ∙ ap ok (omega arith), omega (arith, fits))
    | inr (e', large) ↦ inr (e', omega (arith, large))
  ])
]

-- The end of the computation, from the four parts.
abbrev total_of : ℕ → ℕ → ℕ → ℕ → ℕ → ℕ → ℕ → ℕ → Result SizeError ℕ
total_of a b c r version t l s =
    add_all 32 (a ∷ b ∷ c ∷ r ∷ []) >>= λ total. add_sources version t l s total

total_of-Checked :
    (a b c r version t l s : ℕ)
    → Checked
        (32 + a + b + c + r + (if leb 2 version then t * l * s else 0))
        ((leb 2 version ≡ true → 0 < s)
          → u64_mod ≤ 32 + a + b + c + r + (if leb 2 version then t * l * s else 0))
        (total_of a b c r version t l s)
total_of-Checked a b c r version t l s =
    elim (add_all-Checked 32 (a ∷ b ∷ c ∷ r ∷ []) (omega arith)) [
      | inr (e, large) ↦ rw e (inr (refl, λ p. omega (arith, large)))
      | inl (e, small) ↦
          rw e (elim (add_sources-Checked version t l s (32 + sum (a ∷ b ∷ c ∷ r ∷ [])) small) [
            | inl (e', fits) ↦ inl (e' ∙ ap ok (omega arith), omega (arith, fits))
            | inr (e', large) ↦ inr (e', λ p. omega (arith, large p))
          ])
    ]

-- No size is zero, which would hide a product that overflows.
abbrev pub IsPositive : ℕ → ℕ → ℕ → ℕ → Type 0
IsPositive k w version s = (0 < k) × (0 < w) × (leb 2 version ≡ true → 0 < s)

routes-Checked :
    (a b c t l k w version s : ℕ)
    → Checked
        (32 + a + b + c + t * l * k * w + (if leb 2 version then t * l * s else 0))
        (IsPositive k w version s
          → u64_mod ≤ 32 + a + b + c + t * l * k * w + (if leb 2 version then t * l * s else 0))
        (checked_mul t l >>= λ layer. checked_mul layer k >>= λ route.
          checked_mul route w >>= λ bytes. total_of a b c bytes version t l s)
routes-Checked a b c t l k w version s = elim (checked_mul_cases t l) [
  | inr (e₁, large) ↦
      rw e₁ (inr (refl, λ p. omega (arith, large, le-mul (t * l) k p.0, le-mul (t * l * k) w p.1)))
  | inl (e₁, fits₁) ↦ rw e₁ (elim (checked_mul_cases (t * l) k) [
    | inr (e₂, large) ↦ rw e₂ (inr (refl, λ p. omega (arith, large, le-mul (t * l * k) w p.1)))
    | inl (e₂, fits₂) ↦ rw e₂ (elim (checked_mul_cases (t * l * k) w) [
      | inr (e₃, large) ↦ rw e₃ (inr (refl, λ p. omega (arith, large)))
      | inl (e₃, fits₃) ↦ rw e₃ (elim (total_of-Checked a b c (t * l * k * w) version t l s) [
        | inl r ↦ inl r
        | inr (e₄, large) ↦ inr (e₄, λ p. large p.2)
      ])
    ])
  ])
]

module _ (i d l e k w version s : ℕ) where
  -- The length of a prompt block is exact and below 2 ^ 64, or the overflow is reported; if the numbers of
  -- experts and bytes are positive, it is reported only if the exact length does not fit.
  pub prompt_block_length_for_version-Checked :
      Checked
        (exact_length i d l e k w version s)
        (IsPositive k w version s → u64_mod ≤ exact_length i d l e k w version s)
        (prompt_block_length_for_version i d l e k w version s)
  unfolding prompt_block_length_for_version
  prompt_block_length_for_version-Checked = elim (checked_mul_cases i 4) [
    | inr (e₁, large) ↦ rw e₁ (inr (refl, λ p. omega (arith, large)))
    | inl (e₁, fits₁) ↦ rw e₁ (elim (checked_mul_cases d 4) [
      | inr (e₂, large) ↦ rw e₂ (inr (refl, λ p. omega (arith, large)))
      | inl (e₂, fits₂) ↦ rw e₂ (elim (checked_mul_cases l e) [
        | inr (e₃, large) ↦ rw e₃ (inr (refl, λ p. omega (arith, large)))
        | inl (e₃, fits₃) ↦ rw e₃ (elim (checked_mul_cases (l * e) 4) [
          | inr (e₄, large) ↦ rw e₄ (inr (refl, λ p. omega (arith, large)))
          | inl (e₄, fits₄) ↦ rw e₄ (elim (checked_add_cases i d (omega (arith, fits₁))) [
            | inr (e₅, large) ↦ rw e₅ (inr (refl, λ p. omega (arith, large)))
            | inl (e₅, fits₅) ↦
                rw e₅ (routes-Checked (i * 4) (d * 4) (l * e * 4) (i + d) l k w version s)
          ])
        ])
      ])
    ])
  ]
