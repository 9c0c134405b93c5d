-- ===== src/StartOptions/Render.antt =====
-- Options as arguments, for ParseStartOptions of pkg/simulator/start_options.go.
use llm_d_inference_sim.StartOptions.{
  StartOptions, PathOption, trace_path, placement_path, profile_output, Seen, other, classify,
  seen_path, with_path, set_path, set_runtime, parse_arguments, nothing_seen, check_seen,
  parse_start_options, path_of, flag_of, keep, path_flag, is_empty_path, was_seen,
}
use llm_d_inference_sim.Common.{
  ◌≡◌, refl, sym, ap, List, [], ◌∷◌, ◌++◌, append_assoc, Option, none, some, String, Bool, true,
  false, not, ◌&&◌, if◌then◌else◌, ◌==◌, nat_comparable, string_comparable, ok, ◌>>=◌, All,
  Bool-cases, inl, inr,
}

abbrev pub flag_name : PathOption → String
flag_name trace_path = "--moe-trace-path"
flag_name placement_path = "--moe-fixed-placement-path"
flag_name profile_output = "--moe-profile-output"

-- An option that is set, as arguments.
pub path_arguments : PathOption → String → List String
path_arguments o path = if path == "" then [] else flag_name o ∷ path ∷ []

pub render : StartOptions → List String
unfolding path_arguments
render o =
    path_arguments trace_path o.moe_trace_path
    ++ (path_arguments placement_path o.moe_fixed_placement_path
        ++ (path_arguments profile_output o.moe_profile_output
            ++ (if o.moe_count_router_runtime then "--moe-count-router-runtime" ∷ [] else [])))

-- The other options are set only with a trace.
pub record IsConsistent (o : StartOptions) : Type 0 where
  pub placement_with_trace :
      (o.moe_trace_path == "") ≡ true → (o.moe_fixed_placement_path == "") ≡ true
  pub profile_with_trace : (o.moe_trace_path == "") ≡ true → (o.moe_profile_output == "") ≡ true
  pub runtime_with_trace : (o.moe_trace_path == "") ≡ true → o.moe_count_router_runtime ≡ false

classify-flag_name : (o : PathOption) → classify (flag_name o) ≡ path_flag o
unfolding classify
classify-flag_name trace_path = refl
classify-flag_name placement_path = refl
classify-flag_name profile_output = refl

-- A path that is not empty is seen.
with_path? : PathOption → String → Seen → Seen
with_path? o path s = if path == "" then s else with_path o path s

module _ (parse_bool : String → Option Bool) where
  parse_arguments-other :
      (s : Seen) (args : List String)
      → All (λ a. classify a ≡ other) args
      → parse_arguments parse_bool s args ≡ ok (s, args)
  unfolding parse_arguments
  parse_arguments-other s [] h = refl
  parse_arguments-other s (a ∷ []) h = rw (h.0, parse_arguments) refl
  parse_arguments-other s (a ∷ b ∷ args) h =
      rw (h.0, parse_arguments) (ap (λ r. r >>= keep a) (parse_arguments-other s (b ∷ args) h.1))

  parse_arguments-path :
      (o : PathOption) (path : String) (s : Seen) (args : List String)
      → seen_path o s ≡ none
      → parse_arguments parse_bool s (path_arguments o path ++ args)
        ≡ parse_arguments parse_bool (with_path? o path s) args
  unfolding path_arguments with_path? parse_arguments
  parse_arguments-path o path s args e = elim (Bool-cases (path == "")) [
    | inl empty ↦ rw empty refl
    | inr given ↦ rw given (rw (classify-flag_name o, parse_arguments) (rw (e, set_path) refl))
  ]

  parse_arguments-runtime :
      (b : Bool) (s : Seen) (args : List String)
      → s.runtime ≡ none
      → parse_arguments parse_bool s ((if b then "--moe-count-router-runtime" ∷ [] else []) ++ args)
        ≡ parse_arguments parse_bool (if b then record s { runtime = some true } else s) args
  unfolding parse_arguments
  parse_arguments-runtime false s args e = refl
  parse_arguments-runtime true s [] e = rw (e, set_runtime) refl
  parse_arguments-runtime true s (a ∷ args) e = rw (e, set_runtime) refl

-- A path as the parser holds it.
abbrev given_path : String → Option String
given_path path = if path == "" then none else some path

abbrev given_flag : Bool → Option Bool
given_flag b = if b then some true else none

abbrev seen : Option String → Option String → Option String → Option Bool → Seen
seen t p q b = record { trace = t; placement = p; profile = q; runtime = b }

path_of-given_path : (path : String) → path_of (given_path path) ≡ path
path_of-given_path path = elim (Bool-cases (path == "")) [
  | inl empty ↦ rw empty (sym ((string_comparable.test_iff path "").0 empty))
  | inr given ↦ rw given refl
]

is_empty_path-given_path : (path : String) → is_empty_path (given_path path) ≡ false
is_empty_path-given_path path = elim (Bool-cases (path == "")) [
  | inl empty ↦ rw empty refl
  | inr given ↦ rw given given
]

with_trace :
    (t : String) → with_path? trace_path t nothing_seen ≡ seen (given_path t) none none none
unfolding with_path? with_path
with_trace t = elim (Bool-cases (t == "")) [ inl e ↦ rw e refl | inr e ↦ rw e refl ]

with_placement :
    (t : Option String) (p : String)
    → with_path? placement_path p (seen t none none none) ≡ seen t (given_path p) none none
unfolding with_path? with_path
with_placement t p = elim (Bool-cases (p == "")) [ inl e ↦ rw e refl | inr e ↦ rw e refl ]

with_profile :
    (t p : Option String) (q : String)
    → with_path? profile_output q (seen t p none none) ≡ seen t p (given_path q) none
unfolding with_path? with_path
with_profile t p q = elim (Bool-cases (q == "")) [ inl e ↦ rw e refl | inr e ↦ rw e refl ]

with_runtime :
    (t p q : Option String) (b : Bool)
    → (if b then record (seen t p q none) { runtime = some true } else seen t p q none)
      ≡ seen t p q (given_flag b)
with_runtime t p q true = refl
with_runtime t p q false = refl

-- An option without a trace is not set.
no_conflict : (x y : Bool) → (y ≡ true → x ≡ true) → (not x && y) ≡ false
no_conflict true y h = refl
no_conflict false true h = let e = h refl in cc
no_conflict false false h = refl

no_runtime_conflict : (b y : Bool) → (y ≡ true → b ≡ false) → (was_seen (given_flag b) && y) ≡ false
no_runtime_conflict true true h = let e = h refl in cc
no_runtime_conflict true false h = refl
no_runtime_conflict false y h = refl

flag_of-given_flag : (b : Bool) → flag_of (given_flag b) ≡ b
flag_of-given_flag true = refl
flag_of-given_flag false = refl

check_seen-given :
    (o : StartOptions)
    → IsConsistent o
    → check_seen (
        seen
          (given_path o.moe_trace_path)
          (given_path o.moe_fixed_placement_path)
          (given_path o.moe_profile_output)
          (given_flag o.moe_count_router_runtime))
      ≡ ok o
unfolding check_seen
check_seen-given o h =
    rw
      (
        is_empty_path-given_path o.moe_trace_path,
        is_empty_path-given_path o.moe_fixed_placement_path,
        is_empty_path-given_path o.moe_profile_output,
        path_of-given_path o.moe_trace_path,
        path_of-given_path o.moe_fixed_placement_path,
        path_of-given_path o.moe_profile_output,
        flag_of-given_flag o.moe_count_router_runtime,
        no_conflict _ _ h.placement_with_trace,
        no_conflict _ _ h.profile_with_trace,
        no_runtime_conflict _ _ h.runtime_with_trace,
        check_seen,
      )
      refl

unfoldable all_seen : StartOptions → Seen
all_seen o =
    seen (given_path o.moe_trace_path) (given_path o.moe_fixed_placement_path)
      (given_path o.moe_profile_output) (given_flag o.moe_count_router_runtime)

parsed :
    (parse_bool : String → Option Bool) (o : StartOptions) (rest : List String)
    → All (λ a. classify a ≡ other) rest
    → parse_arguments parse_bool nothing_seen (render o ++ rest) ≡ ok (all_seen o, rest)
unfolding render all_seen seen_path
parsed parse_bool o rest others =
    let t = path_arguments trace_path o.moe_trace_path in
    let p = path_arguments placement_path o.moe_fixed_placement_path in
    let q = path_arguments profile_output o.moe_profile_output in
    let b : List String =
      if o.moe_count_router_runtime then "--moe-count-router-runtime" ∷ [] else [] in
    rw
      (
        append_assoc t (p ++ (q ++ b)) rest,
        append_assoc p (q ++ b) rest,
        append_assoc q b rest,
        parse_arguments-path parse_bool trace_path o.moe_trace_path nothing_seen
            (p ++ (q ++ (b ++ rest))) refl,
        with_trace o.moe_trace_path,
        parse_arguments-path parse_bool placement_path o.moe_fixed_placement_path
            (seen (given_path o.moe_trace_path) none none none) (q ++ (b ++ rest)) refl,
        with_placement (given_path o.moe_trace_path) o.moe_fixed_placement_path,
        parse_arguments-path parse_bool profile_output o.moe_profile_output
            (seen (given_path o.moe_trace_path) (given_path o.moe_fixed_placement_path) none none)
            (b ++ rest) refl,
        with_profile (given_path o.moe_trace_path) (given_path o.moe_fixed_placement_path)
            o.moe_profile_output,
        parse_arguments-runtime parse_bool o.moe_count_router_runtime
            (seen (given_path o.moe_trace_path) (given_path o.moe_fixed_placement_path)
              (given_path o.moe_profile_output) none)
            rest refl,
        with_runtime (given_path o.moe_trace_path) (given_path o.moe_fixed_placement_path)
            (given_path o.moe_profile_output) o.moe_count_router_runtime,
      )
      (parse_arguments-other parse_bool (all_seen o) rest others)

-- The arguments of options that are set, before arguments that are neither one of these options nor `--`,
-- are parsed back to the options and these arguments, when the other options are set only with a trace.
pub parse_start_options-render :
    (parse_bool : String → Option Bool) (o : StartOptions) (rest : List String)
    → IsConsistent o
    → All (λ a. classify a ≡ other) rest
    → parse_start_options parse_bool (render o ++ rest) ≡ ok (o, rest)
unfolding render parse_start_options all_seen
parse_start_options-render parse_bool o rest h others =
    rw (parsed parse_bool o rest others, check_seen-given o h) refl
