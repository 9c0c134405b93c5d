-- ===== src/StartOptions.antt =====
-- ParseStartOptions of pkg/simulator/start_options.go. An option that was seen has a value. strconv's
-- ParseBool is a parameter.
pub mod Render
mod Tests
use Prim.Native.Char.{code}
use llm_d_inference_sim.Common.{
  List, [], ◌∷◌, Option, none, some, String, Bool, true, false, not, ◌&&◌, if◌then◌else◌, ◌==◌,
  nat_comparable, string_comparable, Result, ok, err, ◌>>=◌, ◌>>◌,
}

pub record StartOptions : Type 0 where
  pub moe_trace_path : String
  pub moe_fixed_placement_path : String
  pub moe_profile_output : String
  pub moe_count_router_runtime : Bool

-- The options that take a path.
pub data PathOption : Type 0 where
  trace_path placement_path profile_output : PathOption

pub data OptionError : Type 0 where
  twice no_path empty_path : PathOption → OptionError
  runtime_twice not_a_boolean runtime_needs_trace : OptionError
  needs_trace : PathOption → OptionError

-- The values that were seen.
pub record Seen : Type 0 where
  pub trace : Option String
  pub placement : Option String
  pub profile : Option String
  pub runtime : Option Bool

-- What an argument is.
pub data Argument : Type 0 where
  terminator runtime_flag other : Argument
  path_flag : PathOption → Argument
  path_value : PathOption → String → Argument
  runtime_value : String → Argument

-- What follows a prefix: strings.HasPrefix and strings.TrimPrefix.
pub strip_prefix : String → String → Option String
strip_prefix String.[] s = some s
strip_prefix (String.◌∷◌ c p) String.[] = none
strip_prefix (String.◌∷◌ c p) (String.◌∷◌ d s) = if code c == code d then strip_prefix p s else none

-- A flag alone, or with a value after an equals sign.
pub path_argument : String → String → PathOption → String → Argument → Argument
unfolding strip_prefix
path_argument flag flag_eq o arg rest =
    if arg == flag
    then path_flag o
    else elim (strip_prefix flag_eq arg) [ some v ↦ path_value o v | none ↦ rest ]

pub runtime_argument : String → Argument
unfolding strip_prefix
runtime_argument arg =
    if arg == "--moe-count-router-runtime"
    then runtime_flag
    else elim (strip_prefix "--moe-count-router-runtime=" arg) [
      | some v ↦ runtime_value v
      | none ↦ other
    ]

-- The cases of the switch, in turn.
pub classify : String → Argument
unfolding path_argument runtime_argument
classify arg =
    if arg == "--"
    then terminator
    else path_argument "--moe-trace-path" "--moe-trace-path=" trace_path arg (
        path_argument "--moe-fixed-placement-path" "--moe-fixed-placement-path=" placement_path arg
          (path_argument "--moe-profile-output" "--moe-profile-output=" profile_output arg
            (runtime_argument arg)))

unfoldable pub seen_path : PathOption → Seen → Option String
seen_path trace_path s = s.trace
seen_path placement_path s = s.placement
seen_path profile_output s = s.profile

pub with_path : PathOption → String → Seen → Seen
with_path trace_path v s = record s { trace = some v }
with_path placement_path v s = record s { placement = some v }
with_path profile_output v s = record s { profile = some v }

pub set_path : PathOption → String → Seen → Result OptionError Seen
unfolding seen_path with_path
set_path o v s = elim (seen_path o s) [ some w ↦ err (twice o) | none ↦ ok (with_path o v s) ]

-- A path flag that is the last argument.
pub missing_path : PathOption → Seen → Result OptionError (Seen × List String)
unfolding seen_path
missing_path o s = elim (seen_path o s) [ some w ↦ err (twice o) | none ↦ err (no_path o) ]

pub set_runtime : Option Bool → Seen → Result OptionError Seen
set_runtime v s = elim s.runtime [
  | some w ↦ err runtime_twice
  | none ↦ elim v [ none ↦ err not_a_boolean | some b ↦ ok (record s { runtime = some b }) ]
]

abbrev pub keep : String → Seen × List String → Result OptionError (Seen × List String)
keep arg (s, remaining) = ok (s, arg ∷ remaining)

module _ (parse_bool : String → Option Bool) where
  -- The loop over the arguments, with the arguments that remain.
  pub parse_arguments : Seen → List String → Result OptionError (Seen × List String)
  unfolding classify set_path missing_path set_runtime
  parse_arguments s [] = ok (s, [])
  parse_arguments s (arg ∷ []) = elim (classify arg) [
    | terminator ↦ ok (s, arg ∷ [])
    | runtime_flag ↦ set_runtime (some true) s >>= λ s'. ok (s', [])
    | other ↦ ok (s, arg ∷ [])
    | path_flag o ↦ missing_path o s
    | path_value o v ↦ set_path o v s >>= λ s'. ok (s', [])
    | runtime_value v ↦ set_runtime (parse_bool v) s >>= λ s'. ok (s', [])
  ]
  parse_arguments s (arg ∷ next ∷ args) = elim (classify arg) [
    | terminator ↦ ok (s, arg ∷ next ∷ args)
    | runtime_flag ↦ set_runtime (some true) s >>= λ s'. parse_arguments s' (next ∷ args)
    | other ↦ parse_arguments s (next ∷ args) >>= keep arg
    | path_flag o ↦ set_path o next s >>= λ s'. parse_arguments s' args
    | path_value o v ↦ set_path o v s >>= λ s'. parse_arguments s' (next ∷ args)
    | runtime_value v ↦ set_runtime (parse_bool v) s >>= λ s'. parse_arguments s' (next ∷ args)
  ]

abbrev pub nothing_seen : Seen
nothing_seen = record { trace = none; placement = none; profile = none; runtime = none }

-- The value of an option, which is empty if it was not seen.
abbrev pub path_of : Option String → String
path_of none = ""
path_of (some v) = v

abbrev pub flag_of : Option Bool → Bool
flag_of none = false
flag_of (some b) = b

-- An option that was seen has an empty path.
abbrev pub is_empty_path : Option String → Bool
is_empty_path none = false
is_empty_path (some v) = v == ""

abbrev pub was_seen : Option Bool → Bool
was_seen none = false
was_seen (some b) = true

-- The checks after the loop.
pub check_seen : Seen → Result OptionError StartOptions
check_seen s =
    if is_empty_path s.trace
    then err (empty_path trace_path)
    else if is_empty_path s.placement
    then err (empty_path placement_path)
    else if is_empty_path s.profile
    then err (empty_path profile_output)
    else if not (path_of s.placement == "") && path_of s.trace == ""
    then err (needs_trace placement_path)
    else if not (path_of s.profile == "") && path_of s.trace == ""
    then err (needs_trace profile_output)
    else if was_seen s.runtime && path_of s.trace == ""
    then err runtime_needs_trace
    else ok (record {
      moe_trace_path = path_of s.trace;
      moe_fixed_placement_path = path_of s.placement;
      moe_profile_output = path_of s.profile;
      moe_count_router_runtime = flag_of s.runtime;
    })

unfoldable pub parse_start_options :
    (String → Option Bool) → List String → Result OptionError (StartOptions × List String)
unfolding parse_arguments check_seen
parse_start_options parse_bool args = parse_arguments parse_bool nothing_seen args >>= λ r.
    check_seen r.0 >>= λ options. ok (options, r.1)
