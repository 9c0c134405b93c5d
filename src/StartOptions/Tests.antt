-- ===== src/StartOptions/Tests.antt =====
-- The theorem about the options of pkg/simulator/start_options.go at concrete arguments, and tests.
use llm_d_inference_sim.StartOptions.{
  StartOptions, classify, other, parse_start_options, needs_trace, twice, placement_path,
  trace_path, runtime_needs_trace,
}
use llm_d_inference_sim.StartOptions.Render.{parse_start_options-render, render}
use llm_d_inference_sim.Common.{
  ◌≡◌, refl, [], ◌∷◌, ◌++◌, Option, none, some, String, Bool, true, ok, err, ◌==◌,
  string_comparable, if◌then◌else◌,
}

abbrev profiled : StartOptions
profiled = record {
  moe_trace_path = "t.moe";
  moe_fixed_placement_path = "";
  moe_profile_output = "p.json";
  moe_count_router_runtime = true;
}

abbrev parse_true : String → Option Bool
parse_true s = if s == "true" then some true else none

port_is_other : classify "--port" ≡ other
unfolding classify
port_is_other = refl

value_is_other : classify "8000" ≡ other
unfolding classify
value_is_other = refl

parse_start_options-render_example :
    parse_start_options parse_true (render profiled ++ ("--port" ∷ "8000" ∷ []))
    ≡ ok (profiled, "--port" ∷ "8000" ∷ [])
parse_start_options-render_example =
    parse_start_options-render parse_true profiled ("--port" ∷ "8000" ∷ [])
      (record {
        placement_with_trace = λ e. refl;
        profile_with_trace = λ e. e;
        runtime_with_trace = λ e. let f = e in cc;
      })
      (port_is_other, (value_is_other, tt))

needs_trace_test :
    parse_start_options parse_true ("--moe-fixed-placement-path=p" ∷ [])
    ≡ err (needs_trace placement_path)
unfolding parse_start_options
needs_trace_test = refl

twice_test :
    parse_start_options parse_true ("--moe-trace-path=a" ∷ "x" ∷ "--moe-trace-path" ∷ [])
    ≡ err (twice trace_path)
unfolding parse_start_options
twice_test = refl

runtime_test :
    parse_start_options parse_true ("--moe-count-router-runtime=true" ∷ [])
    ≡ err runtime_needs_trace
unfolding parse_start_options
runtime_test = refl
