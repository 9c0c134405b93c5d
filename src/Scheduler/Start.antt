-- ===== src/Scheduler/Start.antt =====
-- The workers and the queue of a new simulator: InitializeSim of pkg/simulator/simulator.go, without the
-- newRequests channel and the capacity of freeWorkers.
use llm_d_inference_sim.Channel.{Channel, pending}
use llm_d_inference_sim.Lora.{SimContext}
use llm_d_inference_sim.Scheduler.{Simulator, RequestContext, LoraState}
use llm_d_inference_sim.Scheduler.Steady.{Steady, IsIdle, held, in_chans}
use llm_d_inference_sim.Common.Int.{ℤ}
use llm_d_inference_sim.Common.Maps.{Map, lookup, IsMap}
use llm_d_inference_sim.Common.{
  ℕ, zero, suc, ◌≤◌, ◌<◌, ◌≡◌, refl, ap, subst, ◌∙◌, ◌+◌, length, Bool-cases, inl, inr, nat_beq_iff,
  ◌==◌, true, false, [], ◌∷◌, none, some, map, All, contains, Distinct, arith, String,
  nat_comparable,
}

abbrev pub idle_chan : Channel RequestContext
idle_chan = record { buffer = []; capacity = 1; name = "worker's reqChan"; shutdown = pending }

-- The workers from number `i` on.
abbrev pub workers : ℕ → ℕ → Map ℕ (Channel RequestContext)
workers i zero = []
workers i (suc n) = (i, idle_chan) ∷ workers (suc i) n

abbrev pub initialize_sim :
    SimContext → ℕ → ℕ → Channel ℤ → Channel (String × LoraState) → Channel ℕ → Simulator
initialize_sim context max_num_seqs max_waiting_queue_length waiting loras queue_time = record {
  context = context;
  free_workers = map (λ w. w.0) (workers 1 max_num_seqs);
  worker_chans = workers 1 max_num_seqs;
  waiting_queue = [];
  queue_capacity = max_waiting_queue_length;
  refused = [];
  waiting_req_chan = waiting;
  loras_chan = loras;
  req_queue_time_chan = queue_time;
}

lookup-workers : (j i n : ℕ) → j < i → lookup j (workers i n) ≡ none
unfolding lookup
lookup-workers j i zero h = refl
lookup-workers j i (suc n) h = ground (arith, h, lookup-workers j (suc i) n (omega (arith, h)))

workers-IsMap : (i n : ℕ) → IsMap (workers i n)
workers-IsMap i zero = tt
workers-IsMap i (suc n) = (lookup-workers i (suc i) n (omega arith), workers-IsMap (suc i) n)

contains-workers : (j i n : ℕ) → j < i → contains j (map (λ w. w.0) (workers i n)) ≡ false
contains-workers j i zero h = refl
contains-workers j i (suc n) h = ground (arith, h, contains-workers j (suc i) n (omega (arith, h)))

workers-Distinct : (i n : ℕ) → Distinct (map (λ w. w.0) (workers i n))
workers-Distinct i zero = tt
workers-Distinct i (suc n) =
    (contains-workers i (suc i) n (omega arith), workers-Distinct (suc i) n)

workers-IsIdle :
    (chans : Map ℕ (Channel RequestContext)) (i n : ℕ)
    → ((w : ℕ) → i ≤ w → lookup w chans ≡ lookup w (workers i n))
    → All (IsIdle chans) (map (λ w. w.0) (workers i n))
workers-IsIdle chans i zero h = tt
workers-IsIdle chans i (suc n) h = (
  (idle_chan, h i (omega arith) ∙ here, refl, omega arith),
  workers-IsIdle chans (suc i) n (λ w l. h w (omega (arith, l)) ∙ later w l),
)
  where
    here : lookup i (workers i (suc n)) ≡ some idle_chan
    here = unfold lookup in ground arith

    later : (w : ℕ) → suc i ≤ w → lookup w (workers i (suc n)) ≡ lookup w (workers (suc i) n)
    later w l = unfold lookup in ground (arith, l)

in_chans-workers : (r : RequestContext) (i n : ℕ) → in_chans (workers i n) r ≡ 0
in_chans-workers r i zero = refl
in_chans-workers r i (suc n) = omega (arith, in_chans-workers r (suc i) n)

length-workers : (i n : ℕ) → length (map (λ w. w.0) (workers i n)) ≡ n
length-workers i zero = refl
length-workers i (suc n) = ap suc (length-workers (suc i) n)

workers_free :
    (chans : Map ℕ (Channel RequestContext)) (w i n : ℕ)
    → All (IsIdle chans) (map (λ w. w.0) (workers i n))
    → i ≤ w
    → w < i + n
    → (contains w (map (λ w. w.0) (workers i n)) ≡ true) × IsIdle chans w
workers_free chans w i zero h l b = absurd (omega (arith, l, b))
workers_free chans w i (suc n) h l b = elim (Bool-cases (i == w)) [
  | inl e ↦ (ground (arith, e), subst (IsIdle chans) ((nat_beq_iff i w).0 e) h.0)
  | inr e ↦
      let ahead : suc i ≤ w = ground (arith, e, l) in
      let rest = workers_free chans w (suc i) n h.1 ahead (omega (arith, b)) in
      (ground (arith, e, rest.0), rest.1)
]

-- A new simulator is steady and holds no request; it has as many free workers as the configuration
-- says, and each worker from number 1 to that number is free and idle.
pub initialize_sim-Steady :
    (context : SimContext) (max_num_seqs max_waiting_queue_length : ℕ) (waiting : Channel ℤ)
    (loras : Channel (String × LoraState)) (queue_time : Channel ℕ)
    → let s =
        initialize_sim context max_num_seqs max_waiting_queue_length waiting loras queue_time in
      Steady s
      × ((r : RequestContext) → held s r ≡ 0)
      × (length s.free_workers ≡ max_num_seqs)
      × ((w : ℕ)
          → 1 ≤ w
          → w ≤ max_num_seqs
          → (contains w s.free_workers ≡ true) × IsIdle s.worker_chans w)
initialize_sim-Steady context max_num_seqs max_waiting_queue_length waiting loras queue_time = (
  record {
    chans_map = workers-IsMap 1 max_num_seqs;
    idle = workers-IsIdle (workers 1 max_num_seqs) 1 max_num_seqs (λ w l. refl);
    distinct = workers-Distinct 1 max_num_seqs;
    bounded = omega arith;
  },
  λ r. omega (arith, in_chans-workers r 1 max_num_seqs),
  length-workers 1 max_num_seqs,
  λ w l b.
      workers_free (workers 1 max_num_seqs) w 1 max_num_seqs
        (workers-IsIdle (workers 1 max_num_seqs) 1 max_num_seqs (λ v m. refl)) l (omega (arith, b)),
)
