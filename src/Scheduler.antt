-- ===== src/Scheduler.antt =====
-- The processing loop of a simulator: enqueue, dequeue, addRequestToQueue,
-- findRequestAndSendToProcess and processing of pkg/simulator/simulator.go, and getFreeWorker of
-- pkg/simulator/worker.go. Each case of the loop's select is a function; times are arguments.
pub mod Dequeue
pub mod Steady
pub mod Turns
pub mod Arrive
pub mod Start
mod Tests
use llm_d_inference_sim.Channel.{Channel, write_to_channel}
use llm_d_inference_sim.Common.Int.{ℤ, pos, negsuc}
use llm_d_inference_sim.Common.Maps.{Map, lookup, insert}
use llm_d_inference_sim.Common.{
  ℕ, zero, suc, ◌-◌, Bool, true, false, ◌&&◌, not, List, [], ◌∷◌, ◌++◌, Option, none, some, String,
  leb, length, if◌then◌else◌, nat_comparable, string_comparable, Comparable, ◌==◌, ◌≡◌, ◌↔◌, arith,
}
use text.Mathlib.TextEquality.{eq_iff}
use llm_d_inference_sim.Lora.{
  SimContext, is_lora, lora_is_loaded, load_lora, increment_lora, decrement_lora,
}

-- What the loop reads of a requestContext.
pub record RequestContext : Type 0 where
  pub request_id : String
  pub displayed_model : String
  pub choice_index : ℕ

pub request_context_beq : RequestContext → RequestContext → Bool
request_context_beq a b =
    a.request_id == b.request_id
    && a.displayed_model == b.displayed_model
    && a.choice_index == b.choice_index

pub request_context_beq_iff : (a b : RequestContext) → (request_context_beq a b ≡ true) ↔ (a ≡ b)
unfolding request_context_beq
request_context_beq_iff a b =
    ground (arith, eq_iff a.request_id b.request_id, eq_iff a.displayed_model b.displayed_model)

instance abbrev pub request_context_comparable : Comparable RequestContext
request_context_comparable = record {
  test = request_context_beq;
  test_iff = request_context_beq_iff;
}

pub record WaitingQueueItem : Type 0 where
  pub req_ctx : RequestContext
  pub enqueue_time : ℕ

pub record RequestCompleted : Type 0 where
  pub worker : ℕ
  pub model : String

pub data LoraState : Type 0 where
  waiting_usage_state : LoraState

-- A worker is named by its id; its reqChan stands in `worker_chans`. `refused` holds the requests
-- that were answered with "too many requests", oldest first.
pub record Simulator : Type 0 where
  pub context : SimContext
  pub free_workers : List ℕ
  pub worker_chans : Map ℕ (Channel RequestContext)
  pub waiting_queue : List WaitingQueueItem
  pub queue_capacity : ℕ
  pub refused : List RequestContext
  pub waiting_req_chan : Channel ℤ
  pub loras_chan : Channel (String × LoraState)
  pub req_queue_time_chan : Channel ℕ

-- False: the waiting queue is full.
pub enqueue : Simulator → RequestContext → ℕ → Simulator × Bool
enqueue s req now = if leb s.queue_capacity (length s.waiting_queue) then (s, false) else (
  record s { waiting_queue = s.waiting_queue ++ record { req_ctx = req; enqueue_time = now } ∷ [] },
  true,
)

-- The first loop of dequeue: the first item whose LoRA is loaded, and the queue without it.
pub first_loaded :
    SimContext → List WaitingQueueItem → Option (WaitingQueueItem × List WaitingQueueItem)
first_loaded c [] = none
first_loaded c (x ∷ xs) =
    if lora_is_loaded c x.req_ctx.displayed_model
    then some (x, xs)
    else elim (first_loaded c xs) [ none ↦ none | some (y, ys) ↦ some (y, x ∷ ys) ]

-- The second loop: the first item whose LoRA can be loaded, with the context after loading it.
pub first_loadable :
    SimContext
    → List WaitingQueueItem
    → Option (SimContext × WaitingQueueItem × List WaitingQueueItem)
first_loadable c [] = none
first_loadable c (x ∷ xs) =
    if (load_lora c x.req_ctx.displayed_model).1
    then some ((load_lora c x.req_ctx.displayed_model).0, x, xs)
    else elim (first_loadable (load_lora c x.req_ctx.displayed_model).0 xs) [
      | none ↦ none
      | some (c', y, ys) ↦ some (c', y, x ∷ ys)
    ]

-- `Remove`, and the report of the time in the queue.
pub leave_queue : Simulator → SimContext → WaitingQueueItem → List WaitingQueueItem → ℕ → Simulator
leave_queue s c item rest now = record s {
  context = c;
  waiting_queue = rest;
  req_queue_time_chan = write_to_channel s.req_queue_time_chan (now - item.enqueue_time);
}

pub dequeue : Simulator → ℕ → Simulator × Option RequestContext
unfolding first_loaded first_loadable leave_queue
dequeue s now = elim (first_loaded s.context s.waiting_queue) [
  | some (x, rest) ↦ (
    leave_queue s (increment_lora s.context x.req_ctx.displayed_model) x rest now,
    some x.req_ctx,
  )
  | none ↦ elim (first_loadable s.context s.waiting_queue) [
    | some (c, x, rest) ↦ (leave_queue s c x rest now, some x.req_ctx)
    | none ↦ (s, none)
  ]
]

-- A write to a worker's channel.
pub send_to : Simulator → ℕ → RequestContext → Simulator
send_to s w req = elim (lookup w s.worker_chans) [
  | none ↦ s
  | some ch ↦ record s { worker_chans = insert w (write_to_channel ch req) s.worker_chans }
]

pub free_worker : Simulator → ℕ → Simulator
free_worker s w = record s { free_workers = s.free_workers ++ w ∷ [] }

-- getFreeWorker: the longest free worker.
pub get_free_worker : Simulator → Option (ℕ × Simulator)
get_free_worker s = elim s.free_workers [
  | [] ↦ none
  | w ∷ ws ↦ some (w, record s { free_workers = ws })
]

pub find_request_and_send_to_process : Simulator → ℕ → ℕ → Simulator × Bool
find_request_and_send_to_process s w now =
    let (s', next) = dequeue s now in
    elim next [
      | none ↦ (free_worker s' w, false)
      | some req ↦
          let sent = send_to s' w req in
          (
            record sent { waiting_req_chan = write_to_channel sent.waiting_req_chan (negsuc 0) },
            true,
          )
    ]

-- The answer with the status "too many requests", and the end of the request.
pub refuse : Simulator → RequestContext → Simulator
refuse s req = record s { refused = s.refused ++ req ∷ [] }

pub report_waiting : Simulator → RequestContext → Simulator
report_waiting s req =
    let s' = record s { waiting_req_chan = write_to_channel s.waiting_req_chan (pos 1) } in
    if is_lora s.context req.displayed_model
    then record s' {
      loras_chan = write_to_channel s'.loras_chan (req.displayed_model, waiting_usage_state);
    }
    else s'

pub add_request_to_queue : Simulator → RequestContext → ℕ → Simulator
add_request_to_queue s req now =
    let (s', queued) = enqueue s req now in if queued then report_waiting s' req else refuse s' req

-- The case of a finished worker.
pub on_worker_finished : Simulator → RequestCompleted → ℕ → Simulator
on_worker_finished s done now =
    (find_request_and_send_to_process (record s { context = decrement_lora s.context done.model })
      done.worker now).0

-- The loop of the case of a LoRA that can be removed; `none` means that the fuel ran out.
pub serve_waiting : ℕ → Simulator → ℕ → Option Simulator
serve_waiting zero s now = none
serve_waiting (suc fuel) s now = elim (get_free_worker s) [
  | none ↦ some s
  | some (w, s') ↦ elim (find_request_and_send_to_process s' w now).1 [
    | true ↦ serve_waiting fuel (find_request_and_send_to_process s' w now).0 now
    | false ↦ some (find_request_and_send_to_process s' w now).0
  ]
]

-- The case of a new request.
pub on_new_request : Simulator → RequestContext → ℕ → Simulator
on_new_request s req now = elim (get_free_worker s) [
  | none ↦ add_request_to_queue s req now
  | some (w, s') ↦
      if is_lora s'.context req.displayed_model
      then (let (c, loaded) = load_lora s'.context req.displayed_model in
          if not loaded
          then add_request_to_queue (free_worker (record s' { context = c }) w) req now
          else send_to (record s' { context = c }) w req)
      else send_to s' w req
]
