-- ===== src/Scheduler/Tests.antt =====
-- Runs of the processing loop of pkg/simulator/simulator.go, and its theorems at concrete inputs.
use llm_d_inference_sim.Channel.{absent, write_to_channel}
use llm_d_inference_sim.Lora.{SimContext, is_lora, lora_is_loaded, increment_lora, decrement_lora}
use llm_d_inference_sim.Scheduler.{
  Simulator, RequestContext, dequeue, first_loaded, leave_queue, serve_waiting, on_new_request,
  on_worker_finished, send_to, free_worker, get_free_worker, find_request_and_send_to_process,
  refuse, report_waiting, add_request_to_queue, enqueue,
}
use llm_d_inference_sim.Scheduler.Dequeue.{Dequeued, dequeue-Dequeued}
use llm_d_inference_sim.Scheduler.Steady.{held, Steady, Turned, IsIdle}
use llm_d_inference_sim.Scheduler.Turns.{serve_waiting-total, IsSettled}
use llm_d_inference_sim.Scheduler.Start.{initialize_sim, initialize_sim-Steady}
use llm_d_inference_sim.Scheduler.Arrive.{Arrived, on_new_request-Arrived}
use llm_d_inference_sim.Common.Maps.{lookup, insert}
use llm_d_inference_sim.Common.{
  ◌≡◌, refl, [], ◌∷◌, none, some, arith, String, ℕ, ◌≤◌, length, contains, true, nat_comparable,
}

-- No LoRA, two workers, the second one free, and room for one waiting request.
abbrev context : SimContext
context = record {
  lora_adaptors = [];
  loaded_loras = [];
  lora_ids = [];
  lora_removable = record { buffer = []; capacity = 1; name = "removable"; shutdown = absent };
  max_loras = 0;
  kvcache_helper = none;
}

abbrev ask : String → RequestContext
ask id = record { request_id = id; displayed_model = "m"; choice_index = 0 }

abbrev start : Simulator
start = record {
  context = context;
  free_workers = 2 ∷ [];
  worker_chans =
      (1, record { buffer = []; capacity = 1; name = "w1"; shutdown = absent })
      ∷ (2, record { buffer = []; capacity = 1; name = "w2"; shutdown = absent })
      ∷ [];
  waiting_queue = record { req_ctx = ask "a"; enqueue_time = 3 } ∷ [];
  queue_capacity = 1;
  refused = [];
  waiting_req_chan = record { buffer = []; capacity = 4; name = "waiting"; shutdown = absent };
  loras_chan = record { buffer = []; capacity = 4; name = "loras"; shutdown = absent };
  req_queue_time_chan = record {
    buffer = [];
    capacity = 4;
    name = "queue time";
    shutdown = absent;
  };
}

idle_worker : IsIdle start.worker_chans 2
unfolding lookup
idle_worker = (_, refl, refl, omega arith)

start-Steady : Steady start
unfolding lookup
start-Steady = record {
  chans_map = (refl, (refl, tt));
  idle = (idle_worker, tt);
  distinct = (refl, tt);
  bounded = omega arith;
}

loop : Unit {0}
unfolding dequeue first_loaded leave_queue serve_waiting on_new_request on_worker_finished send_to
    free_worker get_free_worker find_request_and_send_to_process refuse report_waiting
    add_request_to_queue enqueue is_lora lora_is_loaded increment_lora decrement_lora lookup insert
    write_to_channel
loop = tt

-- The worker that ends takes the waiting request, and then no worker waits for it.
next_request : (on_worker_finished start (record { worker = 1; model = "m" }) 8).waiting_queue ≡ []
unfolding loop
next_request = refl

-- A full queue refuses.
too_many : (on_new_request (record start { free_workers = [] }) (ask "b") 9).refused ≡ ask "b" ∷ []
unfolding loop
too_many = refl

dequeue-Dequeued_example : Dequeued start (dequeue start 8).0 (dequeue start 8).1
dequeue-Dequeued_example = dequeue-Dequeued start 8

serve_waiting-total_example :
    (s' : Simulator) × (serve_waiting 2 start 8 ≡ some s') × Turned start s' × IsSettled s' 8
serve_waiting-total_example = serve_waiting-total 2 start 8 start-Steady (omega arith)

on_new_request-Arrived_example : Arrived start (ask "b") (on_new_request start (ask "b") 9)
on_new_request-Arrived_example = on_new_request-Arrived start (ask "b") 9 start-Steady

initialize_sim-Steady_example :
    let s =
      initialize_sim context 2 5 start.waiting_req_chan start.loras_chan
        start.req_queue_time_chan in
    Steady s
    × ((r : RequestContext) → held s r ≡ 0)
    × (length s.free_workers ≡ 2)
    × ((w : ℕ) → 1 ≤ w → w ≤ 2 → (contains w s.free_workers ≡ true) × IsIdle s.worker_chans w)
initialize_sim-Steady_example =
    initialize_sim-Steady context 2 5 start.waiting_req_chan start.loras_chan
      start.req_queue_time_chan
