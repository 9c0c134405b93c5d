-- ===== src/Scheduler/Arrive.antt =====
-- The case of a new request in pkg/simulator/simulator.go.
use llm_d_inference_sim.Lora.{SimContext, is_lora, load_lora}
use llm_d_inference_sim.Scheduler.{
  Simulator, RequestContext, request_context_comparable, enqueue, send_to, free_worker, refuse,
  report_waiting, add_request_to_queue, on_new_request,
}
use llm_d_inference_sim.Common.{
  ℕ, ◌+◌, ◌<◌, ◌≤◌, ◌⊎◌, ◌∙◌, ◌≡◌, refl, sym, ap, subst, false, List, [], ◌∷◌, ◌++◌, arith, All,
  Bool-cases, inl, inr, length, contains, leb, length-append, Distinct, if◌then◌else◌, ◌==◌,
  nat_comparable,
}
use llm_d_inference_sim.Scheduler.Steady.{
  held, queued, IsIdle, Steady, send_to-Sent, free_worker-Turned, taken_worker, get_none, get_some,
  List-cases, count-append, queued-append,
}

-- After a request has arrived the state is steady, it is held once more, and it is refused only by a
-- full queue.
pub record Arrived (s : Simulator) (req : RequestContext) (s' : Simulator) : Type 0 where
  pub steady : Steady s'
  pub added : (r : RequestContext) → held s' r ≡ (if req == r then 1 else 0) + held s r
  pub refusal :
      (s'.refused ≡ s.refused)
      ⊎ ((s'.refused ≡ s.refused ++ req ∷ []) × (s.queue_capacity ≤ length s.waiting_queue))

refuse-Arrived :
    (s : Simulator) (req : RequestContext)
    → Steady s
    → s.queue_capacity ≤ length s.waiting_queue
    → Arrived s req (refuse s req)
unfolding refuse
refuse-Arrived s req h full = record {
  steady = record {
    chans_map = h.chans_map;
    idle = h.idle;
    distinct = h.distinct;
    bounded = h.bounded;
  };
  added = λ r. omega (arith, count-append r s.refused (req ∷ []));
  refusal = inr (refl, full);
}

queue_item-Arrived :
    (s : Simulator) (req : RequestContext) (now : ℕ)
    → Steady s
    → length s.waiting_queue < s.queue_capacity
    → Arrived s req (record s {
      waiting_queue = s.waiting_queue ++ record { req_ctx = req; enqueue_time = now } ∷ [];
    })
queue_item-Arrived s req now h room = record {
  steady = record {
    chans_map = h.chans_map;
    idle = h.idle;
    distinct = h.distinct;
    bounded = omega (
      arith,
      room,
      length-append s.waiting_queue (record { req_ctx = req; enqueue_time = now } ∷ []),
    );
  };
  added = λ r.
      rw (queued-append s.waiting_queue (record { req_ctx = req; enqueue_time = now } ∷ []))
        (omega (arith, count-append r (queued s.waiting_queue) (req ∷ [])));
  refusal = inl refl;
}

report_waiting-Arrived :
    (s s' : Simulator) (req : RequestContext)
    → Arrived s req s'
    → Arrived s req (report_waiting s' req)
unfolding report_waiting
report_waiting-Arrived s s' req h = elim (Bool-cases (is_lora s'.context req.displayed_model)) [
  | inl e ↦ rw e (record {
    steady = record {
      chans_map = h.steady.chans_map;
      idle = h.steady.idle;
      distinct = h.steady.distinct;
      bounded = h.steady.bounded;
    };
    added = λ r. h.added r;
    refusal = h.refusal;
  })
  | inr e ↦ rw e (record {
    steady = record {
      chans_map = h.steady.chans_map;
      idle = h.steady.idle;
      distinct = h.steady.distinct;
      bounded = h.steady.bounded;
    };
    added = λ r. h.added r;
    refusal = h.refusal;
  })
]

add_request_to_queue-Arrived :
    (s : Simulator) (req : RequestContext) (now : ℕ)
    → Steady s
    → Arrived s req (add_request_to_queue s req now)
unfolding add_request_to_queue enqueue
add_request_to_queue-Arrived s req now h =
    elim (Bool-cases (leb s.queue_capacity (length s.waiting_queue))) [
      | inl e ↦ rw e (refuse-Arrived s req h (ground (arith, e)))
      | inr e ↦
          rw e (report_waiting-Arrived s _ req (queue_item-Arrived s req now h (ground (arith, e))))
    ]

-- An arrival does not look at how the LoRA's loading changed the context.
Arrived-from :
    {s s₁ s' : Simulator} {req : RequestContext}
    → ((r : RequestContext) → held s₁ r ≡ held s r)
    → s₁.refused ≡ s.refused
    → s₁.queue_capacity ≡ s.queue_capacity
    → s₁.waiting_queue ≡ s.waiting_queue
    → Arrived s₁ req s'
    → Arrived s req s'
Arrived-from {req = req} k f c q h = record {
  steady = h.steady;
  added = λ r. omega (arith, h.added r, k r);
  refusal = elim h.refusal [
    | inl none_refused ↦ inl (none_refused ∙ f)
    | inr (one, full) ↦ inr (one ∙ ap (λ xs. xs ++ req ∷ []) f, omega (arith, full, c, ap length q))
  ];
}

send_to-Arrived :
    (s : Simulator) (w : ℕ) (req : RequestContext)
    → Steady s
    → IsIdle s.worker_chans w
    → contains w s.free_workers ≡ false
    → Arrived s req (send_to s w req)
send_to-Arrived s w req h i c =
    let t = send_to-Sent s w req h.chans_map i in
    record {
      steady = record {
        chans_map = t.chans_map;
        idle =
            subst (All (IsIdle (send_to s w req).worker_chans)) (sym t.workers_same)
              (t.others s.free_workers c h.idle);
        distinct = subst Distinct (sym t.workers_same) h.distinct;
        bounded = omega (arith, h.bounded, ap length t.queue_same, t.capacity_same);
      };
      added = λ r. ground (arith, t.into_chan r, t.queue_same, t.refused_same);
      refusal = inl t.refused_same;
    }

-- The state with another context.
with_context-Steady :
    (s : Simulator) (c : SimContext) → Steady s → Steady (record s { context = c })
with_context-Steady s c h = record {
  chans_map = h.chans_map;
  idle = h.idle;
  distinct = h.distinct;
  bounded = h.bounded;
}

-- With a free worker: the request of a LoRA that cannot be loaded is queued or refused, and the worker
-- is free again; any other request is sent to the worker.
pub arrive_with :
    (s : Simulator) (w : ℕ) (ws : List ℕ) (req : RequestContext) (now : ℕ)
    → Steady s
    → s.free_workers ≡ w ∷ ws
    → Arrived s req (on_new_request s req now)
unfolding on_new_request free_worker
arrive_with s w ws req now h e =
    let (h', i, c) = taken_worker s w ws h e in
    let s₁ = record s { free_workers = ws } in
    let m = req.displayed_model in
    let ctx = (load_lora s.context m).0 in
    rw (get_some s w ws e, on_new_request)
      (elim (Bool-cases (is_lora s.context m)) [
        | inr l ↦ rw l (Arrived-from (λ r. refl) refl refl refl (send_to-Arrived s₁ w req h' i c))
        | inl l ↦ rw l (elim (Bool-cases (load_lora s.context m).1) [
          | inl loaded ↦ rw loaded (
              Arrived-from (λ r. refl) refl refl refl
                (send_to-Arrived (record s₁ { context = ctx }) w req (with_context-Steady s₁ ctx h')
                  i c))
          | inr failed ↦ rw failed (
              Arrived-from (λ r. refl) refl refl refl
                (add_request_to_queue-Arrived (free_worker (record s₁ { context = ctx }) w) req now
                  (free_worker-Turned (record s₁ { context = ctx }) w
                    (with_context-Steady s₁ ctx h') i c).steady))
        ])
      ])

-- From a steady state, a new request is sent to an idle worker, queued, or refused: no request that
-- was held before is lost, this one is held once more, and the state stays steady. It is refused only if
-- the waiting queue is full, and no other request is refused.
pub on_new_request-Arrived :
    (s : Simulator) (req : RequestContext) (now : ℕ)
    → Steady s
    → Arrived s req (on_new_request s req now)
unfolding on_new_request
on_new_request-Arrived s req now h = elim (List-cases s.free_workers) [
  | inr (w, ws, e) ↦ arrive_with s w ws req now h e
  | inl e ↦ rw (get_none s e, on_new_request) (add_request_to_queue-Arrived s req now h)
]
