-- ===== src/Scheduler/Turns.antt =====
-- The cases of a finished worker and of a removable LoRA in pkg/simulator/simulator.go.
use llm_d_inference_sim.Channel.{Channel, write_to_channel}
use llm_d_inference_sim.Scheduler.{
  Simulator, RequestContext, request_context_comparable, dequeue, send_to, free_worker,
  find_request_and_send_to_process, get_free_worker, serve_waiting,
}
use llm_d_inference_sim.Scheduler.Dequeue.{Dequeued, dequeue-Dequeued}
use llm_d_inference_sim.Common.Int.{negsuc}
use llm_d_inference_sim.Common.Maps.{IsMap, lookup}
use llm_d_inference_sim.Common.{
  ℕ, zero, suc, ◌+◌, ◌<◌, ◌≡◌, ◌⊎◌, refl, sym, ap, subst, ◌∙◌, Bool, true, false, [], ◌∷◌, Option,
  none, some, arith, All, Bool-cases, inl, inr, length, count, contains, Distinct, if◌then◌else◌,
  ◌==◌, nat_comparable,
}
use llm_d_inference_sim.Scheduler.Steady.{
  queued, IsIdle, Steady, Picks-count, send_to-Sent, Turned, free_worker-Turned, Turned-trans,
  taken_worker, get_none, get_some, List-cases,
}

-- Either the request that dequeue picks stands alone in the worker's channel and has left the waiting
-- queue, or dequeue picks none, and the worker has become free and nothing else has changed.
pub record Outcome (s : Simulator) (w now : ℕ) (s' : Simulator) : Type 0 where
  pub refused_same : s'.refused ≡ s.refused
  pub taken :
      (req : RequestContext)
      → (dequeue s now).1 ≡ some req
      → ((ch : Channel RequestContext) × (lookup w s'.worker_chans ≡ some ch)
          × (ch.buffer ≡ req ∷ []))
        × (s'.waiting_queue ≡ (dequeue s now).0.waiting_queue)
        × (length s.waiting_queue ≡ suc (length s'.waiting_queue))
        × (s'.free_workers ≡ s.free_workers)
  pub freed : (dequeue s now).1 ≡ none → s' ≡ free_worker s w

-- The answer to a worker: a waiting request, or the worker is free again.
record Served (s : Simulator) (w now : ℕ) (s' : Simulator) (found : Bool) : Type 0 where
  pub turned : Turned s s'
  pub outcome : Outcome s w now s'
  pub shorter : found ≡ true → length s.waiting_queue ≡ suc (length s'.waiting_queue)
  pub workers : found ≡ true → s'.free_workers ≡ s.free_workers
  pub nothing : found ≡ false → (s' ≡ free_worker s w) × ((dequeue s now).1 ≡ none)

serve-Served :
    (s s₁ : Simulator) (w now : ℕ) (req : RequestContext)
    → Steady s
    → IsIdle s.worker_chans w
    → contains w s.free_workers ≡ false
    → Dequeued s s₁ (some req)
    → Turned s (send_to s₁ w req)
      × (length s.waiting_queue ≡ suc (length s₁.waiting_queue))
      × ((send_to s₁ w req).free_workers ≡ s.free_workers)
      × ((send_to s₁ w req).waiting_queue ≡ s₁.waiting_queue)
      × ((send_to s₁ w req).refused ≡ s.refused)
      × ((ch : Channel RequestContext) × (lookup w (send_to s₁ w req).worker_chans ≡ some ch)
          × (ch.buffer ≡ req ∷ []))
serve-Served s s₁ w now req h i c (x, named, u, way) =
    let count_of : (length s.waiting_queue ≡ suc (length s₁.waiting_queue))
        × ((r : RequestContext)
            → count r (queued s.waiting_queue)
              ≡ (if x.req_ctx == r then 1 else 0) + count r (queued s₁.waiting_queue)) =
      elim way [ inl (p, _) ↦ Picks-count p | inr (_, p, _) ↦ Picks-count p ] in
    let t =
      send_to-Sent s₁ w req (subst IsMap (sym u.chans_same) h.chans_map)
        (subst (λ m. IsIdle m w) (sym u.chans_same) i) in
    let kept = t.workers_same ∙ u.workers_same in
    (
      record {
        steady = record {
          chans_map = t.chans_map;
          idle = subst (All (IsIdle (send_to s₁ w req).worker_chans)) (sym kept) (
              t.others s.free_workers c
                (subst (λ m. All (IsIdle m) s.free_workers) (sym u.chans_same) h.idle));
          distinct = subst Distinct (sym kept) h.distinct;
          bounded = omega (
            arith,
            h.bounded,
            count_of.0,
            ap length t.queue_same,
            t.capacity_same,
            u.capacity_same,
          );
        };
        same = λ r. ground (
          arith,
          count_of.1 r,
          t.into_chan r,
          named,
          u.chans_same,
          t.queue_same,
          t.refused_same,
          u.refused_same,
        );
      },
      count_of.0,
      t.workers_same ∙ u.workers_same,
      t.queue_same,
      t.refused_same ∙ u.refused_same,
      t.delivered,
    )

-- A change of the metrics channels alone.
Turned-metrics :
    {s s' s'' : Simulator}
    → s''.worker_chans ≡ s'.worker_chans
    → s''.free_workers ≡ s'.free_workers
    → s''.waiting_queue ≡ s'.waiting_queue
    → s''.queue_capacity ≡ s'.queue_capacity
    → s''.refused ≡ s'.refused
    → Turned s s'
    → Turned s s''
Turned-metrics {s} {s'} {s''} c f q k r t = record {
  steady = record {
    chans_map = subst IsMap (sym c) t.steady.chans_map;
    idle =
        subst (All (IsIdle s''.worker_chans)) (sym f)
          (subst (λ m. All (IsIdle m) s'.free_workers) (sym c) t.steady.idle);
    distinct = subst Distinct (sym f) t.steady.distinct;
    bounded = omega (arith, ap length q, k, t.steady.bounded);
  };
  same = λ x. ground (arith, t.same x, c, q, r);
}

module _ (s : Simulator) (w now : ℕ) (h : Steady s) (i : IsIdle s.worker_chans w)
    (c : contains w s.free_workers ≡ false) where
  find-Served :
      (s₁ : Simulator) (o : Option RequestContext)
      → Dequeued s s₁ o
      → dequeue s now ≡ (s₁, o)
      → Served s w now
          (find_request_and_send_to_process s w now).0
          (find_request_and_send_to_process s w now).1
  find-Served s₁ none d e =
      let found : find_request_and_send_to_process s w now ≡ (free_worker s w, false) =
        unfold find_request_and_send_to_process in ground (arith, e, d.0) in
      rw found (record {
        turned = free_worker-Turned s w h i c;
        outcome = record {
          refused_same = unfold free_worker in refl;
          taken = λ req p. absurd (let q = sym (ap (λ x. x.1) e) ∙ p in cc);
          freed = λ p. refl;
        };
        shorter = λ x. cc;
        workers = λ x. cc;
        nothing = λ x. (refl, rw e);
      })
  find-Served s₁ (some req) d e =
      let (t, short, kept, queue, none_refused, into) = serve-Served s s₁ w now req h i c d in
      let found : find_request_and_send_to_process s w now ≡ (
        record (send_to s₁ w req) {
          waiting_req_chan = write_to_channel (send_to s₁ w req).waiting_req_chan (negsuc 0);
        },
        true,
      ) =
        unfold find_request_and_send_to_process in
        rw (ap (λ p. p.1) e, find_request_and_send_to_process) (rw (ap (λ p. p.0) e)) in
      rw found (record {
        turned = Turned-metrics refl refl refl refl refl t;
        outcome = record {
          refused_same = none_refused;
          taken = λ r p.
              let same : req ≡ r = let q = sym (ap (λ x. x.1) e) ∙ p in cc in
              (
                subst
                    (λ r.
                      (ch : Channel RequestContext) × (lookup w (send_to s₁ w req).worker_chans
                        ≡ some ch)
                      × (ch.buffer ≡ r ∷ []))
                    same into,
                queue ∙ sym (ap (λ x. x.0.waiting_queue) e),
                omega (arith, short, ap length queue),
                kept,
              );
          freed = λ p. absurd (let q = sym (ap (λ x. x.1) e) ∙ p in cc);
        };
        shorter = λ x. omega (arith, short, ap length queue);
        workers = λ x. kept;
        nothing = λ x. cc;
      })

  find_request_and_send_to_process-Served :
      Served s w now
        (find_request_and_send_to_process s w now).0
        (find_request_and_send_to_process s w now).1
  find_request_and_send_to_process-Served = find-Served _ _ (dequeue-Dequeued s now) refl

-- The end of the loop: no worker is free, or no waiting request can run.
abbrev pub IsSettled : Simulator → ℕ → Type 0
IsSettled s now = (s.free_workers ≡ []) ⊎ ((dequeue s now).1 ≡ none)

serve_ends :
    (fuel : ℕ) (s : Simulator) (now : ℕ)
    → get_free_worker s ≡ none
    → serve_waiting (suc fuel) s now ≡ some s
unfolding serve_waiting
serve_ends fuel s now e = rw (e, serve_waiting)

module _ (fuel : ℕ) (s s₁ : Simulator) (w now : ℕ) (e : get_free_worker s ≡ some (w, s₁)) where
  serve_goes_on :
      (find_request_and_send_to_process s₁ w now).1 ≡ true
      → serve_waiting (suc fuel) s now
        ≡ serve_waiting fuel (find_request_and_send_to_process s₁ w now).0 now
  unfolding serve_waiting
  serve_goes_on f = rw (e, serve_waiting) (rw f)

  serve_stops :
      (find_request_and_send_to_process s₁ w now).1 ≡ false
      → serve_waiting (suc fuel) s now ≡ some (find_request_and_send_to_process s₁ w now).0
  unfolding serve_waiting
  serve_stops f = rw (e, serve_waiting) (rw f)

-- dequeue does not look at the free workers.
still :
    (s : Simulator) (w now : ℕ)
    → (dequeue s now).1 ≡ none
    → (dequeue (free_worker s w) now).1 ≡ none
unfolding dequeue free_worker
still s w now e = ground (arith, e)

-- From a steady state, the loop that follows the removal of a LoRA ends within one round more than
-- there are waiting requests; it loses no request, and at its end no worker is free or no waiting
-- request can run.
pub serve_waiting-total :
    (fuel : ℕ) (s : Simulator) (now : ℕ)
    → Steady s
    → length s.waiting_queue < fuel
    → (s' : Simulator) × (serve_waiting fuel s now ≡ some s') × Turned s s' × IsSettled s' now
serve_waiting-total zero s now h f = absurd (omega arith)
serve_waiting-total (suc fuel) s now h f = elim (List-cases s.free_workers) [
  | inl e ↦
      (s, serve_ends fuel s now (get_none s e), record { steady = h; same = λ r. refl }, inl e)
  | inr (w, ws, e) ↦
      let (h', i, c) = taken_worker s w ws h e in
      let s₁ = record s { free_workers = ws } in
      let v = find_request_and_send_to_process-Served s₁ w now h' i c in
      let begun : Turned s s₁ = record { steady = h'; same = λ r. refl } in
      elim (Bool-cases (find_request_and_send_to_process s₁ w now).1) [
        | inl found ↦
            let (s', ended, t, settled) =
              serve_waiting-total fuel (find_request_and_send_to_process s₁ w now).0 now
                v.turned.steady (omega (arith, v.shorter found)) in
            (
              s',
              serve_goes_on fuel s s₁ w now (get_some s w ws e) found ∙ ended,
              Turned-trans (Turned-trans begun v.turned) t,
              settled,
            )
        | inr none_found ↦
            let (freed, empty) = v.nothing none_found in
            (
              (find_request_and_send_to_process s₁ w now).0,
              serve_stops fuel s s₁ w now (get_some s w ws e) none_found,
              Turned-trans begun v.turned,
              inr (rw freed (still s₁ w now empty)),
            )
      ]
]
