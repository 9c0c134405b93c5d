-- ===== src/Scheduler/Dequeue.antt =====
-- Which request dequeue of pkg/simulator/simulator.go takes.
use llm_d_inference_sim.Lora.{SimContext, is_lora, lora_is_loaded, load_lora, increment_lora}
use llm_d_inference_sim.Lora.Load.{load_lora_cases}
use llm_d_inference_sim.Scheduler.{
  Simulator, WaitingQueueItem, RequestContext, first_loaded, first_loadable, leave_queue, dequeue,
}
use llm_d_inference_sim.Common.{
  ℕ, ◌≡◌, refl, ap, Bool, true, false, List, [], ◌∷◌, ◌++◌, Option, none, some, arith, All,
  Bool-cases, Option-cases, inl, inr, ◌⊎◌, String,
}

-- `x` is the first item of the queue that passes the test, and `rest` the queue without it.
pub record Picks (passes : WaitingQueueItem → Bool) (queue : List WaitingQueueItem)
    (x : WaitingQueueItem) (rest : List WaitingQueueItem) : Type 0 where
  pub before : List WaitingQueueItem
  pub after : List WaitingQueueItem
  pub split : queue ≡ before ++ x ∷ after
  pub left : rest ≡ before ++ after
  pub earlier : All (λ y. passes y ≡ false) before
  pub chosen : passes x ≡ true

abbrev pub runs : SimContext → WaitingQueueItem → Bool
runs c y = lora_is_loaded c y.req_ctx.displayed_model

abbrev pub loads : SimContext → WaitingQueueItem → Bool
loads c y = (load_lora c y.req_ctx.displayed_model).1

Picks-skip :
    (passes : WaitingQueueItem → Bool) (y : WaitingQueueItem) {queue : List WaitingQueueItem}
    {x : WaitingQueueItem} {rest : List WaitingQueueItem}
    → passes y ≡ false
    → Picks passes queue x rest
    → Picks passes (y ∷ queue) x (y ∷ rest)
Picks-skip passes y e p = record {
  before = y ∷ p.before;
  after = p.after;
  split = ap (◌∷◌ y) p.split;
  left = ap (◌∷◌ y) p.left;
  earlier = (e, p.earlier);
  chosen = p.chosen;
}

Picks-here :
    (passes : WaitingQueueItem → Bool) (x : WaitingQueueItem) (queue : List WaitingQueueItem)
    → passes x ≡ true
    → Picks passes (x ∷ queue) x queue
Picks-here passes x queue e = record {
  before = [];
  after = queue;
  split = refl;
  left = refl;
  earlier = tt;
  chosen = e;
}

-- The outcome of a search: an item picked, or none that passes.
abbrev pub Searched :
    (WaitingQueueItem → Bool)
    → List WaitingQueueItem
    → Option (WaitingQueueItem × List WaitingQueueItem)
    → Type 0
Searched passes queue none = All (λ y. passes y ≡ false) queue
Searched passes queue (some (x, rest)) = Picks passes queue x rest

first_loaded-Searched :
    (c : SimContext) (queue : List WaitingQueueItem)
    → Searched (runs c) queue (first_loaded c queue)
unfolding first_loaded
first_loaded-Searched c [] = tt
first_loaded-Searched c (x ∷ xs) = elim (Bool-cases (runs c x)) [
  | inl e ↦ rw e (Picks-here (runs c) x xs e)
  | inr e ↦ rw e (skip (first_loaded c xs) (first_loaded-Searched c xs) e)
]
  where
    skip :
        (o : Option (WaitingQueueItem × List WaitingQueueItem))
        → Searched (runs c) xs o
        → runs c x ≡ false
        → Searched (runs c) (x ∷ xs) (elim o [ none ↦ none | some (y, ys) ↦ some (y, x ∷ ys) ])
    skip none h e = (e, h)
    skip (some (y, ys)) h e = Picks-skip (runs c) x e h

-- A LoRA that cannot be loaded leaves the context as it was.
pub load_lora-failed :
    (c : SimContext) (m : String) → (load_lora c m).1 ≡ false → (load_lora c m).0 ≡ c
load_lora-failed c m e = elim (Bool-cases (is_lora c m)) [
  | inl l ↦
      load_lora_cases c m (λ x. x.1 ≡ false → x.0 ≡ c) l (λ _ q. cc) (λ _ _ _ _. refl)
        (λ _ _ _ q. cc) e
  | inr l ↦ unfold load_lora in ground (arith, l)
]

abbrev Loaded :
    SimContext
    → List WaitingQueueItem
    → Option (SimContext × WaitingQueueItem × List WaitingQueueItem)
    → Type 0
Loaded c queue none = All (λ y. loads c y ≡ false) queue
Loaded c queue (some (c', x, rest)) =
    Picks (loads c) queue x rest × (c' ≡ (load_lora c x.req_ctx.displayed_model).0)

first_loadable-Loaded :
    (c : SimContext) (queue : List WaitingQueueItem) → Loaded c queue (first_loadable c queue)
unfolding first_loadable
first_loadable-Loaded c [] = tt
first_loadable-Loaded c (x ∷ xs) = elim (Bool-cases (loads c x)) [
  | inl e ↦ rw e (Picks-here (loads c) x xs e, refl)
  | inr e ↦
      rw (e, load_lora-failed c x.req_ctx.displayed_model e)
        (skip (first_loadable c xs) (first_loadable-Loaded c xs) e)
]
  where
    skip :
        (o : Option (SimContext × WaitingQueueItem × List WaitingQueueItem))
        → Loaded c xs o
        → loads c x ≡ false
        → Loaded c (x ∷ xs) (elim o [ none ↦ none | some (c', y, ys) ↦ some (c', y, x ∷ ys) ])
    skip none h e = (e, h)
    skip (some (c', y, ys)) h e = (Picks-skip (loads c) x e h.0, h.1)

-- The state that a call of dequeue does not touch.
pub record Untouched (s s' : Simulator) : Type 0 where
  pub workers_same : s'.free_workers ≡ s.free_workers
  pub chans_same : s'.worker_chans ≡ s.worker_chans
  pub capacity_same : s'.queue_capacity ≡ s.queue_capacity
  pub refused_same : s'.refused ≡ s.refused

leave_queue-Untouched :
    (s : Simulator) (c : SimContext) (x : WaitingQueueItem) (rest : List WaitingQueueItem) (now : ℕ)
    → Untouched s (leave_queue s c x rest now)
unfolding leave_queue
leave_queue-Untouched s c x rest now = record {
  workers_same = refl;
  chans_same = refl;
  capacity_same = refl;
  refused_same = refl;
}

-- What a call of dequeue may answer.
abbrev pub Dequeued : Simulator → Simulator → Option RequestContext → Type 0
Dequeued s s' none =
    (s' ≡ s)
    × All (λ y. runs s.context y ≡ false) s.waiting_queue
    × All (λ y. loads s.context y ≡ false) s.waiting_queue
Dequeued s s' (some req) =
    (x : WaitingQueueItem) × (x.req_ctx ≡ req)
    × Untouched s s'
    × ((Picks (runs s.context) s.waiting_queue x s'.waiting_queue
          × (s'.context ≡ increment_lora s.context req.displayed_model))
        ⊎ (All (λ y. runs s.context y ≡ false) s.waiting_queue
            × Picks (loads s.context) s.waiting_queue x s'.waiting_queue
            × (s'.context ≡ (load_lora s.context req.displayed_model).0)))

dequeue_loaded :
    (s : Simulator) (now : ℕ) {x : WaitingQueueItem} {rest : List WaitingQueueItem}
    → first_loaded s.context s.waiting_queue ≡ some (x, rest)
    → dequeue s now ≡ (
      leave_queue s (increment_lora s.context x.req_ctx.displayed_model) x rest now,
      some x.req_ctx,
    )
unfolding dequeue
dequeue_loaded s now e = rw (e, dequeue)

dequeue_loadable :
    (s : Simulator) (now : ℕ) {c : SimContext} {x : WaitingQueueItem} {rest : List WaitingQueueItem}
    → first_loaded s.context s.waiting_queue ≡ none
    → first_loadable s.context s.waiting_queue ≡ some (c, x, rest)
    → dequeue s now ≡ (leave_queue s c x rest now, some x.req_ctx)
unfolding dequeue
dequeue_loadable s now e f = rw (e, dequeue) (rw f)

dequeue-none :
    (s : Simulator) (now : ℕ)
    → first_loaded s.context s.waiting_queue ≡ none
    → first_loadable s.context s.waiting_queue ≡ none
    → dequeue s now ≡ (s, none)
unfolding dequeue
dequeue-none s now e f = rw (e, dequeue) (rw f)

-- dequeue takes the first request whose LoRA is loaded; if there is none, the first one whose LoRA can
-- be loaded; if there is none either, it changes nothing. The others keep their order.
pub dequeue-Dequeued : (s : Simulator) (now : ℕ) → Dequeued s (dequeue s now).0 (dequeue s now).1
dequeue-Dequeued s now = elim (Option-cases (first_loaded s.context s.waiting_queue)) [
  | inr ((x, rest), e) ↦
      let p : Picks (runs s.context) s.waiting_queue x rest =
        rw e at (first_loaded-Searched s.context s.waiting_queue) in
      rw (dequeue_loaded s now e)
        (unfold leave_queue in (x, refl, leave_queue-Untouched s _ x rest now, inl (p, refl)))
  | inl e ↦
      let none_runs : All (λ y. runs s.context y ≡ false) s.waiting_queue =
        rw e at (first_loaded-Searched s.context s.waiting_queue) in
      elim (Option-cases (first_loadable s.context s.waiting_queue)) [
        | inr ((c, x, rest), f) ↦
            let found : Loaded s.context s.waiting_queue (some (c, x, rest)) =
              rw f at (first_loadable-Loaded s.context s.waiting_queue) in
            rw (dequeue_loadable s now e f) (
              unfold leave_queue in
              (x, refl, leave_queue-Untouched s _ x rest now, inr (none_runs, found.0, found.1)))
        | inl f ↦
            rw (dequeue-none s now e f)
              (refl, none_runs, rw f at (first_loadable-Loaded s.context s.waiting_queue))
      ]
]
