-- ===== src/Scheduler/Steady.antt =====
-- What holds between two turns of the processing loop of pkg/simulator/simulator.go.
use llm_d_inference_sim.Channel.{Channel, write_to_channel}
use llm_d_inference_sim.Scheduler.{
  Simulator, WaitingQueueItem, RequestContext, request_context_comparable, send_to, free_worker,
  get_free_worker,
}
use llm_d_inference_sim.Scheduler.Dequeue.{Picks}
use llm_d_inference_sim.Common.Maps.{Map, lookup, insert, IsMap, lookup-insert, insert-IsMap}
use llm_d_inference_sim.Common.{
  ℕ, suc, ◌+◌, ◌≤◌, ◌<◌, ◌≡◌, ◌≢◌, ◌⊎◌, refl, ap, subst, ◌∙◌, Bool, false, List, [], ◌∷◌, ◌++◌, map,
  none, some, arith, All, All-append, inl, inr, length, count, contains, Distinct, if◌then◌else◌,
  ◌==◌, nat_comparable, nat_beq_iff,
}

abbrev pub Chans : Type 0
Chans = Map ℕ (Channel RequestContext)

-- The requests that wait in workers' channels.
abbrev pub in_chans : Chans → RequestContext → ℕ
in_chans [] r = 0
in_chans ((w, ch) ∷ m) r = count r ch.buffer + in_chans m r

abbrev pub queued : List WaitingQueueItem → List RequestContext
queued = map (λ x. x.req_ctx)

-- How often a request is in the waiting queue, in a worker's channel or among the refused ones.
abbrev pub held : Simulator → RequestContext → ℕ
held s r = count r (queued s.waiting_queue) + in_chans s.worker_chans r + count r s.refused

-- A worker that can take a request: its channel is empty and has room.
abbrev pub IsIdle : Chans → ℕ → Type 0
IsIdle chans w =
    (ch : Channel RequestContext) × (lookup w chans ≡ some ch)
    × (ch.buffer ≡ [])
    × (0 < ch.capacity)

-- Between two turns of the loop the free workers are idle and distinct, and the queue is bounded.
pub record Steady (s : Simulator) : Type 0 where
  pub chans_map : IsMap s.worker_chans
  pub idle : All (IsIdle s.worker_chans) s.free_workers
  pub distinct : Distinct s.free_workers
  pub bounded : length s.waiting_queue ≤ s.queue_capacity

pub count-append :
    (r : RequestContext) (xs ys : List RequestContext)
    → count r (xs ++ ys) ≡ count r xs + count r ys
count-append r [] ys = omega arith
count-append r (x ∷ xs) ys = omega (arith, count-append r xs ys)

pub queued-append :
    (xs : List WaitingQueueItem) (ys : List WaitingQueueItem)
    → queued (xs ++ ys) ≡ queued xs ++ queued ys
queued-append [] ys = refl
queued-append (x ∷ xs) ys = ap (◌∷◌ x.req_ctx) (queued-append xs ys)

count-queued :
    (r : RequestContext) (before after : List WaitingQueueItem) (x : WaitingQueueItem)
    → count r (queued (before ++ x ∷ after))
      ≡ (if x.req_ctx == r then 1 else 0) + count r (queued (before ++ after))
count-queued r [] after x = refl
count-queued r (y ∷ before) after x = omega (arith, count-queued r before after x)

length-split :
    (before after : List WaitingQueueItem) (x : WaitingQueueItem)
    → length (before ++ x ∷ after) ≡ suc (length (before ++ after))
length-split [] after x = refl
length-split (y ∷ before) after x = ap suc (length-split before after x)

-- A picked request leaves the queue once.
pub Picks-count :
    {passes : WaitingQueueItem → Bool} {queue : List WaitingQueueItem} {x : WaitingQueueItem}
    {rest : List WaitingQueueItem}
    → Picks passes queue x rest
    → (length queue ≡ suc (length rest))
      × ((r : RequestContext)
          → count r (queued queue) ≡ (if x.req_ctx == r then 1 else 0) + count r (queued rest))
Picks-count {x = x} p = (
  rw (p.split, p.left) (length-split p.before p.after x),
  λ r. rw (p.split, p.left) (count-queued r p.before p.after x),
)

in_chans-insert :
    (w : ℕ) (chans : Chans) (new : Channel RequestContext) {old : Channel RequestContext}
    (r : RequestContext)
    → lookup w chans ≡ some old
    → in_chans (insert w new chans) r + count r old.buffer ≡ in_chans chans r + count r new.buffer
unfolding lookup insert
in_chans-insert w [] new r e = cc
in_chans-insert w ((v, ch) ∷ rest) new {old} r e =
    ground (arith, in_chans-insert w rest new {old = old} r)

IsIdle-insert :
    (chans : Chans) (w : ℕ) (new : Channel RequestContext) (ws : List ℕ)
    → contains w ws ≡ false
    → All (IsIdle chans) ws
    → All (IsIdle (insert w new chans)) ws
IsIdle-insert chans w new [] d h = tt
IsIdle-insert chans w new (v ∷ ws) d h =
    let (ch, found, empty, room) = h.0 in
    (
      (ch, rw (lookup-insert w v new chans) (ground (arith, found, d)), empty, room),
      IsIdle-insert chans w new ws (ground (arith, d)) h.1,
    )

-- A write to an idle worker's channel is not dropped.
pub record Sent (s : Simulator) (w : ℕ) (req : RequestContext) (s' : Simulator) : Type 0 where
  pub into_chan :
      (r : RequestContext)
      → in_chans s'.worker_chans r ≡ (if req == r then 1 else 0) + in_chans s.worker_chans r
  pub delivered :
      (ch : Channel RequestContext) × (lookup w s'.worker_chans ≡ some ch) × (ch.buffer ≡ req ∷ [])
  pub chans_map : IsMap s'.worker_chans
  pub others :
      (ws : List ℕ)
      → contains w ws ≡ false
      → All (IsIdle s.worker_chans) ws
      → All (IsIdle s'.worker_chans) ws
  pub workers_same : s'.free_workers ≡ s.free_workers
  pub queue_same : s'.waiting_queue ≡ s.waiting_queue
  pub capacity_same : s'.queue_capacity ≡ s.queue_capacity
  pub refused_same : s'.refused ≡ s.refused

pub send_to-Sent :
    (s : Simulator) (w : ℕ) (req : RequestContext)
    → IsMap s.worker_chans
    → IsIdle s.worker_chans w
    → Sent s w req (send_to s w req)
send_to-Sent s w req d (ch, found, empty, room) = rw sent (record {
  into_chan = λ r.
      ground
        (arith, in_chans-insert w s.worker_chans (write_to_channel ch req) r found, written, empty);
  delivered = (write_to_channel ch req, here, written);
  chans_map = insert-IsMap w _ s.worker_chans d;
  others = λ ws c h. IsIdle-insert s.worker_chans w _ ws c h;
  workers_same = refl;
  queue_same = refl;
  capacity_same = refl;
  refused_same = refl;
})
  where
    sent :
        send_to s w req
        ≡ record s { worker_chans = insert w (write_to_channel ch req) s.worker_chans }
    sent = unfold send_to in ground (arith, found)

    here :
        lookup w (insert w (write_to_channel ch req) s.worker_chans)
        ≡ some (write_to_channel ch req)
    here =
        lookup-insert w w (write_to_channel ch req) s.worker_chans ∙ ground (arith, nat_beq_iff w w)

    written : (write_to_channel ch req).buffer ≡ req ∷ []
    written = unfold write_to_channel in ground (arith, empty)

contains-append :
    (v w : ℕ) (ws : List ℕ) → contains v ws ≡ false → v ≢ w → contains v (ws ++ w ∷ []) ≡ false
contains-append v w [] d n = ground (arith, nat_beq_iff w v)
contains-append v w (x ∷ ws) d n = ground (arith, contains-append v w ws)

Distinct-append :
    (w : ℕ) (ws : List ℕ) → contains w ws ≡ false → Distinct ws → Distinct (ws ++ w ∷ [])
Distinct-append w [] c d = (refl, tt)
Distinct-append w (v ∷ ws) c d = (
  contains-append v w ws d.0 (λ e. ground (arith, c, nat_beq_iff v w)),
  Distinct-append w ws (ground (arith, c)) d.1,
)

-- After a turn the state is steady and the requests are those before.
pub record Turned (s s' : Simulator) : Type 0 where
  pub steady : Steady s'
  pub same : (r : RequestContext) → held s' r ≡ held s r

pub free_worker-Turned :
    (s : Simulator) (w : ℕ)
    → Steady s
    → IsIdle s.worker_chans w
    → contains w s.free_workers ≡ false
    → Turned s (free_worker s w)
unfolding free_worker
free_worker-Turned s w h i c = record {
  steady = record {
    chans_map = h.chans_map;
    idle = All-append (IsIdle s.worker_chans) s.free_workers (w ∷ []) h.idle (i, tt);
    distinct = Distinct-append w s.free_workers c h.distinct;
    bounded = h.bounded;
  };
  same = λ r. refl;
}

pub Turned-trans : {a b c : Simulator} → Turned a b → Turned b c → Turned a c
Turned-trans f g = record { steady = g.steady; same = λ r. g.same r ∙ f.same r }

pub List-cases : (ws : List ℕ) → (ws ≡ []) ⊎ ((v : ℕ) × (vs : List ℕ) × (ws ≡ v ∷ vs))
List-cases [] = inl refl
List-cases (v ∷ vs) = inr (v, vs, refl)

-- The state with the first free worker taken.
pub taken_worker :
    (s : Simulator) (w : ℕ) (ws : List ℕ)
    → Steady s
    → s.free_workers ≡ w ∷ ws
    → Steady (record s { free_workers = ws }) × IsIdle s.worker_chans w × (contains w ws ≡ false)
taken_worker s w ws h e =
    let idle : All (IsIdle s.worker_chans) (w ∷ ws) =
      subst (All (IsIdle s.worker_chans)) e h.idle in
    let distinct : Distinct (w ∷ ws) = subst Distinct e h.distinct in
    (
      record { chans_map = h.chans_map; idle = idle.1; distinct = distinct.1; bounded = h.bounded },
      idle.0,
      distinct.0,
    )

pub get_none : (s : Simulator) → s.free_workers ≡ [] → get_free_worker s ≡ none
unfolding get_free_worker
get_none s e = rw (e, get_free_worker)

pub get_some :
    (s : Simulator) (w : ℕ) (ws : List ℕ)
    → s.free_workers ≡ w ∷ ws
    → get_free_worker s ≡ some (w, record s { free_workers = ws })
unfolding get_free_worker
get_some s w ws e = rw (e, get_free_worker)
