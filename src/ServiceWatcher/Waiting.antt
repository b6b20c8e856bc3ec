-- ===== src/ServiceWatcher/Waiting.antt =====
-- The watcher's queue is the priority queue of pkg/queue, with every item added at priority 0.
use kube_service_exporter.Base.{
  ℕ, ◌+◌, ◌≤◌, ◌<◌, ◌≡◌, inl, inr, Bool, Option, none, some, arith, ◌==◌, Bool-cases, Text,
}
use kube_service_exporter.Go.Run.{
  Gives-Safe, Gives, gives, Gives-map, Run, Safe, returns, fails, empty_queue,
}
use kube_service_exporter.Go.Json.{Json}
use kube_service_exporter.Export.{Indexed}
use kube_service_exporter.ExportTarget.{ExportTarget}
use kube_service_exporter.Queue.{PriorityQueue, len, add, get, forget}
use kube_service_exporter.Queue.Order.{IsWeakOrder}
use kube_service_exporter.Queue.Lookup.{IsEquality}
use kube_service_exporter.Queue.Valid.{IsValid}
use kube_service_exporter.Queue.Refine.{add_lem}
use kube_service_exporter.Queue.Runs.{get-empty}
use kube_service_exporter.Queue.Taking.{get_lem, forget_lem}
use kube_service_exporter.ServiceWatcher.{KeyOp, Handle, value, pointer, Queue}
use kube_service_exporter.ServiceWatcher.Process.{State, run_worker}
use kube_service_exporter.ServiceWatcher.Drain.{Sized, Ended, run_worker-Ended}

module _ {P : Type 0} (same : KeyOp → KeyOp → Bool) (lt : P → P → Bool) (law : IsEquality same)
    (order : IsWeakOrder lt) (zero_priority : P) where
  -- the queues that the watcher can come to
  abbrev pub Waiting : Type 0
  Waiting = (q : PriorityQueue KeyOp P) × IsValid same lt q

  -- the queue that a call leaves
  abbrev pub left : {r : Run (PriorityQueue KeyOp P)} → Gives (IsValid same lt) r → Waiting
  left (gives {a = q} s) = (q, s)

  pub add-IsValid :
      (ko : KeyOp) (w : Waiting) → Gives (IsValid same lt) (add same lt ko zero_priority w.0)
  add-IsValid ko (q, s) = Gives-map (add_lem same lt law order q ko zero_priority s) λ q' p. p.0

  -- what Get answers, and the queue that it leaves
  abbrev pub answer :
      {n : ℕ} {r : Run (KeyOp × PriorityQueue KeyOp P)}
      → Waiting
      → Safe (λ p. IsValid same lt p.1 × (len same lt p.1 + 1 ≡ n)) r
      → Option KeyOp × Waiting
  answer w (returns {a = p} (s, size)) = (some p.0, (p.1, s))
  answer w (fails e) = (none, w)

  pub get-Safe :
      (w : Waiting)
      → Safe (λ p. IsValid same lt p.1 × (len same lt p.1 + 1 ≡ len same lt w.0)) (get same lt w.0)
  get-Safe (q, s) = elim (Bool-cases (len same lt q == 0)) [
    | inl none_left ↦ rw (get-empty same lt law order q (ground arith)) (fails empty_queue)
    | inr full ↦
        Gives-Safe
          (Gives-map (get_lem same lt law order q s (ground arith)) λ p t. (t.valid, t.size))
  ]

  pub forget-IsValid :
      (ko : KeyOp) (w : Waiting)
      → Gives
          (λ q'. IsValid same lt q' × (len same lt q' ≤ len same lt w.0))
          (forget same lt ko w.0)
  forget-IsValid ko (q, s) =
      Gives-map (forget_lem same lt law order q ko s) λ q' t. (t.valid, t.size)

  abbrev pub left_by_forget :
      {n : ℕ} {r : Run (PriorityQueue KeyOp P)}
      → Gives (λ q. IsValid same lt q × (len same lt q ≤ n)) r
      → Waiting
  left_by_forget (gives {a = q} (s, size)) = (q, s)

  -- the address of an item is no key of the queue's maps
  abbrev pub forget_waiting : Handle → Waiting → Waiting
  forget_waiting (value ko) w = left_by_forget (forget-IsValid ko w)
  forget_waiting (pointer ko) w = w

  -- queue.PriorityQueue as the watcher's queue
  abbrev pub priority_queue : Queue
  priority_queue = record {
    Pending = Waiting;
    add = λ ko w. left (add-IsValid ko w);
    get = λ w. answer w (get-Safe w);
    forget = forget_waiting;
  }

  pub answer_lt :
      (w : Waiting) (n : ℕ) (ko : KeyOp) {r : Run (KeyOp × PriorityQueue KeyOp P)}
      (s : Safe (λ p. IsValid same lt p.1 × (len same lt p.1 + 1 ≡ n)) r)
      → (answer w s).0 ≡ some ko
      → len same lt (answer w s).1.0 < n
  answer_lt w n ko (returns (s, size)) e = omega (arith, size)
  answer_lt w n ko (fails x) e = cc

  left_by_forget_le :
      (n : ℕ) {r : Run (PriorityQueue KeyOp P)}
      (g : Gives (λ q. IsValid same lt q × (len same lt q ≤ n)) r)
      → len same lt (left_by_forget g).0 ≤ n
  left_by_forget_le n (gives (s, size)) = size

  pub forget_waiting_le :
      (h : Handle) (w : Waiting) → len same lt (forget_waiting h w).0 ≤ len same lt w.0
  forget_waiting_le (value ko) w = left_by_forget_le (len same lt w.0) (forget-IsValid ko w)
  forget_waiting_le (pointer ko) w = omega arith

  abbrev pub priority_queue_sized : Sized priority_queue
  priority_queue_sized = record {
    size = λ w. len same lt w.0;
    get_lt = λ w ko e. answer_lt w (len same lt w.0) ko (get-Safe w) e;
    forget_le = forget_waiting_le;
  }

  -- With more fuel than the priority queue has items, runWorker on that queue comes to an end while nothing
  -- is added: either on an empty queue or in a panic.
  pub run_worker-len :
      (T : ExportTarget) (unmarshal : Text → Option Json) (cluster_id : Text)
      (index : Text → Indexed) (fuel : ℕ) (s : State T priority_queue)
      → len same lt s.queue.0 < fuel
      → Ended (run_worker T priority_queue unmarshal cluster_id index fuel s).0
  run_worker-len T unmarshal cluster_id index fuel s h =
      run_worker-Ended T priority_queue priority_queue_sized unmarshal cluster_id index fuel s h
