-- ===== src/Queue/Taking.antt =====
-- Get, Forget and Failed do what the specification of the queue says.
use kube_service_exporter.Base.{
  ℕ, suc, ◌+◌, ◌≤◌, ◌<◌, ◌≡◌, refl, sym, ◌∙◌, inl, inr, Bool, Option, none, some, arith, ◌==◌,
  if◌then◌else◌, Bool-cases, length,
}
use kube_service_exporter.Go.Run.{Gives, gives, Gives-bind, Gives-if, ok, ◌>>=◌}
use kube_service_exporter.Queue.{
  PriorityQueue, get, forget, failed, num_requeues, find, drop_key, len, taken_from,
}
use kube_service_exporter.Queue.Heap.{Item, ItemHeap, heap_remove, at}
use kube_service_exporter.Queue.Slots.{ptr}
use kube_service_exporter.Queue.Order.{IsWeakOrder}
use kube_service_exporter.Queue.Root.{IsHeap-root}
use kube_service_exporter.Queue.Moved.{content, content-some}
use kube_service_exporter.Queue.Sift.{below, below-IsWeakOrder}
use kube_service_exporter.Queue.Container.{Removed}
use kube_service_exporter.Queue.Remove.{heap_pop-Removed, heap_remove-Removed}
use kube_service_exporter.Queue.Lookup.{IsEquality, find-drop_key, find-drop_other}
use kube_service_exporter.Queue.Valid.{IsValid, Removed-Agrees, value_inj}
use kube_service_exporter.Queue.Refine.{behind, view, Requests-ext, Removed-waiting}
use kube_service_exporter.Queue.Spec.{IsFirst, spec_take, spec_forget, spec_failed}

module _ {V P : Type 0} (same : V → V → Bool) (lt : P → P → Bool) (law : IsEquality same)
    (order : IsWeakOrder lt) where
  -- the queue that is left is valid, and the value is the one that waited longest in the heap
  pub record Got (q : PriorityQueue V P) (r : V × PriorityQueue V P) : Type 0 where
    pub valid : IsValid same lt r.1
    pub first : IsFirst same lt r.0 (view same lt q)
    pub after : view same lt r.1 ≡ spec_take same r.0 (view same lt q)
    pub size : len same lt r.1 + 1 ≡ len same lt q

  -- the priority that waits under a value stands at a place of the heap
  pub waits-place :
      (q : PriorityQueue V P) (w : V) (y : P)
      → IsValid same lt q
      → (view same lt q).waiting w ≡ some y
      → (c : ℕ) × (c < length q.items.slots)
        × ((k : V) × (content q.items.store (ptr q.items.slots c) ≡ some (k, y)))
  waits-place q w y s e = go (find same w q.lookup) refl e
    where
      go :
          (found : Option ℕ)
          → find same w q.lookup ≡ found
          → behind same lt q.items.store found ≡ some y
          → (c : ℕ) × (c < length q.items.slots)
            × ((k : V) × (content q.items.store (ptr q.items.slots c) ≡ some (k, y)))
      go none e at_none = cc
      go (some p) e at_some =
          let ((c, inside, at), (x, there)) = s.held w p e in
          let priority : x ≡ y = cc in (c, inside, (w, rw (at, there, priority) refl))

  root-IsFirst :
      (q : PriorityQueue V P) (v : V) (x : P)
      → IsValid same lt q
      → 0 < length q.items.slots
      → content q.items.store (ptr q.items.slots 0) ≡ some (v, x)
      → IsFirst same lt v (view same lt q)
  root-IsFirst q v x s full e = record {
    priority = x;
    waits = rw (s.listed 0 v x full e, e) refl;
    least = λ w y at.
        let (c, inside, (k, there)) = waits-place q w y s at in
        rw (there, e) at
          (IsHeap-root (below lt (content q.items.store))
            (below-IsWeakOrder lt order (content q.items.store)) (length q.items.slots)
            q.items.slots (suc c) c (omega arith) inside s.ordered.heap);
  }

  Removed-Got :
      (q : PriorityQueue V P) (r : Item V P × ItemHeap V P)
      → IsValid same lt q
      → 0 < length q.items.slots
      → Removed lt q.items (ptr q.items.slots 0) r
      → Got q (taken_from same lt q r)
  unfolding taken_from spec_take num_requeues len
  Removed-Got q r s full m = record {
    valid =
        Removed-Agrees same lt law q.items (ptr q.items.slots 0) r q.lookup s
          (s.listed 0 r.0.value r.0.priority full m.item) m;
    first = root-IsFirst q r.0.value r.0.priority s full m.item;
    after =
        Requests-ext same lt (view same lt (taken_from same lt q r).1)
          (spec_take same r.0.value (view same lt q))
          (λ w. Removed-waiting same lt law q r (ptr q.items.slots 0) w m) λ w. refl;
    size = m.size;
  }

  -- Get on a valid queue that is not empty returns a value: its priority precedes or ties with that of each
  -- value that waits, it waits no longer in the queue that is left, which is valid and shorter by one, and
  -- nothing else has changed. Keys are told apart by equality, and the comparison is a weak order.
  pub get_lem :
      (q : PriorityQueue V P)
      → IsValid same lt q
      → 0 < len same lt q
      → Gives (Got q) (get same lt q)
  unfolding get len
  get_lem q s full =
      Gives-if (length q.items.slots == 0) (λ empty. absurd (ground (arith, full)))
        λ some_left.
          Gives-bind (heap_pop-Removed lt order q.items s.ordered full)
            λ r m. gives (Removed-Got q r s full m)

  -- what Forget leaves where the value is known
  forgotten : PriorityQueue V P → V → ItemHeap V P → PriorityQueue V P
  forgotten q v items = record {
    failures = drop_key same v q.failures;
    items = items;
    lookup = drop_key same v q.lookup;
  }

  Removed-spec_forget :
      (q : PriorityQueue V P) (v : V) (x : P) (p : ℕ) (r : Item V P × ItemHeap V P)
      → IsValid same lt q
      → find same v q.lookup ≡ some p
      → content q.items.store p ≡ some (v, x)
      → Removed lt q.items p r
      → IsValid same lt (forgotten q v r.1)
        × (view same lt (forgotten q v r.1) ≡ spec_forget same v (view same lt q))
        × (len same lt (forgotten q v r.1) + 1 ≡ len same lt q)
  unfolding forgotten spec_forget spec_take num_requeues len
  Removed-spec_forget q v x p r s found there m =
      let is_v : r.0.value ≡ v = value_inj same lt law (sym m.item ∙ there) in
      let known : find same r.0.value q.lookup ≡ some p = rw is_v found in
      (
        rw is_v at (Removed-Agrees same lt law q.items p r q.lookup s known m),
        rw (found, there)
            (Requests-ext same lt _ _ (λ w. rw (sym is_v) (Removed-waiting same lt law q r p w m))
              λ w. failures w),
        m.size,
      )
    where
      failures :
          (w : V)
          → num_requeues same lt w (forgotten q v r.1)
            ≡ (if same v w then 0 else num_requeues same lt w q)
      failures w = elim (Bool-cases (same v w)) [
        | inl here ↦
            let gone : find same w (drop_key same v q.failures) ≡ none =
              rw (sym (law.sound v w here)) (find-drop_key same v q.failures) in
            rw (num_requeues, here, gone) refl
        | inr other ↦ rw (num_requeues, other, find-drop_other same v w q.failures law other) refl
      ]

  pub record Forgot (q : PriorityQueue V P) (v : V) (q' : PriorityQueue V P) : Type 0 where
    pub valid : IsValid same lt q'
    pub after : view same lt q' ≡ spec_forget same v (view same lt q)
    pub size : len same lt q' ≤ len same lt q

  pub forget_lem :
      (q : PriorityQueue V P) (v : V) → IsValid same lt q → Gives (Forgot q v) (forget same lt v q)
  unfolding forget spec_forget len forgotten
  forget_lem q v s = go (find same v q.lookup) refl
    where
      go :
          (found : Option ℕ)
          → find same v q.lookup ≡ found
          → Gives (Forgot q v) (elim found [
            | none ↦ ok q
            | some p ↦ at q.items.store p >>= λ it. heap_remove lt q.items it.index >>= λ r.
                ok (record {
                  failures = drop_key same v q.failures;
                  items = r.1;
                  lookup = drop_key same v q.lookup;
                })
          ])
      go none e = gives (record { valid = s; after = rw e refl; size = omega arith })
      go (some p) e =
          let ((c, inside, at), (x, there)) = s.held v p e in
          let (it, stored) =
            content-some q.items.store p (omega (arith, at, s.ordered.sound.bounded c inside)) in
          let place : it.index ≡ c = rw (at, stored) at (s.ordered.sound.indexed c inside) in
          rw (stored, place)
            (Gives-bind (heap_remove-Removed lt order q.items c s.ordered inside) λ r m.
              let (valid, after, size) = Removed-spec_forget q v x p r s e there (rw at at m) in
              gives (record { valid = valid; after = after; size = omega (arith, size) }))

  pub failed_lem :
      (q : PriorityQueue V P) (v : V)
      → IsValid same lt q
      → IsValid same lt (failed same lt v q)
        × (view same lt (failed same lt v q) ≡ spec_failed same v (view same lt q))
  unfolding failed spec_failed num_requeues find
  failed_lem q v s = (
    s,
    Requests-ext same lt _ _ (λ w. refl)
        λ w. elim (Bool-cases (same v w)) [
          | inl here ↦ rw (num_requeues, find, here) refl
          | inr other ↦ rw (num_requeues, find, other) refl
        ],
  )
