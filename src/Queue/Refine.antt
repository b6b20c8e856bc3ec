-- ===== src/Queue/Refine.antt =====
-- The queue as its specification sees it, and Add.
use kube_service_exporter.Base.{
  ℕ, ◌≡◌, refl, sym, inl, inr, Bool, Option, none, some, List, ◌∷◌, if◌then◌else◌, Bool-cases,
  length,
}
use kube_service_exporter.Go.Run.{Gives, gives, Gives-bind, ok, ◌>>=◌}
use kube_service_exporter.Queue.{PriorityQueue, add, num_requeues, find, drop_key, is_known}
use kube_service_exporter.Queue.Heap.{Item, ItemHeap, heap_push}
use kube_service_exporter.Queue.Order.{IsWeakOrder}
use kube_service_exporter.Queue.Moved.{content}
use kube_service_exporter.Queue.Container.{Removed}
use kube_service_exporter.Queue.Push.{Pushed, heap_push-Pushed}
use kube_service_exporter.Queue.Lookup.{IsEquality, find-drop_key, find-drop_other, find-cons}
use kube_service_exporter.Queue.Valid.{
  IsValid, Agrees-bound, Pushed-Agrees, Pushed-content_old, Pushed-content_new,
}
use kube_service_exporter.Queue.Spec.{Requests, spec_add}

module _ {V P : Type 0} (same : V → V → Bool) (lt : P → P → Bool) where
  abbrev pub priority_in : Option (V × P) → Option P
  priority_in none = none
  priority_in (some e) = some e.1

  -- the priority behind a pointer, where there is one
  abbrev pub behind : List (Item V P) → Option ℕ → Option P
  behind store none = none
  behind store (some p) = priority_in (content store p)

  -- what the queue holds, as its specification sees it
  abbrev pub view : PriorityQueue V P → Requests V P
  view q = record {
    waiting = λ v. behind q.items.store (find same v q.lookup);
    failures = λ v. num_requeues same lt v q;
  }

  pub Requests-ext :
      (s t : Requests V P)
      → ((v : V) → s.waiting v ≡ t.waiting v)
      → ((v : V) → s.failures v ≡ t.failures v)
      → s ≡ t
  Requests-ext s t e f = λ i. record { waiting = λ v. e v i; failures = λ v. f v i }

  pub behind-kept :
      (store store' : List (Item V P)) (found : Option ℕ)
      → ((p : ℕ) → found ≡ some p → content store' p ≡ content store p)
      → behind store' found ≡ behind store found
  behind-kept store store' none h = refl
  behind-kept store store' (some p) h = rw (h p refl) refl

  module _ (law : IsEquality same) where
    known-spec_add :
        (q : PriorityQueue V P) (v : V) (x : P) (p : ℕ)
        → IsValid same lt q
        → find same v q.lookup ≡ some p
        → view q ≡ spec_add same v x (view q)
    unfolding spec_add
    known-spec_add q v x p s found =
        let (place, (y, there)) = s.held v p found in
        Requests-ext (view q) (spec_add same v x (view q))
          (λ w. elim (Bool-cases (same v w)) [
            | inl here ↦ rw (here, sym (law.sound v w here), found, there) refl
            | inr other ↦ rw other refl
          ])
          λ w. refl

    Pushed-spec_add :
        (q : PriorityQueue V P) (it : Item V P) (items : ItemHeap V P)
        → IsValid same lt q
        → find same it.value q.lookup ≡ none
        → Pushed lt q.items it items
        → view (record q { items = items; lookup = (it.value, length q.items.store) ∷ q.lookup })
          ≡ spec_add same it.value it.priority (view q)
    unfolding spec_add num_requeues
    Pushed-spec_add q it items s unknown m =
        let q' : PriorityQueue V P = record q {
          items = items;
          lookup = (it.value, length q.items.store) ∷ q.lookup;
        } in
        Requests-ext (view q') (spec_add same it.value it.priority (view q))
          (λ w. elim (Bool-cases (same it.value w)) [
            | inl here ↦
                rw
                  (
                    find-cons same it.value w (length q.items.store) q.lookup,
                    here,
                    unknown,
                    Pushed-content_new same lt law q.items items it m,
                  )
                  refl
            | inr other ↦
                rw (find-cons same it.value w (length q.items.store) q.lookup, other)
                  (behind-kept q.items.store items.store (find same w q.lookup) λ p found.
                    Pushed-content_old same lt law q.items items it p m
                      (Agrees-bound same lt law q.items q.lookup w p s found))
          ])
          λ w. refl

    pub Removed-waiting :
        (q : PriorityQueue V P) (r : Item V P × ItemHeap V P) (p : ℕ) (w : V)
        → Removed lt q.items p r
        → behind r.1.store (find same w (drop_key same r.0.value q.lookup))
          ≡ (if same r.0.value w then none else behind q.items.store (find same w q.lookup))
    Removed-waiting q r p w m = elim (Bool-cases (same r.0.value w)) [
      | inl here ↦
          rw (here, sym (law.sound r.0.value w here), find-drop_key same r.0.value q.lookup) refl
      | inr other ↦
          rw (other, find-drop_other same r.0.value w q.lookup law other)
            (behind-kept q.items.store r.1.store (find same w q.lookup) λ p' found. m.contents p')
    ]

    module _ (order : IsWeakOrder lt) where
      pub add_lem :
          (q : PriorityQueue V P) (v : V) (x : P)
          → IsValid same lt q
          → Gives
              (λ q'. IsValid same lt q' × (view q' ≡ spec_add same v x (view q)))
              (add same lt v x q)
      unfolding add is_known
      add_lem q v x s = go (find same v q.lookup) refl
        where
          go :
              (found : Option ℕ)
              → find same v q.lookup ≡ found
              → Gives
                  (λ q'. IsValid same lt q' × (view q' ≡ spec_add same v x (view q)))
                  (if is_known same lt found then ok q else do
                    items ← heap_push lt q.items (record { value = v; priority = x; index = 0 })
                    ok (record q { items = items; lookup = (v, length q.items.store) ∷ q.lookup }))
          go (some p) e = gives (s, known-spec_add q v x p s e)
          go none e =
              let it : Item V P = record { value = v; priority = x; index = 0 } in
              Gives-bind (heap_push-Pushed lt order q.items it s.ordered) λ items m. gives (
                Pushed-Agrees same lt law q.items items q.lookup it s e m,
                Pushed-spec_add q it items s e m,
              )
