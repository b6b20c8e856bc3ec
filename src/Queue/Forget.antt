-- ===== src/Queue/Forget.antt =====
-- What Forget does to an item that Get has returned: nothing.
use kube_service_exporter.Base.{◌≡◌, refl, ◌∙◌, inl, inr, Bool, none, ◌==◌, Bool-cases, length}
use kube_service_exporter.Go.Run.{Run, ok, err, panic, ◌>>=◌, empty_queue}
use kube_service_exporter.Queue.{taken_from, find, PriorityQueue, get, forget, num_requeues}
use kube_service_exporter.Queue.Lookup.{find-drop_key}
use kube_service_exporter.Queue.Heap.{Item, ItemHeap, heap_pop}

module _ {V P : Type 0} (same : V → V → Bool) (lt : P → P → Bool) where
  -- the value that Get returns has no entry in the lookup table, and the failures stay
  pub record Taken (q : PriorityQueue V P) (v : V) (q' : PriorityQueue V P) : Type 0 where
    pub unknown : find same v q'.lookup ≡ none
    pub failures : q'.failures ≡ q.failures

  taken_from-Taken :
      (q : PriorityQueue V P) (r : Item V P × ItemHeap V P)
      → Taken q (taken_from same lt q r).0 (taken_from same lt q r).1
  unfolding taken_from
  taken_from-Taken q r = record { unknown = find-drop_key same r.0.value q.lookup; failures = refl }

  get-Taken :
      (q : PriorityQueue V P) (v : V) (q' : PriorityQueue V P)
      → get same lt q ≡ ok (v, q')
      → Taken q v q'
  unfolding get
  get-Taken q v q' e = elim (Bool-cases (length q.items.slots == 0)) [
    | inl empty ↦ err-ok (rw empty at e)
    | inr full ↦ go (heap_pop lt q.items) refl (rw full at e)
  ]
    where
      err-ok : {p : V × PriorityQueue V P} → err empty_queue ≡ ok p → Taken q v q'
      err-ok h = cc

      ok_inj : {a b : V × PriorityQueue V P} → ok a ≡ ok b → a ≡ b
      ok_inj h = cc

      go :
          (r : Run (Item V P × ItemHeap V P))
          → {p' : V × PriorityQueue V P} → p' ≡ (v, q')
          → (r >>= λ p. ok (taken_from same lt q p)) ≡ ok p'
          → Taken q v q'
      go (ok p) at_end h = rw (ok_inj h ∙ at_end) at (taken_from-Taken q p)
      go (err x) at_end h = cc
      go panic at_end h = cc

  -- When Get has returned a value, Forget of that value changes nothing: the number of its failures is
  -- what it was before Get.
  pub forget-get :
      (q : PriorityQueue V P) (v : V) (q' : PriorityQueue V P)
      → get same lt q ≡ ok (v, q')
      → (forget same lt v q' ≡ ok q') × (num_requeues same lt v q' ≡ num_requeues same lt v q)
  unfolding forget num_requeues
  forget-get q v q' e =
      let t = get-Taken q v q' e in
      (rw (t.unknown, forget) refl, rw (t.failures, num_requeues) refl)
