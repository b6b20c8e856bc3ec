-- ===== src/Queue/Counting.antt =====
-- What the work queue with metrics counts, over any sequence of calls.
use kube_service_exporter.Base.{
  ℕ, ◌+◌, ◌≡◌, refl, ap, ◌∙◌, inl, inr, Bool, true, false, List, [], ◌∷◌, ◌++◌, arith, ◌==◌,
  if◌then◌else◌, Bool-cases, Text, codes, is_empty, text_eq,
}
use kube_service_exporter.Stats.{Sample, gauge, incr}
use kube_service_exporter.Queue.Metrics.{metric_with_prefix}
use kube_service_exporter.Queue.Delaying.{
  RateLimiting, Metered, counted, measured, delaying_add, delaying_add_after,
  delaying_add_rate_limited, delaying_forget, delaying_get, delaying_done,
}

module _ (prefix : Text) (Q : RateLimiting) where
  open Q use {Pending, Item}

  -- the calls that the node watcher and its informer make
  pub data QueueCall : Type 0 where
    add_item add_limited forget_item item_done : Item → QueueCall
    add_later : Item → ℕ → QueueCall
    get_item : QueueCall

  unfoldable pub metered_call : QueueCall → Metered prefix Q → Metered prefix Q
  metered_call (add_item item) s = delaying_add prefix Q item s
  metered_call (add_limited item) s = delaying_add_rate_limited prefix Q item s
  metered_call (forget_item item) s = delaying_forget prefix Q item s
  metered_call (item_done item) s = delaying_done prefix Q item s
  metered_call (add_later item t) s = delaying_add_after prefix Q item t s
  metered_call get_item s = (delaying_get prefix Q s).1

  -- the same calls of the queue that is wrapped
  unfoldable pub plain_call : QueueCall → Pending → Pending
  plain_call (add_item item) q = Q.add item q
  plain_call (add_limited item) q = Q.add_rate_limited item q
  plain_call (forget_item item) q = Q.forget item q
  plain_call (item_done item) q = Q.done item q
  plain_call (add_later item t) q = Q.add_after item t q
  plain_call get_item q = (Q.get q).1

  unfoldable pub metered_calls : List QueueCall → Metered prefix Q → Metered prefix Q
  metered_calls [] s = s
  metered_calls (call ∷ calls) s = metered_calls calls (metered_call call s)

  unfoldable pub plain_calls : List QueueCall → Pending → Pending
  plain_calls [] q = q
  plain_calls (call ∷ calls) q = plain_calls calls (plain_call call q)

  -- how often the counter of that name has been incremented
  abbrev pub is_count : Text → Sample → Bool
  is_count name (incr metric tags) = text_eq metric (metric_with_prefix prefix name)
  is_count name _ = false

  abbrev pub count : Text → List Sample → ℕ
  count name [] = 0
  count name (x ∷ xs) = (if is_count name x then 1 else 0) + count name xs

  abbrev pub adds_or_gets : QueueCall → ℕ
  adds_or_gets (add_item item) = 1
  adds_or_gets get_item = 1
  adds_or_gets _ = 0

  abbrev pub all_adds_or_gets : List QueueCall → ℕ
  all_adds_or_gets [] = 0
  all_adds_or_gets (call ∷ calls) = adds_or_gets call + all_adds_or_gets calls

  count-append :
      (name : Text) (xs ys : List Sample) → count name (xs ++ ys) ≡ count name xs + count name ys
  count-append name [] ys = omega arith
  count-append name (x ∷ xs) ys = omega (arith, count-append name xs ys)

  text_eq-append : (p s t : Text) → text_eq (p ++ s) (p ++ t) ≡ text_eq s t
  unfolding text_eq
  text_eq-append [] s t = refl
  text_eq-append (b ∷ p) s t =
      let here : (b == b) ≡ true = ground arith in rw here (text_eq-append p s t)

  -- the prefix tells no names apart
  same_metric :
      (a b : Text)
      → text_eq (metric_with_prefix prefix a) (metric_with_prefix prefix b) ≡ text_eq a b
  unfolding metric_with_prefix text_eq
  same_metric a b = elim (Bool-cases (is_empty prefix)) [
    | inl none_set ↦ rw none_set refl
    | inr set ↦ rw set (text_eq-append prefix (b'.' ∷ a) (b'.' ∷ b))
  ]

  counted-count :
      (name metric : Text) (s : Metered prefix Q)
      → count name (counted prefix Q metric [] s).1
        ≡ count name s.1 + (if text_eq metric name then 1 else 0)
  unfolding counted
  counted-count name metric (q, sent) =
      count-append name sent (incr (metric_with_prefix prefix metric) [] ∷ [])
      ∙ (rw (same_metric metric name) (omega arith))

  measured-count :
      (name : Text) (s : Metered prefix Q) → count name (measured prefix Q s).1 ≡ count name s.1
  unfolding measured
  measured-count name (q, sent) = omega (
    arith,
    count-append name sent
        (gauge (metric_with_prefix prefix (codes "queue.length")) (Q.len q) [] ∷ []),
  )

  -- a counter of that name, and the gauge behind it
  both-count :
      (name metric : Text) (s : Metered prefix Q)
      → count name (measured prefix Q (counted prefix Q metric [] s)).1
        ≡ count name s.1 + (if text_eq metric name then 1 else 0)
  both-count name metric s =
      measured-count name (counted prefix Q metric [] s) ∙ counted-count name metric s

  call-count :
      (call : QueueCall) (s : Metered prefix Q)
      → count (codes "queue.add") (metered_call call s).1
        ≡ count (codes "queue.add") s.1 + adds_or_gets call
  unfolding metered_call delaying_add delaying_add_after delaying_add_rate_limited delaying_forget
      delaying_get delaying_done text_eq
  call-count (add_item item) (q, sent) =
      both-count (codes "queue.add") (codes "queue.add") (Q.add item q, sent)
  call-count (add_limited item) (q, sent) =
      counted-count (codes "queue.add") (codes "queue.add_rate_limited")
        (Q.add_rate_limited item q, sent)
  call-count (forget_item item) (q, sent) =
      both-count (codes "queue.add") (codes "queue.forget") (Q.forget item q, sent)
  call-count (item_done item) (q, sent) =
      both-count (codes "queue.add") (codes "queue.done") (Q.done item q, sent)
  call-count (add_later item t) (q, sent) =
      both-count (codes "queue.add") (codes "queue.add_after") (Q.add_after item t q, sent)
  call-count get_item s = both-count (codes "queue.add") (codes "queue.add") s

  call-queue :
      (call : QueueCall) (s : Metered prefix Q) → (metered_call call s).0 ≡ plain_call call s.0
  unfolding metered_call plain_call delaying_add delaying_add_after delaying_add_rate_limited
      delaying_forget delaying_get delaying_done counted measured
  call-queue (add_item item) s = refl
  call-queue (add_limited item) s = refl
  call-queue (forget_item item) s = refl
  call-queue (item_done item) s = refl
  call-queue (add_later item t) s = refl
  call-queue get_item s = refl

  -- Over any sequence of calls, the work queue is left as the calls on the queue that is wrapped leave it,
  -- and the counter queue.add grows by the number of calls of Add and of Get together.
  pub metered_calls-count :
      (calls : List QueueCall) (s : Metered prefix Q)
      → ((metered_calls calls s).0 ≡ plain_calls calls s.0)
        × (count (codes "queue.add") (metered_calls calls s).1
            ≡ count (codes "queue.add") s.1 + all_adds_or_gets calls)
  unfolding metered_calls plain_calls
  metered_calls-count [] s = (refl, omega arith)
  metered_calls-count (call ∷ calls) s =
      let (queue, counter) = metered_calls-count calls (metered_call call s) in
      (
        queue ∙ ap (plain_calls calls) (call-queue call s),
        omega (arith, counter, call-count call s),
      )
