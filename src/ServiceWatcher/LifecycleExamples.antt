-- ===== src/ServiceWatcher/LifecycleExamples.antt =====
-- Run and Stop at work.
use kube_service_exporter.Base.{◌≡◌, refl, true, false}
use kube_service_exporter.ServiceWatcher.Lifecycle.{
  Lifecycle, new_lifecycle, between, CanEndWithin, stopping-CanEndWithin, Reaches, Handles,
  handled_after_stop,
}

-- one event waits, Stop has been called, and the informer has ended
abbrev one_left : Lifecycle
one_left = record {
  phase = between;
  informing = false;
  waiting = 1;
  stopping = true;
  stop_returned = false;
}

one_left-CanEndWithin : CanEndWithin 5 one_left
one_left-CanEndWithin = stopping-CanEndWithin one_left refl

handled_after_stop_example :
    (w : Lifecycle) × Reaches new_lifecycle w
    × (w.stop_returned ≡ true)
    × ((w' : Lifecycle) × Handles 2 w w')
handled_after_stop_example = handled_after_stop 2
