-- ===== src/Main/Order.antt =====
-- In which order the parts of the program are stopped.
use kube_service_exporter.Base.{
  ℕ, suc, ◌≤◌, ◌≡◌, refl, sym, ap, ◌∙◌, inl, inr, true, false, arith, ◌==◌, Bool-cases,
}
use kube_service_exporter.Leader.{
  Elector, Step, Reachable, started, next, stop, refused, locked, aborted, lost, stopped, returned,
}
use kube_service_exporter.Leader.Terms.{Reachable-Consistent, is_leading}
use kube_service_exporter.ServiceWatcher.Lifecycle.{Lifecycle, new_lifecycle}
use kube_service_exporter.NodeWatcher.Lifecycle.{NodeLifecycle, new_node_lifecycle}
use kube_service_exporter.Main.Shutdown.{
  Exit, all_stopped, timed_out, failed_run, MainPhase, before_signal, selecting, exited, Stopper,
  not_begun, elector_next, elector_wait, services_next, services_wait, nodes_next, nodes_queue,
  nodes_wait, server_next, server_wait, done, ServerPhase, listening, closed, Process, new_process,
  lives, OwnElector, OwnServices, OwnNodes, ProcessStep, elector_moves, services_move, nodes_move,
  signal, stop_elector, elector_stopped, stop_services, services_stopped, stop_nodes,
  shut_queue_down, nodes_stopped, stop_server, server_stopped, listen_fails, server_returns,
  time_is_over, stops_are_over, ProcessReachable, begun,
}
use kube_service_exporter.Main.Shutdown

-- how far the goroutine that stops the parts has come
abbrev stage : Stopper → ℕ
stage not_begun = 0
stage elector_next = 1
stage elector_wait = 2
stage services_next = 3
stage services_wait = 4
stage nodes_next = 5
stage nodes_queue = 6
stage nodes_wait = 7
stage server_next = 8
stage server_wait = 9
stage done = 10

-- each part is stopped when the one before has been
record Staged (p : Process) : Type 0 where
  elector : Reachable p.elector
  elector_over : 3 ≤ stage p.stopper → p.elector.phase ≡ returned
  services_from : p.services.stopping ≡ true → 4 ≤ stage p.stopper
  services_over : 5 ≤ stage p.stopper → p.services.stop_returned ≡ true
  nodes_from : p.nodes.stopping ≡ true → 6 ≤ stage p.stopper
  nodes_over : 8 ≤ stage p.stopper → p.nodes.stop_returned ≡ true
  server_from : p.server ≡ closed → 9 ≤ stage p.stopper
  all_over : p.main ≡ exited all_stopped → 10 ≤ stage p.stopper

-- Run of the elector does not begin again
Step-returned : (e e' : Elector) → Step e e' → e.phase ≡ returned → e'.phase ≡ returned
Step-returned e _ stop h = h
Step-returned e _ (refused p) h = h
Step-returned e _ (locked p) h = cc
Step-returned e _ (aborted p s) h = cc
Step-returned e _ (lost p g) h = cc
Step-returned e _ (stopped p s) h = cc

alive : {m : MainPhase} {e : Exit} → lives m ≡ true → m ≡ exited e → ⊥
alive {m} {e} h f = false-true (rw f at h)
  where
    false-true : false ≡ true → ⊥
    false-true g = cc

new-Staged : Staged new_process
unfolding new_process new_lifecycle new_node_lifecycle
new-Staged = record {
  elector = started;
  elector_over = λ h. absurd (omega arith);
  services_from = λ h. cc;
  services_over = λ h. absurd (omega arith);
  nodes_from = λ h. cc;
  nodes_over = λ h. absurd (omega arith);
  server_from = λ h. cc;
  all_over = λ h. cc;
}

-- the goroutine that stops the parts goes on, behind a Stop that has returned
goes_on :
    (p : Process) (x : Stopper)
    → lives p.main ≡ true
    → suc (stage p.stopper) ≡ stage x
    → (stage x ≡ 3 → p.elector.phase ≡ returned)
    → (stage x ≡ 5 → p.services.stop_returned ≡ true)
    → (stage x ≡ 8 → p.nodes.stop_returned ≡ true)
    → Staged p
    → Staged (record p { stopper = x })
goes_on p x l e third fifth eighth s = record {
  elector = s.elector;
  elector_over = λ h. elim (Bool-cases (stage x == 3)) [
    | inl here ↦ third (ground arith)
    | inr later ↦ s.elector_over (ground (arith, e))
  ];
  services_from = λ h. omega (arith, s.services_from h, e);
  services_over = λ h. elim (Bool-cases (stage x == 5)) [
    | inl here ↦ fifth (ground arith)
    | inr later ↦ s.services_over (ground (arith, e))
  ];
  nodes_from = λ h. omega (arith, s.nodes_from h, e);
  nodes_over = λ h. elim (Bool-cases (stage x == 8)) [
    | inl here ↦ eighth (ground arith)
    | inr later ↦ s.nodes_over (ground (arith, e))
  ];
  server_from = λ h. omega (arith, s.server_from h, e);
  all_over = λ h. absurd (alive l h);
}

-- it calls a Stop, which changes one part
module _ (p : Process) (s : Staged p) where
  tell_elector : Staged (record p { elector = record p.elector { stopping = true } })
  tell_elector = record {
    elector = next s.elector stop;
    elector_over = s.elector_over;
    services_from = s.services_from;
    services_over = s.services_over;
    nodes_from = s.nodes_from;
    nodes_over = s.nodes_over;
    server_from = s.server_from;
    all_over = s.all_over;
  }

  change_services :
      (w : Lifecycle)
      → (w.stopping ≡ true → 4 ≤ stage p.stopper)
      → (5 ≤ stage p.stopper → w.stop_returned ≡ true)
      → Staged (record p { services = w })
  change_services w from over = record {
    elector = s.elector;
    elector_over = s.elector_over;
    services_from = from;
    services_over = over;
    nodes_from = s.nodes_from;
    nodes_over = s.nodes_over;
    server_from = s.server_from;
    all_over = s.all_over;
  }

  change_nodes :
      (w : NodeLifecycle)
      → (w.stopping ≡ true → 6 ≤ stage p.stopper)
      → (8 ≤ stage p.stopper → w.stop_returned ≡ true)
      → Staged (record p { nodes = w })
  change_nodes w from over = record {
    elector = s.elector;
    elector_over = s.elector_over;
    services_from = s.services_from;
    services_over = s.services_over;
    nodes_from = from;
    nodes_over = over;
    server_from = s.server_from;
    all_over = s.all_over;
  }

  close_server : 9 ≤ stage p.stopper → Staged (record p { server = closed })
  close_server far = record {
    elector = s.elector;
    elector_over = s.elector_over;
    services_from = s.services_from;
    services_over = s.services_over;
    nodes_from = s.nodes_from;
    nodes_over = s.nodes_over;
    server_from = λ h. far;
    all_over = s.all_over;
  }

  change_main :
      (m : MainPhase)
      → (m ≡ exited all_stopped → 10 ≤ stage p.stopper)
      → Staged (record p { main = m })
  change_main m over = record {
    elector = s.elector;
    elector_over = s.elector_over;
    services_from = s.services_from;
    services_over = s.services_over;
    nodes_from = s.nodes_from;
    nodes_over = s.nodes_over;
    server_from = s.server_from;
    all_over = over;
  }

  move_elector : (e : Elector) → OwnElector p.elector e → Staged (record p { elector = e })
  move_elector e own = record {
    elector = next s.elector own.moves;
    elector_over = λ h. Step-returned p.elector e own.moves (s.elector_over h);
    services_from = s.services_from;
    services_over = s.services_over;
    nodes_from = s.nodes_from;
    nodes_over = s.nodes_over;
    server_from = s.server_from;
    all_over = s.all_over;
  }

-- it goes on where nothing is asked of the parts
passes :
    (p : Process) (x y : Stopper)
    → lives p.main ≡ true
    → p.stopper ≡ x
    → suc (stage x) ≡ stage y
    → ((stage y == 3) ≡ false) × ((stage y == 5) ≡ false) × ((stage y == 8) ≡ false)
    → Staged p
    → Staged (record p { stopper = y })
passes p x y l e f (third, fifth, eighth) s =
    goes_on p y l (ap suc (ap stage e) ∙ f) (λ h. absurd (ground arith))
      (λ h. absurd (ground arith)) (λ h. absurd (ground arith)) s

Step-Staged : (p p' : Process) → ProcessStep p p' → Staged p → Staged p'
Step-Staged p _ (elector_moves {e} l own) s = move_elector p s e own
Step-Staged p _ (services_move {w} l own) s =
    change_services p s w (λ h. s.services_from (sym own.stopping ∙ h))
      (λ h. own.stop_returned ∙ s.services_over h)
Step-Staged p _ (nodes_move {w} l own) s =
    change_nodes p s w (λ h. s.nodes_from (sym own.stopping ∙ h))
      (λ h. own.stop_returned ∙ s.nodes_over h)
Step-Staged p _ (signal m e) s =
    passes (record p { main = selecting }) not_begun elector_next refl e refl (refl, refl, refl)
      (change_main p s selecting λ h. cc)
Step-Staged p _ (stop_elector l e) s =
    tell_elector _ (passes p elector_next elector_wait l e refl (refl, refl, refl) s)
Step-Staged p _ (elector_stopped l e over) s =
    goes_on p services_next l (ap suc (ap stage e)) (λ h. over) (λ h. absurd (omega arith))
      (λ h. absurd (omega arith)) s
Step-Staged p _ (stop_services l e) s =
    let s' = passes p services_next services_wait l e refl (refl, refl, refl) s in
    change_services _ s' (record p.services { stopping = true }) (λ h. omega arith) s'.services_over
Step-Staged p _ (services_stopped l e g) s =
    goes_on (record p { services = record p.services { stop_returned = true } }) nodes_next l
      (ap suc (ap stage e)) (λ h. absurd (omega arith)) (λ h. refl) (λ h. absurd (omega arith))
      (change_services p s (record p.services { stop_returned = true }) s.services_from λ h. refl)
Step-Staged p _ (stop_nodes l e) s =
    let s' = passes p nodes_next nodes_queue l e refl (refl, refl, refl) s in
    change_nodes _ s' (record p.nodes { stopping = true }) (λ h. omega arith) s'.nodes_over
Step-Staged p _ (shut_queue_down l e) s =
    let s' = passes p nodes_queue nodes_wait l e refl (refl, refl, refl) s in
    change_nodes _ s' (record p.nodes { shut_down = true }) s'.nodes_from s'.nodes_over
Step-Staged p _ (nodes_stopped l e g) s =
    goes_on (record p { nodes = record p.nodes { stop_returned = true } }) server_next l
      (ap suc (ap stage e)) (λ h. absurd (omega arith)) (λ h. absurd (omega arith)) (λ h. refl)
      (change_nodes p s (record p.nodes { stop_returned = true }) s.nodes_from λ h. refl)
Step-Staged p _ (stop_server l e) s =
    close_server _ (passes p server_next server_wait l e refl (refl, refl, refl) s) (omega arith)
Step-Staged p _ (server_stopped l e) s = passes p server_wait done l e refl (refl, refl, refl) s
Step-Staged p _ (listen_fails l e) s = change_main p s (exited failed_run) λ h. cc
Step-Staged p _ (server_returns l e) s = change_main p s (exited failed_run) λ h. cc
Step-Staged p _ (time_is_over m) s = change_main p s (exited timed_out) λ h. cc
Step-Staged p _ (stops_are_over m e) s =
    change_main p s (exited all_stopped) λ h. omega (arith, ap stage e)

Reachable-Staged : (p : Process) → ProcessReachable p → Staged p
Reachable-Staged _ begun = new-Staged
Reachable-Staged _ (Shutdown.next {p} r step) = Step-Staged p _ step (Reachable-Staged p r)

-- what holds of the parts that come before one that is being stopped, and of all of them at the end
pub record Ordered (p : Process) : Type 0 where
  pub elector_first :
      p.services.stopping ≡ true → (p.elector.phase ≡ returned) × (p.elector.is_leader ≡ false)
  pub services_before_nodes : p.nodes.stopping ≡ true → p.services.stop_returned ≡ true
  pub nodes_before_server : p.server ≡ closed → p.nodes.stop_returned ≡ true
  pub all_before_end :
      p.main ≡ exited all_stopped
      → (p.elector.phase ≡ returned)
        × (p.services.stop_returned ≡ true)
        × (p.nodes.stop_returned ≡ true)

-- In every state that the program can reach: when Stop of the service watcher has been called, Run of the
-- elector has returned and IsLeader says no; when Stop of the node watcher has been called, that of the
-- service watcher has returned; when the HTTP server is told to return, Stop of the node watcher has
-- returned; and when the program ends with "Stopped.", all of that holds.
pub Reachable-Ordered : (p : Process) → ProcessReachable p → Ordered p
Reachable-Ordered p r =
    let s = Reachable-Staged p r in
    record {
      elector_first = λ h.
          let over = s.elector_over (omega (arith, s.services_from h)) in
          (over, (Reachable-Consistent p.elector s.elector).leads ∙ ap is_leading over);
      services_before_nodes = λ h. s.services_over (omega (arith, s.nodes_from h));
      nodes_before_server = λ h. s.nodes_over (omega (arith, s.server_from h));
      all_before_end = λ h. (
        s.elector_over (omega (arith, s.all_over h)),
        s.services_over (omega (arith, s.all_over h)),
        s.nodes_over (omega (arith, s.all_over h)),
      );
    }
