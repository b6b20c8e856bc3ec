-- ===== src/Main/Ending.antt =====
-- How the program can always come to its orderly end.
use kube_service_exporter.Base.{◌≡◌, refl, ◌∙◌, inl, inr, true, false, Bool-cases}
use kube_service_exporter.Leader.{
  Elector, Phase, locking, leading, returned, aborted, stopped, begin_term, step_down,
}
use kube_service_exporter.ServiceWatcher.Lifecycle.{
  RunPhase, starting, syncing, at_until, between, handling, ended, Lifecycle, finish, informer_ends,
  wait_group-idle,
}
use kube_service_exporter.NodeWatcher.Lifecycle.{NodeLifecycle, node_wait_group}
use kube_service_exporter.NodeWatcher.Lifecycle as Nodes
use kube_service_exporter.Main.Shutdown.{
  Exit, all_stopped, timed_out, failed_run, MainPhase, selecting, exited, Stopper, not_begun,
  elector_next, elector_wait, services_next, services_wait, nodes_next, nodes_queue, nodes_wait,
  server_next, server_wait, done, closed, Process, new_process, lives, ProcessStep, elector_moves,
  services_move, nodes_move, signal, stop_elector, elector_stopped, stop_services, services_stopped,
  stop_nodes, shut_queue_down, nodes_stopped, stop_server, server_stopped, listen_fails,
  server_returns, time_is_over, stops_are_over, ProcessReachable, begun, next,
}

-- the part whose Stop is being waited for has been told to stop, and main waits only behind the signal
abbrev Told : Stopper → MainPhase → Elector → Lifecycle → NodeLifecycle → Type 0
Told not_begun m e w n = ¬ (m ≡ selecting)
Told elector_wait m e w n = e.stopping ≡ true
Told services_wait m e w n = w.stopping ≡ true
Told nodes_queue m e w n = n.stopping ≡ true
Told nodes_wait m e w n = n.stopping ≡ true
Told _ m e w n = Unit

-- it stays so where main does not begin to wait, and no part forgets that it has been told
module _ (p p' : Process) (main : p'.main ≡ selecting → p.main ≡ selecting)
    (elector : p.elector.stopping ≡ true → p'.elector.stopping ≡ true)
    (services : p.services.stopping ≡ true → p'.services.stopping ≡ true)
    (nodes : p.nodes.stopping ≡ true → p'.nodes.stopping ≡ true) where
  stays-Told :
      (x : Stopper)
      → Told x p.main p.elector p.services p.nodes
      → Told x p'.main p'.elector p'.services p'.nodes
  stays-Told not_begun t = λ h. t (main h)
  stays-Told elector_next t = tt
  stays-Told elector_wait t = elector t
  stays-Told services_next t = tt
  stays-Told services_wait t = services t
  stays-Told nodes_next t = tt
  stays-Told nodes_queue t = nodes t
  stays-Told nodes_wait t = nodes t
  stays-Told server_next t = tt
  stays-Told server_wait t = tt
  stays-Told done t = tt

abbrev TellsOf : Process → Type 0
TellsOf p = Told p.stopper p.main p.elector p.services p.nodes

ends-Told : (p : Process) (f : Exit) → TellsOf p → TellsOf (record p { main = exited f })
ends-Told p f =
    stays-Told p (record p { main = exited f }) (λ h. cc) (λ h. h) (λ h. h) (λ h. h) p.stopper

Step-Told : (p p' : Process) → ProcessStep p p' → TellsOf p → TellsOf p'
Step-Told p _ (elector_moves {e} l own) t =
    stays-Told p (record p { elector = e }) (λ h. h) (λ h. own.stopping ∙ h) (λ h. h) (λ h. h)
      p.stopper t
Step-Told p _ (services_move {w} l own) t =
    stays-Told p (record p { services = w }) (λ h. h) (λ h. h) (λ h. own.stopping ∙ h) (λ h. h)
      p.stopper t
Step-Told p _ (nodes_move {w} l own) t =
    stays-Told p (record p { nodes = w }) (λ h. h) (λ h. h) (λ h. h) (λ h. own.stopping ∙ h)
      p.stopper t
Step-Told p _ (signal m e) t = tt
Step-Told p _ (stop_elector l e) t = refl
Step-Told p _ (elector_stopped l e over) t = tt
Step-Told p _ (stop_services l e) t = refl
Step-Told p _ (services_stopped l e g) t = tt
Step-Told p _ (stop_nodes l e) t = refl
Step-Told p _ (shut_queue_down l e) t = rw e at t
Step-Told p _ (nodes_stopped l e g) t = tt
Step-Told p _ (stop_server l e) t = tt
Step-Told p _ (server_stopped l e) t = tt
Step-Told p _ (listen_fails l e) t = ends-Told p failed_run t
Step-Told p _ (server_returns l e) t = ends-Told p failed_run t
Step-Told p _ (time_is_over m) t = ends-Told p timed_out t
Step-Told p _ (stops_are_over m e) t = ends-Told p all_stopped t

Reachable-Told : (p : Process) → ProcessReachable p → TellsOf p
unfolding new_process
Reachable-Told _ begun = λ h. cc
Reachable-Told _ (next {p} r step) = Step-Told p _ step (Reachable-Told p r)

-- a run of the program from one state to another
pub data Runs : Process → Process → Type 0 where
  there : {p : Process} → Runs p p
  then_step : {p p' p'' : Process} → ProcessStep p p' → Runs p' p'' → Runs p p''

-- a run to the end of the program, with everything stopped
abbrev pub CanStop : Process → Type 0
CanStop p = (p' : Process) × Runs p p' × (p'.main ≡ exited all_stopped)

before : {p p' : Process} → ProcessStep p p' → CanStop p' → CanStop p
before step (p', path, e) = (p', then_step step path, e)

is_living : {m : MainPhase} → m ≡ selecting → lives m ≡ true
is_living e = rw e refl

-- from each place of the goroutine that stops the parts, the last one first
from_done : (p : Process) → p.main ≡ selecting → p.stopper ≡ done → CanStop p
from_done p m e = before (stops_are_over m e) (_, there, refl)

from_server_wait : (p : Process) → p.main ≡ selecting → p.stopper ≡ server_wait → CanStop p
from_server_wait p m e =
    before (server_stopped (is_living m) e) (from_done (record p { stopper = done }) m refl)

from_server_next : (p : Process) → p.main ≡ selecting → p.stopper ≡ server_next → CanStop p
from_server_next p m e =
    before (stop_server (is_living m) e)
      (from_server_wait (record p { server = closed; stopper = server_wait }) m refl)

-- the informer of the node watcher has ended
from_nodes_idle :
    (p : Process)
    → p.main ≡ selecting
    → p.stopper ≡ nodes_wait
    → p.nodes.informing ≡ false
    → CanStop p
unfolding node_wait_group
from_nodes_idle p m e idle = before (nodes_stopped (is_living m) e (rw idle refl)) (
    from_server_next
      (record p { nodes = record p.nodes { stop_returned = true }; stopper = server_next }) m refl)

from_nodes_wait :
    (p : Process)
    → p.main ≡ selecting
    → p.stopper ≡ nodes_wait
    → p.nodes.stopping ≡ true
    → CanStop p
from_nodes_wait p m e told = elim (Bool-cases p.nodes.informing) [
  | inr idle ↦ from_nodes_idle p m e idle
  | inl informs ↦
      before
        (nodes_move (is_living m) (record {
          moves = Nodes.informer_ends informs told;
          stopping = refl;
          shut_down = refl;
          stop_returned = refl;
        }))
        (from_nodes_idle (record p { nodes = record p.nodes { informing = false } }) m e refl)
]

from_nodes_queue :
    (p : Process)
    → p.main ≡ selecting
    → p.stopper ≡ nodes_queue
    → p.nodes.stopping ≡ true
    → CanStop p
from_nodes_queue p m e told = before (shut_queue_down (is_living m) e) (
    from_nodes_wait (record p { nodes = record p.nodes { shut_down = true }; stopper = nodes_wait })
      m refl told)

from_nodes_next : (p : Process) → p.main ≡ selecting → p.stopper ≡ nodes_next → CanStop p
from_nodes_next p m e = before (stop_nodes (is_living m) e) (
    from_nodes_queue
      (record p { nodes = record p.nodes { stopping = true }; stopper = nodes_queue }) m refl refl)

-- no handler of the service watcher runs, and its informer has ended
from_services_idle :
    (p : Process)
    → p.main ≡ selecting
    → p.stopper ≡ services_wait
    → p.services.informing ≡ false
    → ¬ (p.services.phase ≡ handling)
    → CanStop p
from_services_idle p m e idle free =
    before (services_stopped (is_living m) e (wait_group-idle p.services idle free)) (
      from_nodes_next
        (record p { services = record p.services { stop_returned = true }; stopper = nodes_next }) m
        refl)

-- no handler runs
from_services_free :
    (p : Process)
    → p.main ≡ selecting
    → p.stopper ≡ services_wait
    → p.services.stopping ≡ true
    → ¬ (p.services.phase ≡ handling)
    → CanStop p
from_services_free p m e told free = elim (Bool-cases p.services.informing) [
  | inr idle ↦ from_services_idle p m e idle free
  | inl informs ↦
      before
        (services_move (is_living m)
          (record { moves = informer_ends informs told; stopping = refl; stop_returned = refl }))
        (from_services_idle (record p { services = record p.services { informing = false } }) m e
          refl free)
]

from_services_wait :
    (p : Process)
    → p.main ≡ selecting
    → p.stopper ≡ services_wait
    → p.services.stopping ≡ true
    → CanStop p
from_services_wait p m e told = go p.services.phase refl
  where
    go : (x : RunPhase) → p.services.phase ≡ x → CanStop p
    go starting h = from_services_free p m e told λ f. cc
    go syncing h = from_services_free p m e told λ f. cc
    go at_until h = from_services_free p m e told λ f. cc
    go between h = from_services_free p m e told λ f. cc
    go ended h = from_services_free p m e told λ f. cc
    go handling h =
        before
          (services_move (is_living m)
            (record { moves = finish h; stopping = refl; stop_returned = refl }))
          (from_services_free (record p { services = record p.services { phase = between } }) m e
            told λ f. cc)

from_services_next : (p : Process) → p.main ≡ selecting → p.stopper ≡ services_next → CanStop p
from_services_next p m e = before (stop_services (is_living m) e) (
    from_services_wait
      (record p { services = record p.services { stopping = true }; stopper = services_wait }) m
      refl refl)

from_returned :
    (p : Process)
    → p.main ≡ selecting
    → p.stopper ≡ elector_wait
    → p.elector.phase ≡ returned
    → CanStop p
from_returned p m e over =
    before (elector_stopped (is_living m) e over)
      (from_services_next (record p { stopper = services_next }) m refl)

from_leading :
    (p : Process)
    → p.main ≡ selecting
    → p.stopper ≡ elector_wait
    → p.elector.stopping ≡ true
    → p.elector.phase ≡ leading
    → CanStop p
unfolding step_down
from_leading p m e told leads =
    before (elector_moves (is_living m) (record { moves = stopped leads told; stopping = refl }))
      (from_returned (record p { elector = step_down returned p.elector }) m e refl)

from_elector_wait :
    (p : Process)
    → p.main ≡ selecting
    → p.stopper ≡ elector_wait
    → p.elector.stopping ≡ true
    → CanStop p
unfolding begin_term
from_elector_wait p m e told = go p.elector.phase refl
  where
    go : (x : Phase) → p.elector.phase ≡ x → CanStop p
    go returned h = from_returned p m e h
    go leading h = from_leading p m e told h
    go locking h =
        before (elector_moves (is_living m) (record { moves = aborted h told; stopping = refl }))
          (from_leading (record p { elector = begin_term false p.elector }) m e told refl)

from_elector_next : (p : Process) → p.main ≡ selecting → p.stopper ≡ elector_next → CanStop p
from_elector_next p m e = before (stop_elector (is_living m) e) (
    from_elector_wait
      (record p { elector = record p.elector { stopping = true }; stopper = elector_wait }) m refl
      refl)

-- From every state that the program can reach and in which main waits for the stops, there is a run to the end
-- of the program in which everything has been stopped: whatever the elector, the watchers and their queues
-- are doing, the goroutine that stops them is never stuck.
pub Reachable-CanStop : (p : Process) → ProcessReachable p → p.main ≡ selecting → CanStop p
Reachable-CanStop p r m = go p.stopper refl (Reachable-Told p r)
  where
    go :
        (x : Stopper)
        → p.stopper ≡ x
        → Told p.stopper p.main p.elector p.services p.nodes
        → CanStop p
    go not_begun e t = absurd ((rw e at t) m)
    go elector_next e t = from_elector_next p m e
    go elector_wait e t = from_elector_wait p m e (rw e at t)
    go services_next e t = from_services_next p m e
    go services_wait e t = from_services_wait p m e (rw e at t)
    go nodes_next e t = from_nodes_next p m e
    go nodes_queue e t = from_nodes_queue p m e (rw e at t)
    go nodes_wait e t = from_nodes_wait p m e (rw e at t)
    go server_next e t = from_server_next p m e
    go server_wait e t = from_server_wait p m e
    go done e t = from_done p m e
