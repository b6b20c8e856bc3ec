-- ===== src/Main/Shutdown.antt =====
-- The program behind its start: the four goroutines of main that run the elector, the two watchers and the HTTP
-- server, the goroutine that stops them one after the other when a signal comes, and main, which waits for it.
-- The parts are those of Leader, ServiceWatcher/Lifecycle and NodeWatcher/Lifecycle; of the server it only
-- matters whether ListenAndServe has been told to return, and then it returns http.ErrServerClosed.
use kube_service_exporter.Base.{◌≡◌, Bool, true, false}
use kube_service_exporter.Leader.{Elector, new_elector, Step, returned}
use kube_service_exporter.ServiceWatcher.Lifecycle.{Lifecycle, new_lifecycle, LifeStep, wait_group}
use kube_service_exporter.NodeWatcher.Lifecycle.{
  NodeLifecycle, new_node_lifecycle, NodeStep, node_wait_group,
}

-- how the program ends: all parts have been stopped, the timer was first, or log.Fatal
pub data Exit : Type 0 where
  all_stopped timed_out failed_run : Exit

-- where main stands: before the signal, in its select, or at the end of the program
pub data MainPhase : Type 0 where
  before_signal selecting : MainPhase
  exited : Exit → MainPhase

-- where the goroutine stands that calls Stop of each part, in order
pub data Stopper : Type 0 where
  not_begun : Stopper
  elector_next elector_wait : Stopper
  services_next services_wait : Stopper
  nodes_next nodes_queue nodes_wait : Stopper
  server_next server_wait done : Stopper

pub data ServerPhase : Type 0 where
  listening closed : ServerPhase

pub record Process : Type 0 where
  pub elector : Elector
  pub services : Lifecycle
  pub nodes : NodeLifecycle
  pub server : ServerPhase
  pub stopper : Stopper
  pub main : MainPhase

unfoldable pub new_process : Process
unfolding new_elector new_lifecycle new_node_lifecycle
new_process = record {
  elector = new_elector;
  services = new_lifecycle;
  nodes = new_node_lifecycle;
  server = listening;
  stopper = not_begun;
  main = before_signal;
}

abbrev pub lives : MainPhase → Bool
lives before_signal = true
lives selecting = true
lives (exited e) = false

-- a step of a part that is not its Stop
pub record OwnElector (e e' : Elector) : Type 0 where
  pub moves : Step e e'
  pub stopping : e'.stopping ≡ e.stopping

pub record OwnServices (w w' : Lifecycle) : Type 0 where
  pub moves : LifeStep w w'
  pub stopping : w'.stopping ≡ w.stopping
  pub stop_returned : w'.stop_returned ≡ w.stop_returned

pub record OwnNodes (w w' : NodeLifecycle) : Type 0 where
  pub moves : NodeStep w w'
  pub stopping : w'.stopping ≡ w.stopping
  pub shut_down : w'.shut_down ≡ w.shut_down
  pub stop_returned : w'.stop_returned ≡ w.stop_returned

pub data ProcessStep (p : Process) : Process → Type 0 where
  elector_moves :
      {e : Elector}
      → lives p.main ≡ true
      → OwnElector p.elector e
      → ProcessStep p (record p { elector = e })
  services_move :
      {w : Lifecycle}
      → lives p.main ≡ true
      → OwnServices p.services w
      → ProcessStep p (record p { services = w })
  nodes_move :
      {w : NodeLifecycle}
      → lives p.main ≡ true
      → OwnNodes p.nodes w
      → ProcessStep p (record p { nodes = w })
  -- `<-sigC`, and the goroutine that stops the parts
  signal :
      p.main ≡ before_signal
      → p.stopper ≡ not_begun
      → ProcessStep p (record p { main = selecting; stopper = elector_next })
  stop_elector :
      lives p.main ≡ true
      → p.stopper ≡ elector_next
      → ProcessStep p
          (record p { elector = record p.elector { stopping = true }; stopper = elector_wait })
  -- `<-le.stoppedC`
  elector_stopped :
      lives p.main ≡ true
      → p.stopper ≡ elector_wait
      → p.elector.phase ≡ returned
      → ProcessStep p (record p { stopper = services_next })
  stop_services :
      lives p.main ≡ true
      → p.stopper ≡ services_next
      → ProcessStep p
          (record p { services = record p.services { stopping = true }; stopper = services_wait })
  services_stopped :
      lives p.main ≡ true
      → p.stopper ≡ services_wait
      → wait_group p.services ≡ 0
      → ProcessStep p
          (record p { services = record p.services { stop_returned = true }; stopper = nodes_next })
  stop_nodes :
      lives p.main ≡ true
      → p.stopper ≡ nodes_next
      → ProcessStep p
          (record p { nodes = record p.nodes { stopping = true }; stopper = nodes_queue })
  shut_queue_down :
      lives p.main ≡ true
      → p.stopper ≡ nodes_queue
      → ProcessStep p
          (record p { nodes = record p.nodes { shut_down = true }; stopper = nodes_wait })
  nodes_stopped :
      lives p.main ≡ true
      → p.stopper ≡ nodes_wait
      → node_wait_group p.nodes ≡ 0
      → ProcessStep p
          (record p { nodes = record p.nodes { stop_returned = true }; stopper = server_next })
  stop_server :
      lives p.main ≡ true
      → p.stopper ≡ server_next
      → ProcessStep p (record p { server = closed; stopper = server_wait })
  -- Shutdown returns, at the latest when its context is over
  server_stopped :
      lives p.main ≡ true → p.stopper ≡ server_wait → ProcessStep p (record p { stopper = done })
  -- ListenAndServe fails, and its goroutine calls log.Fatal
  listen_fails :
      lives p.main ≡ true
      → p.server ≡ listening
      → ProcessStep p (record p { main = exited failed_run })
  -- ListenAndServe returns http.ErrServerClosed, which is an error too
  server_returns :
      lives p.main ≡ true
      → p.server ≡ closed
      → ProcessStep p (record p { main = exited failed_run })
  time_is_over : p.main ≡ selecting → ProcessStep p (record p { main = exited timed_out })
  stops_are_over :
      p.main ≡ selecting → p.stopper ≡ done → ProcessStep p (record p { main = exited all_stopped })

pub data ProcessReachable : Process → Type 0 where
  begun : ProcessReachable new_process
  next : {p p' : Process} → ProcessReachable p → ProcessStep p p' → ProcessReachable p'
