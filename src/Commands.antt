-- ===== src/Commands.antt =====
-- cmd: the four programs. Flags are parsed by cobra, which is third-party code; a program is given the
-- values of its flags, or `none` where they cannot be parsed. Printing is left out.
pub mod Endings
pub mod Registration
use gokube_workshop_day.Prelude.{
  ℕ, ℤ, pos, negsuc, zero, suc, Bool, if◌then◌else◌, Option, none, some, List, [], ◌++◌, ◌∷◌, Text,
  codes,
}
use gokube_workshop_day.Go.{Error, Result, ok, err, Go, pure, ◌>>=◌, ◌>>◌, on_result}
use gokube_workshop_day.Api.Types.{Node}
use gokube_workshop_day.Storage.Interface.{Codec}
use gokube_workshop_day.Storage.Etcd.{EtcdClient, etcd_storage}
use gokube_workshop_day.Storage.Embedded.{Os, start_embedded_etcd_with_port, stop_embedded_etcd}
use gokube_workshop_day.Kubelet.Pods.{new_kubelet}
use gokube_workshop_day.Kubelet.Pods as Kubelets
use gokube_workshop_day.Controller as Controllers
use gokube_workshop_day.Scheduler as Schedulers

-- How a process goes on: it ends with a status, or it never ends.
pub data Ending : Type 0 where
  exited : ℕ → Ending
  blocked : Ending

-- `main`: `os.Exit(1)` after an error of cobra or of the command, and status 0 otherwise.
abbrev pub exit_of : Result (Unit {0}) → Ending
exit_of (ok u) = exited 0
exit_of (err e) = exited 1

-- How a command comes back to `main`, if it does: it returns, or a goroutine has ended the process.
pub data Command : Type 0 where
  back : Result (Unit {0}) → Command
  ended : ℕ → Command

abbrev pub ending : Command → Ending
ending (back r) = exit_of r
ending (ended status) = exited status

-- `--address`, `--etcd-peer-port` and `--etcd-client-port`; negative ports are left out.
pub record ApiServerFlags : Type 0 where
  pub address : Text
  pub etcd_peer_port : ℕ
  pub etcd_client_port : ℕ

abbrev pub default_flags : ApiServerFlags
default_flags = record { address = codes ":8080"; etcd_peer_port = 0; etcd_client_port = 2379 }

-- What the `select` of `runAPIServer` finds first: the error that ended the server, or a signal.
pub data Wake : Type 0 where
  server_ended : Error → Wake
  signalled : Wake

-- What a program does with a client of etcd: connect to a port of this host, and close.
pub record Dial (W : Type 0) : Type 0 where
  pub connect : ℕ → Go W Bool
  pub close : Go W (Unit {0})

module _ {W Etcd : Type 0} (os : Os W Etcd) (dial : Dial W) (wait : Text → Go W Wake) where
  abbrev pub served : Wake → Result (Unit {0})
  served (server_ended e) = err e
  served signalled = ok tt

  -- `runAPIServer`; `wait` is the server at the address until the `select` finds something.
  unfoldable pub run_api_server : ApiServerFlags → Go W (Result (Unit {0}))
  run_api_server flags = do
    started ← start_embedded_etcd_with_port os flags.etcd_peer_port flags.etcd_client_port
    on_result started
        (λ (etcd_server, port). do
          cli ← dial.connect port
          if cli
              then (do
                found ← wait flags.address
                stop_embedded_etcd os etcd_server
                dial.close
                pure (served found))
              else pure (err []))
        (λ e. pure (err []))

  -- `main` of the API server
  unfoldable pub main_api_server : Option ApiServerFlags → Go W Ending
  main_api_server none = pure (exited 1)
  main_api_server (some flags) = do r ← run_api_server flags; pure (exit_of r)

-- The connected client of the controller and of the scheduler, and the codec of the objects.
module _ {W : Type 0} (dial : Dial W) (client : EtcdClient W) (c : Codec) where
  -- `log.Fatalf` in a goroutine ends the process without the deferred `Close`.
  abbrev after_controller : Controllers.Outcome → Go W Command
  after_controller Controllers.returned = (do dial.close; pure (back (ok tt)))
  after_controller Controllers.fatal = pure (ended 1)

  -- `runController`; the events are those that the controller's goroutine finds before the signal.
  unfoldable pub run_controller : ℕ → List Controllers.Event → Go W Command
  run_controller etcd_port events = do
    cli ← dial.connect etcd_port
    if cli
        then (do
          outcome ← Controllers.start (etcd_storage client c) events
          after_controller outcome)
        else pure (back (err []))

  -- `main` of the controller
  unfoldable pub main_controller : Option ℕ → List Controllers.Event → Go W Ending
  main_controller none events = pure (exited 1)
  main_controller (some etcd_port) events = do r ← run_controller etcd_port events; pure (ending r)

  -- A panic in a goroutine ends the process with status 2.
  abbrev after_scheduler : Option (Unit {0}) → Go W Command
  after_scheduler none = pure (ended 2)
  after_scheduler (some u) = (do dial.close; pure (back (ok tt)))

  -- `runScheduler`, with the flags `--etcd-port` and `--scheduling-rate`
  unfoldable pub run_scheduler : ℕ → ℤ → List Schedulers.Event → Go W Command
  run_scheduler etcd_port scheduling_rate events = do
    cli ← dial.connect etcd_port
    if cli
        then (do
          ticked ← Schedulers.start_every (etcd_storage client c) scheduling_rate events
          after_scheduler ticked)
        else pure (back (err []))

  -- `main` of the scheduler
  unfoldable pub main_scheduler : Option (ℕ × ℤ) → List Schedulers.Event → Go W Ending
  main_scheduler none events = pure (exited 1)
  main_scheduler (some (etcd_port, scheduling_rate)) events = do
    r ← run_scheduler etcd_port scheduling_rate events
    pure (ending r)

module _ {W : Type 0} (docker_client : Bool) (post : Text → Node → Go W (Option ℕ)) where
  abbrev after_start : Result (List Kubelets.Loop) → Ending
  after_start (ok loops) = blocked
  after_start (err e) = exited 1

  -- `runKubelet`, which blocks for ever once the kubelet has started, and `main` after its errors.
  unfoldable pub run_kubelet : Text → Text → Go W Ending
  run_kubelet node_name api_server_url =
      on_result (new_kubelet docker_client node_name api_server_url)
        (λ k. do started ← Kubelets.start post k; pure (after_start started)) (λ e. pure (exited 1))

  -- `main` of the kubelet, with the flags `--node-name` and `--api-server-url`
  unfoldable pub main_kubelet : Option (Text × Text) → Go W Ending
  main_kubelet none = pure (exited 1)
  main_kubelet (some (node_name, api_server_url)) = run_kubelet node_name api_server_url
