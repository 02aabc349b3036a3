-- ===== src/Commands/Endings.antt =====
-- How the programs end, and what they leave.
use gokube_workshop_day.Prelude.{
  ℕ, ℤ, ◌≡◌, ◌↔◌, arith, true, false, Bool, Option, some, List, ◌∷◌, Text, if◌then◌else◌,
}
use gokube_workshop_day.Go.{ok, Go}
use gokube_workshop_day.Api.Types.{Node}
use gokube_workshop_day.Storage.Interface.{Codec}
use gokube_workshop_day.Storage.Rows.{map_storage}
use gokube_workshop_day.Storage.Etcd.{EtcdClient, EtcdLaws, etcd_storage}
use gokube_workshop_day.Storage.Refinement.{etcd_storage-Refines}
use gokube_workshop_day.Storage.Embedded.{
  Os, OsLaws, start_embedded_etcd_with_port, stop_embedded_etcd,
}
use gokube_workshop_day.Storage.Embedded.Directories.{start_leaves_directory, start-stop}
use gokube_workshop_day.Controller as Controllers
use gokube_workshop_day.Controller.Runs.{controller_start_rows}
use gokube_workshop_day.Controller.Simulation.{start-Simulates}
use gokube_workshop_day.Scheduler as Schedulers
use gokube_workshop_day.Scheduler.Runs.{scheduler_start_rows}
use gokube_workshop_day.Scheduler.Simulation.{scheduler_start-Simulates}
use gokube_workshop_day.Kubelet.Pods as Kubelets
use gokube_workshop_day.Commands.{
  exited, blocked, exit_of, ApiServerFlags, Wake, Dial, served, run_api_server, main_api_server,
  run_controller, main_controller, run_scheduler, main_scheduler, run_kubelet, main_kubelet,
}

-- What the calls beside those of the operating system leave of the directories: everything.
pub record Bystanders {W Etcd : Type 0} {os : Os W Etcd} (laws : OsLaws os) (dial : Dial W)
    (wait : Text → Go W Wake) : Type 0 where
  pub connect_dirs : (port : ℕ) (w : W) → laws.dirs (dial.connect port w).1 ≡ laws.dirs w
  pub close_dirs : (w : W) → laws.dirs (dial.close w).1 ≡ laws.dirs w
  pub wait_dirs : (address : Text) (w : W) → laws.dirs (wait address w).1 ≡ laws.dirs w

module _ {W Etcd : Type 0} {os : Os W Etcd} (laws : OsLaws os) (dial : Dial W)
    (wait : Text → Go W Wake) (rest : Bystanders laws dial wait) (flags : ApiServerFlags)
    (w : W) where
  -- Once etcd is started and the client connected, the API server runs until it fails or a signal
  -- comes; then it ends with status 1 or 0, and has removed the directory that it made, if it can be
  -- removed.
  pub api_server_cleans_up :
      (e : Etcd) (port : ℕ) (w' : W)
      → start_embedded_etcd_with_port os flags.etcd_peer_port flags.etcd_client_port w
        ≡ (ok (e, port), w')
      → (dial.connect port w').0 ≡ true
      → (os.remove_all
          (os.config e).dir
          (os.close_etcd e (wait flags.address (dial.connect port w').1).1).1).0
        ≡ true
      → ((main_api_server os dial wait (some flags) w).0
          ≡ exit_of (served os dial wait (wait flags.address (dial.connect port w').1).0))
        × (laws.dirs (main_api_server os dial wait (some flags) w).1 ≡ laws.dirs w)
  unfolding main_api_server run_api_server
  api_server_cleans_up e port w' started connected removed =
      let w1 = (dial.connect port w').1 in
      let w2 = (wait flags.address w1).1 in
      let kept : laws.dirs w2
          ≡ laws.dirs
              (start_embedded_etcd_with_port os flags.etcd_peer_port flags.etcd_client_port w).1 =
        ground (arith, started, rest.connect_dirs port w', rest.wait_dirs flags.address w1) in
      let gone =
        start-stop laws flags.etcd_peer_port flags.etcd_client_port w w2 e port
          (ground (arith, started)) kept removed in
      (
        ground (arith, started, connected),
        ground (arith, started, connected, gone, rest.close_dirs (stop_embedded_etcd os e w2).1),
      )

  -- If etcd is started and no client can be made, the API server ends with status 1 and leaves the
  -- directory that it made.
  pub api_server_leaves_directory :
      (e : Etcd) (port : ℕ) (w' : W) (d : Text)
      → start_embedded_etcd_with_port os flags.etcd_peer_port flags.etcd_client_port w
        ≡ (ok (e, port), w')
      → (os.mkdir_temp w).0 ≡ some d
      → (dial.connect port w').0 ≡ false
      → ((main_api_server os dial wait (some flags) w).0 ≡ exited 1)
        × (laws.dirs (main_api_server os dial wait (some flags) w).1
            ≡ laws.absolute d ∷ laws.dirs w)
  unfolding main_api_server run_api_server
  api_server_leaves_directory e port w' d started made refused =
      let left = start_leaves_directory laws flags.etcd_peer_port flags.etcd_client_port w d made in
      (
        ground (arith, started, refused),
        ground (arith, started, refused, left, rest.connect_dirs port w'),
      )

abbrev pub status_of : Controllers.Outcome → ℕ
status_of Controllers.returned = 0
status_of Controllers.fatal = 1

-- Connecting to etcd and closing the client change nothing in etcd.
pub record DialLaws {S : Type 0} {client : EtcdClient S} (etcd : EtcdLaws client) (dial : Dial S)
    : Type 0 where
  pub connect_rows : (port : ℕ) (s : S) → etcd.rows (dial.connect port s).1 ≡ etcd.rows s
  pub connect_up : (port : ℕ) (s : S) → etcd.up s ≡ true → etcd.up (dial.connect port s).1 ≡ true
  pub close_rows : (s : S) → etcd.rows (dial.close s).1 ≡ etcd.rows s

module _ {S : Type 0} {client : EtcdClient S} (etcd : EtcdLaws client) (c : Codec) (dial : Dial S)
    (rest : DialLaws etcd dial) where
  -- While etcd is up and the controller is connected, its process changes no row, and it ends with status
  -- 1 if its loop over the ordered map of encoded objects is fatal, and with 0 otherwise.
  pub main_controller_lem :
      (port : ℕ) (events : List Controllers.Event) (s : S)
      → etcd.up s ≡ true
      → (dial.connect port s).0 ≡ true
      → ((main_controller dial client c (some port) events s).0
          ≡ exited (status_of (Controllers.start (map_storage c) events (etcd.rows s)).0))
        × (etcd.rows (main_controller dial client c (some port) events s).1 ≡ etcd.rows s)
  unfolding main_controller run_controller
  main_controller_lem port events s up connected =
      let s' = (dial.connect port s).1 in
      let (e, held) =
        (start-Simulates (etcd_storage-Refines etcd c) events).at s' (etcd.rows s)
          (rest.connect_up port s up, rest.connect_rows port s) in
      let kept = controller_start_rows c (etcd.rows s) events in
      let end = (Controllers.start (etcd_storage client c) events s').1 in
      ground (arith, connected, e, held, kept, rest.close_rows end)

  -- While etcd is up and the scheduler is connected, its process changes no row, and it ends with status
  -- 0 if its scheduling rate is positive, and with 2 otherwise.
  pub main_scheduler_lem :
      (port : ℕ) (rate : ℤ) (events : List Schedulers.Event) (s : S)
      → etcd.up s ≡ true
      → (dial.connect port s).0 ≡ true
      → ((main_scheduler dial client c (some (port, rate)) events s).0
          ≡ exited (if Schedulers.is_positive rate then 0 else 2))
        × (etcd.rows (main_scheduler dial client c (some (port, rate)) events s).1 ≡ etcd.rows s)
  unfolding main_scheduler run_scheduler Schedulers.start_every
  main_scheduler_lem port rate events s up connected =
      let s' = (dial.connect port s).1 in
      let (e, held) =
        (scheduler_start-Simulates (etcd_storage-Refines etcd c) events).at s' (etcd.rows s)
          (rest.connect_up port s up, rest.connect_rows port s) in
      let kept = scheduler_start_rows c (etcd.rows s) events in
      let end = (Schedulers.start (etcd_storage client c) events s').1 in
      ground (arith, connected, held, kept, rest.close_rows end, rest.connect_rows port s)

-- A kubelet runs on exactly if its Docker client could be made and the API server answered the
-- registration of its node with 201.
pub main_kubelet_lem :
    {W : Type 0} (docker_client : Bool) (post : Text → Node → Go W (Option ℕ))
    (node_name api_server_url : Text) (w : W) (k : Kubelets.Kubelet)
    → Kubelets.new_kubelet true node_name api_server_url ≡ ok k
    → ((main_kubelet docker_client post (some (node_name, api_server_url)) w).0 ≡ blocked)
      ↔ ((docker_client ≡ true) × ((Kubelets.register_node post k w).0 ≡ ok tt))
unfolding main_kubelet run_kubelet Kubelets.new_kubelet Kubelets.start
main_kubelet_lem docker_client post node_name url w k h = (λ q. ground arith, λ q. ground arith)
