-- ===== src/Tests/Commands.antt =====
-- The theorems about the programs and the embedded etcd, on a host with directories only.
use gokube_workshop_day.Prelude.{
  ◌≡◌, refl, sym, ap, arith, pos, not, true, false, none, some, List, [], ◌∷◌, Text, codes, same,
  any, keep, has_prefix, if◌then◌else◌,
}
use gokube_workshop_day.Go.{ok, Go}
use gokube_workshop_day.Storage.Rows.{decode_rows, under}
use gokube_workshop_day.Registry.ReplicaSet as ReplicaSets
use gokube_workshop_day.Storage.Embedded.{
  Config, Os, OsLaws, pick_available_random_port, start_embedded_etcd_with_port, stop_embedded_etcd,
}
use gokube_workshop_day.Storage.Embedded.Directories.{start-stop}
use gokube_workshop_day.Controller as Controllers
use gokube_workshop_day.Scheduler as Schedulers
use gokube_workshop_day.Commands.{
  exited, ApiServerFlags, Wake, signalled, Dial, main_api_server, main_controller, main_scheduler,
}
use gokube_workshop_day.Commands.Endings.{
  Bystanders, DialLaws, api_server_cleans_up, api_server_leaves_directory, main_controller_lem,
  main_scheduler_lem,
}
use gokube_workshop_day.Tests.Fixtures.{codec, memory, memory-Laws, Memory, worker_rows}

abbrev Host : Type 0
Host = List Text

abbrev temp : Text
temp = codes "/tmp/gokube-test-1"

abbrev host : Os Host Config
host = record {
  mkdir_temp = λ w. if any (λ p. same p temp) w then (none, w) else (some temp, temp ∷ w);
  abs = λ p w. (some p, w);
  listen = λ w. (some 40001, w);
  close_listener = λ port w. (true, w);
  start_etcd = λ cfg w. (some cfg, w);
  config = λ cfg. cfg;
  ready = λ cfg w. (true, w);
  stop_server = λ cfg w. (tt, w);
  close_etcd = λ cfg w. (tt, w);
  remove_all = λ p w. (true, keep (λ q. not (same q p)) w);
}

absent-keep : (w : Host) → any (λ p. same p temp) w ≡ false → keep (λ p. not (same p temp)) w ≡ w
unfolding keep
absent-keep [] h = refl
absent-keep (p ∷ w) h = ground (arith, absent-keep w)

no_directory_made : (w : Host) → (host.mkdir_temp w).0 ≡ none → (host.mkdir_temp w).1 ≡ w
no_directory_made w h = ground arith

directory_made :
    (w : Host) (d : Text)
    → (host.mkdir_temp w).0 ≡ some d
    → ((host.mkdir_temp w).1 ≡ d ∷ w) × (keep (λ p. not (same p d)) w ≡ w)
directory_made w d h = ground (arith, absent-keep w)

named_itself : (d p : Text) (w : Host) → (host.abs d w).0 ≡ some p → p ≡ d
named_itself d p w h = ground arith

started_with : (cfg : Config) (w : Host) (e : Config) → (host.start_etcd cfg w).0 ≡ some e → e ≡ cfg
started_with cfg w e h = ground arith

abbrev host-Laws : OsLaws host
host-Laws = record {
  dirs = λ w. w;
  absolute = λ p. p;
  mkdir_temp_none = no_directory_made;
  mkdir_temp_some = directory_made;
  abs_law = named_itself;
  config_law = started_with;
  remove_all_law = λ p w h. refl;
  abs_dirs = λ d w. refl;
  listen_dirs = λ w. refl;
  close_listener_dirs = λ port w. refl;
  start_etcd_dirs = λ cfg w. refl;
  ready_dirs = λ e w. refl;
  stop_server_dirs = λ e w. refl;
  close_etcd_dirs = λ e w. refl;
}

abbrev started : Config
started = record { dir = temp; listen_peer_port = 40001; listen_client_port = 2379 }

abbrev flags : ApiServerFlags
flags = record { address = codes ":8080"; etcd_peer_port = 0; etcd_client_port = 2379 }

started_at_ports : start_embedded_etcd_with_port host 0 2379 [] ≡ (ok (started, 2379), temp ∷ [])
unfolding start_embedded_etcd_with_port pick_available_random_port
started_at_ports = refl

start-stop_example : (stop_embedded_etcd host started (temp ∷ [])).1 ≡ []
start-stop_example =
    start-stop host-Laws 0 2379 [] (temp ∷ []) started 2379 (ap (λ r. r.0) started_at_ports)
      (ap (λ r. r.1) (sym started_at_ports)) refl

abbrev online : Dial Host
online = record { connect = λ port w. (true, w); close = λ w. (tt, w) }

abbrev offline : Dial Host
offline = record { connect = λ port w. (false, w); close = λ w. (tt, w) }

abbrev interrupted : Text → Go Host Wake
interrupted address w = (signalled, w)

online-Bystanders : Bystanders host-Laws online interrupted
online-Bystanders = record {
  connect_dirs = λ port w. refl;
  close_dirs = λ w. refl;
  wait_dirs = λ address w. refl;
}

offline-Bystanders : Bystanders host-Laws offline interrupted
offline-Bystanders = record {
  connect_dirs = λ port w. refl;
  close_dirs = λ w. refl;
  wait_dirs = λ address w. refl;
}

api_server_cleans_up_example :
    ((main_api_server host online interrupted (some flags) []).0 ≡ exited 0)
    × ((main_api_server host online interrupted (some flags) []).1 ≡ [])
api_server_cleans_up_example =
    api_server_cleans_up host-Laws online interrupted online-Bystanders flags [] started 2379
      (temp ∷ []) started_at_ports refl refl

api_server_leaves_directory_example :
    ((main_api_server host offline interrupted (some flags) []).0 ≡ exited 1)
    × ((main_api_server host offline interrupted (some flags) []).1 ≡ temp ∷ [])
api_server_leaves_directory_example =
    api_server_leaves_directory host-Laws offline interrupted offline-Bystanders flags [] started
      2379 (temp ∷ []) temp started_at_ports refl refl

abbrev dialled : Dial Memory
dialled = record { connect = λ port s. (true, s); close = λ s. (tt, s) }

dialled-DialLaws : DialLaws memory-Laws dialled
dialled-DialLaws = record {
  connect_rows = λ port s. refl;
  connect_up = λ port s h. h;
  close_rows = λ s. refl;
}

abbrev one_node : Memory
one_node = record { table = worker_rows; faults = 0 }

main_controller_lem_example :
    ((main_controller dialled memory codec
        (some 2379)
        (Controllers.tick ∷ Controllers.tick ∷ Controllers.done ∷ [])
        one_node).0
      ≡ exited 0)
    × ((main_controller dialled memory codec
          (some 2379)
          (Controllers.tick ∷ Controllers.tick ∷ Controllers.done ∷ [])
          one_node).1.table
        ≡ worker_rows)
unfolding Controllers.start Controllers.run Controllers.reconcile_all ReplicaSets.list decode_rows
    under has_prefix
main_controller_lem_example =
    main_controller_lem memory-Laws codec dialled dialled-DialLaws 2379
      (Controllers.tick ∷ Controllers.tick ∷ Controllers.done ∷ []) one_node refl refl

main_scheduler_lem_example :
    ((main_scheduler dialled memory codec (some (2379, pos 0)) (Schedulers.tick ∷ []) one_node).0
      ≡ exited 2)
    × ((main_scheduler dialled memory codec
          (some (2379, pos 0))
          (Schedulers.tick ∷ [])
          one_node).1.table
        ≡ worker_rows)
main_scheduler_lem_example =
    main_scheduler_lem memory-Laws codec dialled dialled-DialLaws 2379 (pos 0)
      (Schedulers.tick ∷ []) one_node refl refl
