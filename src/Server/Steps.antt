-- ===== src/Server/Steps.antt =====
-- What every sequence of requests keeps of the rows, over the ordered map, over etcd while it is up,
-- and over an etcd of which any call may fail.
use gokube_workshop_day.Prelude.{◌≡◌, true, List}
use gokube_workshop_day.Api.Validation.{Validator, ValidatorLaws}
use gokube_workshop_day.Storage.Interface.{Codec}
use gokube_workshop_day.Storage.Etcd.{EtcdClient, EtcdLaws, etcd_storage}
use gokube_workshop_day.Storage.Faults.{EtcdFaults}
use gokube_workshop_day.Registry.Steps.{WellFormed}
use gokube_workshop_day.Registry.Keeps.{map_storage-Keeps, etcd_storage-Keeps}
use gokube_workshop_day.Handlers.Http.{Request}
use gokube_workshop_day.Server.{Route, serve_all}
use gokube_workshop_day.Server.Keeps.{serve_all-Keeps}
use gokube_workshop_day.Server.Simulation.{serve_all-etcd}

module _ {S : Type 0} {client : EtcdClient S} (c : Codec) {v : Validator}
    (laws : ValidatorLaws v) where
  -- If every row in etcd is, under its own key, an encoded node with a name, pod that fits the tags of
  -- its struct, or ReplicaSet, then so it is after any sequence of requests while etcd is up.
  serve_all-WellFormed :
      (etcd : EtcdLaws client) (requests : List (Route × Request)) (s : S)
      → etcd.up s ≡ true
      → WellFormed c (etcd.rows s)
      → WellFormed c (etcd.rows (serve_all (etcd_storage client c) v requests s).1)
  serve_all-WellFormed etcd requests s h wf =
      let (answers, up, held) = serve_all-etcd etcd c v requests s h in
      rw held ((serve_all-Keeps (map_storage-Keeps c) laws requests).after (etcd.rows s) wf)

  -- If every row in etcd is, under its own key, an encoded node with a name, pod that fits the tags of
  -- its struct, or ReplicaSet, then so it is after any sequence of requests, whichever of the calls of
  -- etcd fail, before or after they have done their work.
  serve_all_faulty-WellFormed :
      (etcd : EtcdFaults client) (requests : List (Route × Request)) (s : S)
      → WellFormed c (etcd.rows s)
      → WellFormed c (etcd.rows (serve_all (etcd_storage client c) v requests s).1)
  serve_all_faulty-WellFormed etcd requests s wf =
      (serve_all-Keeps (etcd_storage-Keeps etcd c) laws requests).after s wf
