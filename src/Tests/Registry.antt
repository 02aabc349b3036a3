-- ===== src/Tests/Registry.antt =====
-- The registries' theorems at the fixtures.
use gokube_workshop_day.Prelude.{◌≡◌, ◌≢◌, ◌↔◌, refl, true, none, [], codes, same}
use gokube_workshop_day.Go.{Error, ok, err}
use gokube_workshop_day.Api.Types.{node_kind}
use gokube_workshop_day.Api.Node as ApiNode
use gokube_workshop_day.Api.Pod as ApiPod
use gokube_workshop_day.Api.Validation.{tag_validator}
use gokube_workshop_day.Storage.Rows.{lookup, decode_row, put_row}
use gokube_workshop_day.Registry.Node as Nodes
use gokube_workshop_day.Registry.Pod as Pods
use gokube_workshop_day.Registry.ReplicaSet as ReplicaSets
use gokube_workshop_day.Registry.Outcomes.{create_node_iff}
use gokube_workshop_day.Tests.Fixtures.{codec, store, web_rows, worker, web_pod, web}

created_worker : (Nodes.create_node store tag_validator worker []).0 ≡ ok tt
unfolding Nodes.create_node ApiNode.validate put_row decode_row lookup
created_worker = refl

updated_worker : (Nodes.update_node store tag_validator worker []).0 ≡ ok tt
unfolding Nodes.update_node ApiNode.validate put_row
updated_worker = refl

updated_pod : (Pods.update_pod store tag_validator web_pod []).0 ≡ ok tt
unfolding Pods.update_pod ApiPod.validate put_row
updated_pod = refl

created_web : (ReplicaSets.create store web []).0 ≡ ok tt
unfolding ReplicaSets.create put_row decode_row lookup
created_web = refl

updated_web : (ReplicaSets.update store web web_rows).0 ≡ ok tt
unfolding ReplicaSets.update ReplicaSets.generate_key put_row decode_row lookup same
updated_web = refl

create_node_iff_example : ((Nodes.create_node store tag_validator worker []).0 ≡ ok tt) ↔ (
    ((e : Error) × ((Nodes.get_node store (codes "worker") []).0 ≡ err e))
    × (tag_validator.struct_node worker ≡ true)
    × (codec.encode node_kind worker ≢ none))
create_node_iff_example = create_node_iff codec tag_validator [] worker
