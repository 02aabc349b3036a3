-- ===== src/Registry/Keeps.antt =====
-- What the registries keep of the rows over a storage that, whether its calls fail or not, puts the
-- objects that it is asked to put or none.
use gokube_workshop_day.Prelude.{
  ◌≡◌, refl, [], ◌∷◌, arith, true, some, inl, inr, Text, Option-cases,
}
use gokube_workshop_day.Go.{Go, Result, ◌>>=◌, ok, err, on_result, pure, err_node_invalid}
use gokube_workshop_day.Go.Keeps.{Keeps, Keeps-pure, Keeps-bind, Keeps-on_result, keeps}
use gokube_workshop_day.Api.Types.{Node, Pod, ReplicaSet, Kind, Obj, node_kind}
use gokube_workshop_day.Api.Validation.{Validator, ValidatorLaws, is_set, pod_tags}
use gokube_workshop_day.Api.Node as ApiNode
use gokube_workshop_day.Api.Pod as ApiPod
use gokube_workshop_day.Storage.Interface.{Codec, Storage}
use gokube_workshop_day.Storage.Rows.{map_storage}
use gokube_workshop_day.Storage.Etcd as Etcd
use gokube_workshop_day.Storage.Etcd.{EtcdClient, etcd_storage}
use gokube_workshop_day.Storage.Faults.{EtcdFaults}
use gokube_workshop_day.Registry.Node as Nodes
use gokube_workshop_day.Registry.Pod as Pods
use gokube_workshop_day.Registry.ReplicaSet as ReplicaSets
use gokube_workshop_day.Registry.Steps.{
  Stored, Step, stored_node, stored_pod, stored_replica_set, WellFormed, Step-WellFormed,
  put_row-Step, unchanged, put, removed,
}

-- The operations of `Storage` that the registries call keep `I`, a put if its row may be stored.
pub record StorageKeeps {S : Type 0} (I : S → Type 0) (c : Codec) (st : Storage S) : Type 0 where
  pub create :
      (k : Kind) (key : Text) (obj : Obj k)
      → ((encoded : Text) → c.encode k obj ≡ some encoded → Stored c key encoded)
      → Keeps I (st.create k key obj)
  pub get : (k : Kind) (key : Text) → Keeps I (st.get k key)
  pub update :
      (k : Kind) (key : Text) (obj : Obj k)
      → ((encoded : Text) → c.encode k obj ≡ some encoded → Stored c key encoded)
      → Keeps I (st.update k key obj)
  pub delete : (key : Text) → Keeps I (st.delete key)
  pub list : (k : Kind) (p : Text) → Keeps I (st.list k p)

pub map_storage-Keeps : (c : Codec) → StorageKeeps (WellFormed c) c (map_storage c)
map_storage-Keeps c = record {
  create = λ k key obj stored. record {
    after = λ rows wf. Step-WellFormed c (put_row-Step c k key obj rows stored) wf;
  };
  get = λ k key. record { after = λ rows wf. wf };
  update = λ k key obj stored. record {
    after = λ rows wf. Step-WellFormed c (put_row-Step c k key obj rows stored) wf;
  };
  delete = λ key. record { after = λ rows wf. Step-WellFormed c (removed key refl) wf };
  list = λ k p. record { after = λ rows wf. wf };
}

module _ {S : Type 0} {client : EtcdClient S} (etcd : EtcdFaults client) (c : Codec) where
  put-Step :
      (k : Kind) (key : Text) (obj : Obj k) (s : S)
      → ((encoded : Text) → c.encode k obj ≡ some encoded → Stored c key encoded)
      → Step c (etcd.rows s) (etcd.rows (Etcd.create client c k key obj s).1)
  unfolding Etcd.create
  put-Step k key obj s stored = elim (Option-cases (c.encode k obj)) [
    | inl e ↦ unchanged (ground arith)
    | inr (d, e) ↦ elim (etcd.put_law key d s) [
      | inl lost ↦ unchanged (ground arith)
      | inr kept ↦ put key d (stored d e) (ground arith)
    ]
  ]

  pub etcd_storage-Keeps : StorageKeeps (λ s. WellFormed c (etcd.rows s)) c (etcd_storage client c)
  unfolding Etcd.create Etcd.update Etcd.get Etcd.list Etcd.delete
  etcd_storage-Keeps = record {
    create = λ k key obj stored. record {
      after = λ s wf. Step-WellFormed c (put-Step k key obj s stored) wf;
    };
    get = λ k key. record { after = λ s wf. Step-WellFormed c (unchanged (etcd.get_law key s)) wf };
    update = λ k key obj stored. record {
      after = λ s wf. Step-WellFormed c (put-Step k key obj s stored) wf;
    };
    delete = λ key. record {
      after = λ s wf. elim (etcd.delete_law key s) [
        | inl e ↦ Step-WellFormed c (unchanged e) wf
        | inr e ↦ Step-WellFormed c (removed key e) wf
      ];
    };
    list = λ k p. record {
      after = λ s wf. Step-WellFormed c (unchanged (etcd.get_with_prefix_law p s)) wf;
    };
  }

module _ {S : Type 0} {I : S → Type 0} {c : Codec} {st : Storage S} (k : StorageKeeps I c st) where
  pub get_node-Keeps : (name : Text) → Keeps I (Nodes.get_node st name)
  unfolding Nodes.get_node
  get_node-Keeps name = search (keeps, k.get)

  pub delete_node-Keeps : (name : Text) → Keeps I (Nodes.delete_node st name)
  unfolding Nodes.delete_node
  delete_node-Keeps name = k.delete _

  pub list_nodes-Keeps : Keeps I (Nodes.list_nodes st)
  unfolding Nodes.list_nodes
  list_nodes-Keeps = search (keeps, k.list)

  pub get_pod-Keeps : (name : Text) → Keeps I (Pods.get_pod st name)
  unfolding Pods.get_pod
  get_pod-Keeps name = search (keeps, k.get)

  pub delete_pod-Keeps : (name : Text) → Keeps I (Pods.delete_pod st name)
  unfolding Pods.delete_pod
  delete_pod-Keeps name = k.delete _

  pub list_pods-Keeps : Keeps I (Pods.list_pods st)
  unfolding Pods.list_pods
  list_pods-Keeps = search (keeps, k.list)

  pub list_unassigned_pods-Keeps : Keeps I (Pods.list_unassigned_pods st)
  unfolding Pods.list_unassigned_pods
  list_unassigned_pods-Keeps = search (keeps, k.list)

  pub get-Keeps : (name : Text) → Keeps I (ReplicaSets.get st name)
  unfolding ReplicaSets.get
  get-Keeps name = search (keeps, k.get)

  pub delete-Keeps : (name : Text) → Keeps I (ReplicaSets.delete st name)
  unfolding ReplicaSets.delete
  delete-Keeps name = k.delete _

  pub list-Keeps : Keeps I (ReplicaSets.list st)
  unfolding ReplicaSets.list
  list-Keeps = search (keeps, k.list)

  -- What runs where nothing was found, or where something was.
  Keeps-unless_found :
      {A B : Type 0} {m : Go S (Result A)} {n : Go S (Result B)} (b : Result B)
      → Keeps I m
      → Keeps I n
      → Keeps I (m >>= λ r. on_result r (λ _. pure b) (λ _. n))
  Keeps-unless_found {n} b h h' =
      Keeps-bind (λ r. on_result r (λ _. pure b) (λ _. n)) h
        (λ r. Keeps-on_result r {f = λ _. pure b} (λ a e. Keeps-pure b) (λ e. h'))

  Keeps-if_found :
      {A B : Type 0} {m : Go S (Result A)} {n : Go S (Result B)} (b : Result B)
      → Keeps I m
      → Keeps I n
      → Keeps I (m >>= λ r. on_result r (λ _. n) (λ _. pure b))
  Keeps-if_found {n} b h h' =
      Keeps-bind (λ r. on_result r (λ _. n) (λ _. pure b)) h
        (λ r. Keeps-on_result r {f = λ _. n} (λ a e. h') (λ e. Keeps-pure b))

  pub create-Keeps : (rs : ReplicaSet) → Keeps I (ReplicaSets.create st rs)
  unfolding ReplicaSets.create
  create-Keeps rs =
      Keeps-unless_found _ (k.get _ _) (k.create _ _ rs (λ d e. stored_replica_set rs refl e))

  pub update-Keeps : (rs : ReplicaSet) → Keeps I (ReplicaSets.update st rs)
  unfolding ReplicaSets.update
  update-Keeps rs =
      Keeps-if_found _ (k.get _ _) (k.update _ _ rs (λ d e. stored_replica_set rs refl e))

  module _ {v : Validator} (laws : ValidatorLaws v) where
    pub valid_node : (node : Node) → ApiNode.validate v node ≡ ok tt → is_set node.name ≡ true
    unfolding ApiNode.validate
    valid_node node h = ground (arith, laws.node_law node)

    valid_pod : (pod : Pod) → ApiPod.validate v pod ≡ ok tt → pod_tags pod ≡ true
    unfolding ApiPod.validate
    valid_pod pod h = ground (arith, laws.pod_law pod)

    validated_node-Keeps :
        (node : Node)
        → Keeps I (
            on_result
              (ApiNode.validate v node)
              (λ _. st.create node_kind (Nodes.generate_key Nodes.node_prefix node.name) node)
              (λ _. pure (err (err_node_invalid ∷ []))))
    validated_node-Keeps node =
        Keeps-on_result (ApiNode.validate v node)
          (λ u valid. k.create _ _ node (λ d e. stored_node node (valid_node node valid) refl e))
          (λ _. Keeps-pure _)

    pub create_node-Keeps : (node : Node) → Keeps I (Nodes.create_node st v node)
    unfolding Nodes.create_node
    create_node-Keeps node = Keeps-unless_found _ (k.get _ _) (validated_node-Keeps node)

    pub update_node-Keeps : (node : Node) → Keeps I (Nodes.update_node st v node)
    unfolding Nodes.update_node
    update_node-Keeps node =
        Keeps-on_result (ApiNode.validate v node)
          (λ u valid. k.update _ _ node (λ d e. stored_node node (valid_node node valid) refl e))
          (λ _. Keeps-pure _)

    pub update_pod-Keeps : (pod : Pod) → Keeps I (Pods.update_pod st v pod)
    unfolding Pods.update_pod
    update_pod-Keeps pod =
        Keeps-on_result (ApiPod.validate v pod)
          (λ u valid. k.update _ _ pod (λ d e. stored_pod pod (valid_pod pod valid) refl e))
          (λ _. Keeps-pure _)
