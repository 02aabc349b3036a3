-- ===== src/Registry/ReplicaSet.antt =====
-- pkg/registry/replicaset_registry.go
use gokube_workshop_day.Prelude.{List, [], ◌∷◌, ◌++◌, Text, codes}
use gokube_workshop_day.Go.{
  Result, ok, err, Go, pure, ◌>>=◌, on_result, err_replica_set_exists, err_replica_set_not_found,
  err_list_replica_sets,
}
use gokube_workshop_day.Api.Types.{ReplicaSet, replica_set_kind}
use gokube_workshop_day.Storage.Interface.{Storage}

abbrev pub replica_set_prefix : Text
replica_set_prefix = codes "/replicasets"

-- `ReplicaSetRegistry.generateKey`
unfoldable pub generate_key : Text → Text
generate_key name = replica_set_prefix ++ b'/' ∷ name

module _ {S : Type 0} (st : Storage S) where
  -- `ReplicaSetRegistry.Create`
  unfoldable pub create : ReplicaSet → Go S (Result (Unit {0}))
  create rs = do
    let key = generate_key rs.name
    existing_rs ← st.get replica_set_kind key
    on_result existing_rs (λ _. pure (err (err_replica_set_exists ∷ [])))
        (λ _. st.create replica_set_kind key rs)

  -- `ReplicaSetRegistry.Get`
  unfoldable pub get : Text → Go S (Result ReplicaSet)
  get name = do
    rs ← st.get replica_set_kind (generate_key name)
    on_result rs (λ r. pure (ok r)) (λ _. pure (err (err_replica_set_not_found ∷ [])))

  -- `ReplicaSetRegistry.Update`
  unfoldable pub update : ReplicaSet → Go S (Result (Unit {0}))
  update rs = do
    let key = generate_key rs.name
    existing_rs ← st.get replica_set_kind key
    on_result existing_rs (λ _. st.update replica_set_kind key rs)
        (λ _. pure (err (err_replica_set_not_found ∷ [])))

  -- `ReplicaSetRegistry.Delete`
  unfoldable pub delete : Text → Go S (Result (Unit {0}))
  delete name = st.delete (generate_key name)

  -- `ReplicaSetRegistry.List`
  unfoldable pub list : Go S (Result (List ReplicaSet))
  list = do
    replica_sets ← st.list replica_set_kind replica_set_prefix
    on_result replica_sets (λ rs. pure (ok rs)) (λ _. pure (err (err_list_replica_sets ∷ [])))
