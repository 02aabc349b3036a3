-- ===== src/Registry/Locked.antt =====
-- The methods of the pod and the ReplicaSet registry with their mutex: the calls of the storage that
-- each makes between locking and unlocking, and whether it takes `Lock` or `RLock`. Each call of the
-- storage is one step; other processes are left out.
use gokube_workshop_day.Prelude.{ℕ, ◌≡◌, refl, Bool, true, false, List, [], ◌∷◌, Text, arith}
use gokube_workshop_day.Go.{
  Result, ok, err, Go, pure, ◌>>=◌, err_replica_set_exists, err_replica_set_not_found,
}
use gokube_workshop_day.Go.Calls.{Calls, returns, call, alone, ReadOnly}
use gokube_workshop_day.Go.Mutex.{Methods, System, Reach}
use gokube_workshop_day.Go.Linearizable.{Linearized, Reach-Linearized}
use gokube_workshop_day.Api.Types.{Pod, ReplicaSet, replica_set_kind}
use gokube_workshop_day.Api.Validation.{Validator}
use gokube_workshop_day.Storage.Interface.{Codec, Storage}
use gokube_workshop_day.Storage.Rows.{Rows, map_storage}
use gokube_workshop_day.Registry.Pod as Pods
use gokube_workshop_day.Registry.ReplicaSet as ReplicaSets

pub data ReplicaSetRequest : Type 0 where
  create : ReplicaSet → ReplicaSetRequest
  get : Text → ReplicaSetRequest
  update : ReplicaSet → ReplicaSetRequest
  delete : Text → ReplicaSetRequest
  list : ReplicaSetRequest

pub data ReplicaSetAnswer : Type 0 where
  done : Result (Unit {0}) → ReplicaSetAnswer
  got : Result ReplicaSet → ReplicaSetAnswer
  listed : Result (List ReplicaSet) → ReplicaSetAnswer

pub data PodRequest : Type 0 where
  get_pod : Text → PodRequest
  update_pod : Pod → PodRequest
  delete_pod : Text → PodRequest
  list_pods : PodRequest

pub data PodAnswer : Type 0 where
  pod_done : Result (Unit {0}) → PodAnswer
  pod_got : Result Pod → PodAnswer
  pods_listed : Result (List Pod) → PodAnswer

module _ {S : Type 0} (st : Storage S) where
  -- What follows the `Get` of `Create` and of `Update`.
  abbrev after_get :
      Result ReplicaSet
      → (ReplicaSet → Calls S ReplicaSetAnswer)
      → Calls S ReplicaSetAnswer
      → Calls S ReplicaSetAnswer
  after_get (ok r) found missing = found r
  after_get (err e) found missing = missing

  -- `Create` and `Update` of the ReplicaSet registry make two calls, the other methods one.
  abbrev pub replica_set_calls : ReplicaSetRequest → Calls S ReplicaSetAnswer
  replica_set_calls (create rs) =
      call (st.get replica_set_kind (ReplicaSets.generate_key rs.name)) (λ existing_rs.
        after_get existing_rs (λ _. returns (done (err (err_replica_set_exists ∷ []))))
          (call (st.create replica_set_kind (ReplicaSets.generate_key rs.name) rs)
            (λ r. returns (done r))))
  replica_set_calls (get name) = call (ReplicaSets.get st name) (λ r. returns (got r))
  replica_set_calls (update rs) =
      call (st.get replica_set_kind (ReplicaSets.generate_key rs.name)) (λ existing_rs.
        after_get existing_rs
          (λ _.
            call (st.update replica_set_kind (ReplicaSets.generate_key rs.name) rs)
              (λ r. returns (done r)))
          (returns (done (err (err_replica_set_not_found ∷ [])))))
  replica_set_calls (delete name) = call (ReplicaSets.delete st name) (λ r. returns (done r))
  replica_set_calls list = call (ReplicaSets.list st) (λ r. returns (listed r))

  -- `r.mutex.Lock()` or `r.mutex.RLock()`
  abbrev pub replica_set_writes : ReplicaSetRequest → Bool
  replica_set_writes (create rs) = true
  replica_set_writes (get name) = false
  replica_set_writes (update rs) = true
  replica_set_writes (delete name) = true
  replica_set_writes list = false

  abbrev pub replica_set_methods : Methods S
  replica_set_methods = record {
    Request = ReplicaSetRequest;
    Answer = ReplicaSetAnswer;
    calls = replica_set_calls;
    writes = replica_set_writes;
  }

  -- The method itself, as it is called from outside.
  abbrev pub replica_set_method : ReplicaSetRequest → Go S ReplicaSetAnswer
  replica_set_method (create rs) = do r ← ReplicaSets.create st rs; pure (done r)
  replica_set_method (get name) = do r ← ReplicaSets.get st name; pure (got r)
  replica_set_method (update rs) = do r ← ReplicaSets.update st rs; pure (done r)
  replica_set_method (delete name) = do r ← ReplicaSets.delete st name; pure (done r)
  replica_set_method list = do r ← ReplicaSets.list st; pure (listed r)

  pub alone-replica_set_calls :
      (r : ReplicaSetRequest) (s : S) → alone (replica_set_calls r) s ≡ replica_set_method r s
  unfolding alone ReplicaSets.create ReplicaSets.update
  alone-replica_set_calls (create rs) s = ground arith
  alone-replica_set_calls (get name) s = refl
  alone-replica_set_calls (update rs) s = ground arith
  alone-replica_set_calls (delete name) s = refl
  alone-replica_set_calls list s = refl

  -- The methods of the pod registry that lock make one call at most.
  abbrev pub pod_calls : Validator → PodRequest → Calls S PodAnswer
  pod_calls v (get_pod name) = call (Pods.get_pod st name) (λ r. returns (pod_got r))
  pod_calls v (update_pod pod) = call (Pods.update_pod st v pod) (λ r. returns (pod_done r))
  pod_calls v (delete_pod name) = call (Pods.delete_pod st name) (λ r. returns (pod_done r))
  pod_calls v list_pods = call (Pods.list_pods st) (λ r. returns (pods_listed r))

  abbrev pub pod_writes : PodRequest → Bool
  pod_writes (get_pod name) = false
  pod_writes (update_pod pod) = true
  pod_writes (delete_pod name) = true
  pod_writes list_pods = false

  abbrev pub pod_methods : Validator → Methods S
  pod_methods v = record {
    Request = PodRequest;
    Answer = PodAnswer;
    calls = pod_calls v;
    writes = pod_writes;
  }

module _ (c : Codec) (rows : Rows) where
  replica_set_reads :
      (r : ReplicaSetRequest)
      → replica_set_writes (map_storage c) r ≡ false
      → ReadOnly (replica_set_calls (map_storage c) r)
  unfolding ReplicaSets.get ReplicaSets.list
  replica_set_reads (create rs) h = absurd (ground arith)
  replica_set_reads (get name) h = (λ s. ground arith, λ s. tt)
  replica_set_reads (update rs) h = absurd (ground arith)
  replica_set_reads (delete name) h = absurd (ground arith)
  replica_set_reads list h = (λ s. ground arith, λ s. tt)

  pod_reads :
      (v : Validator) (r : PodRequest)
      → pod_writes (map_storage c) r ≡ false
      → ReadOnly (pod_calls (map_storage c) v r)
  unfolding Pods.get_pod Pods.list_pods
  pod_reads v (get_pod name) h = (λ s. ground arith, λ s. tt)
  pod_reads v (update_pod pod) h = absurd (ground arith)
  pod_reads v (delete_pod name) h = absurd (ground arith)
  pod_reads v list_pods h = (λ s. ground arith, λ s. tt)

  -- Whatever the interleaving of goroutines that each call a method of the ReplicaSet registry, the
  -- methods that have returned gave the answers that they give alone, one after another in some
  -- order, and the rows are as after these while no goroutine is inside a method that writes.
  pub replica_set_methods-Linearized :
      (requests : ℕ → ReplicaSetRequest) (t : System (replica_set_methods (map_storage c)))
      → Reach (replica_set_methods (map_storage c)) rows requests t
      → Linearized (replica_set_methods (map_storage c)) rows t
        × ((r : ReplicaSetRequest) (s : Rows)
            → alone (replica_set_calls (map_storage c) r) s
              ≡ replica_set_method (map_storage c) r s)
  replica_set_methods-Linearized requests t r = (
    Reach-Linearized (replica_set_methods (map_storage c)) replica_set_reads r,
    alone-replica_set_calls (map_storage c),
  )

  pub pod_methods-Linearized :
      (v : Validator) (requests : ℕ → PodRequest) (t : System (pod_methods (map_storage c) v))
      → Reach (pod_methods (map_storage c) v) rows requests t
      → Linearized (pod_methods (map_storage c) v) rows t
  pod_methods-Linearized v requests t r =
      Reach-Linearized (pod_methods (map_storage c) v) (pod_reads v) r
