-- ===== src/Go.antt =====
-- Go's errors and effects. An error is the chain of sentinel errors that `errors.Is` finds in it,
-- outermost first: `fmt.Errorf("%w: …", ErrX, …)` is `ErrX`'s sentinel, an error formatted with no
-- `%w` is the empty chain. The text of a message is not modelled.
pub mod Simulation
pub mod Keeps
pub mod CallsKeep
pub mod Calls
pub mod Interleaving
pub mod Mutex
pub mod Linear
pub mod Linearizable
use gokube_workshop_day.Prelude.{ℕ, ◌≡◌, refl, ◌⊎◌, inl, inr, Bool, List, ◌==◌, any}

-- The `Err…` variables of pkg/api, pkg/storage and pkg/registry.
pub data Sentinel : Type 0 where
  err_invalid_pod_spec err_invalid_node_spec : Sentinel
  err_encoding err_decoding err_not_found err_etcd_client : Sentinel
  err_internal : Sentinel
  err_node_not_found err_node_already_exists err_list_nodes_failed err_node_invalid : Sentinel
  err_pod_already_exists err_pod_not_found err_list_pods_failed err_pod_invalid : Sentinel
  err_replica_set_exists err_replica_set_not_found err_list_replica_sets : Sentinel

abbrev pub sentinel_id : Sentinel → ℕ
sentinel_id err_invalid_pod_spec = 0
sentinel_id err_invalid_node_spec = 1
sentinel_id err_encoding = 2
sentinel_id err_decoding = 3
sentinel_id err_not_found = 4
sentinel_id err_etcd_client = 5
sentinel_id err_internal = 6
sentinel_id err_node_not_found = 7
sentinel_id err_node_already_exists = 8
sentinel_id err_list_nodes_failed = 9
sentinel_id err_node_invalid = 10
sentinel_id err_pod_already_exists = 11
sentinel_id err_pod_not_found = 12
sentinel_id err_list_pods_failed = 13
sentinel_id err_pod_invalid = 14
sentinel_id err_replica_set_exists = 15
sentinel_id err_replica_set_not_found = 16
sentinel_id err_list_replica_sets = 17

abbrev pub Error : Type 0
Error = List Sentinel

-- `errors.Is(err, target)`
abbrev pub errors_is : Error → Sentinel → Bool
errors_is chain target = any (λ s. sentinel_id s == sentinel_id target) chain

-- The pair `(value, error)` that a Go function returns.
pub data Result {ℓ} (A : Type ℓ) : Type ℓ where
  ok : A → Result A
  err : Error → Result A

-- A method that reads and writes the world `S`.
abbrev pub Go {ℓ} : Type ℓ → Type ℓ → Type ℓ
Go S A = S → A × S

module _ {ℓ} {S A : Type ℓ} where
  abbrev pub pure : A → Go S A
  pure a s = (a, s)

module _ {ℓ} {S A B : Type ℓ} where
  infixl 5 ◌>>=◌ ◌>>◌
  abbrev pub ◌>>=◌ : Go S A → (A → Go S B) → Go S B
  ◌>>=◌ m f s = f (m s).0 (m s).1

  abbrev pub ◌>>◌ : Go S A → Go S B → Go S B
  m >> n = m >>= λ _. n

module _ {ℓ} {S A B : Type ℓ} where
  -- `if err != nil { … }` after a call that returned a value and an error
  abbrev pub on_result : Result A → (A → Go S B) → (Error → Go S B) → Go S B
  on_result (ok a) f g = f a
  on_result (err e) f g = g e

pub Result-cases {ℓ} :
    {A : Type ℓ} (r : Result A) → ((a : A) × (r ≡ ok a)) ⊎ ((e : Error) × (r ≡ err e))
Result-cases (ok a) = inl (a, refl)
Result-cases (err e) = inr (e, refl)
