-- ===== src/Tests/Fixtures.antt =====
-- Concrete objects, and concrete versions of the third-party code: a codec that writes texts behind
-- their lengths and keeps the fields used here, and an etcd in memory that fails its next calls.
use gokube_workshop_day.Prelude.{
  ℕ, zero, suc, ◌≡◌, refl, ◌==◌, arith, Bool, true, false, ℤ, pos, negsuc, Option, none, some, List,
  [], ◌∷◌, ◌++◌, Text, codes, length, if◌then◌else◌, ◌⊎◌, inl, inr,
}
use gokube_workshop_day.Api.Types.{
  Container, ObjectMeta, Node, Pod, ReplicaSet, Kind, node_kind, pod_kind, replica_set_kind, Obj,
  elements, node_ready, pod_pending,
}
use gokube_workshop_day.Storage.Interface.{Codec, Storage}
use gokube_workshop_day.Storage.Rows.{
  Rows, lookup, insert, remove, under, remove_under, map_storage,
}
use gokube_workshop_day.Storage.Etcd.{EtcdClient, EtcdLaws, kvs_at}
use gokube_workshop_day.Storage.Faults.{EtcdFaults}
use gokube_workshop_day.Registry.Rules.{RoundTrips}

abbrev pub named : Text → ObjectMeta
named name = record {
  name = name;
  namespace = [];
  uid = [];
  resource_version = [];
  creation_timestamp = 0;
}

abbrev pub node_of : Text → Text → Node
node_of name status = record {
  object_meta = named name;
  spec = record { unschedulable = false; provider_id = [] };
  status = status;
}

abbrev pub pod_of : Text → Text → Text → List Container → Pod
pod_of name node_name status containers = record {
  object_meta = named name;
  spec = record { containers = some containers; replicas = pos 1 };
  node_name = node_name;
  status = status;
}

abbrev pub replica_set_of : Text → ℕ → ReplicaSet
replica_set_of name replicas = record {
  object_meta = named name;
  spec = record {
    replicas = pos replicas;
    selector = none;
    template = record {
      object_meta = named [];
      spec = record { containers = none; replicas = pos 0 };
    };
  };
  status = record {
    replicas = pos 0;
    fully_labeled_replicas = pos 0;
    ready_replicas = pos 0;
    available_replicas = pos 0;
  };
}

abbrev write : Text → Text → Text
write s rest = length s ∷ s ++ rest

abbrev write_containers : List Container → Text
write_containers [] = []
write_containers (c ∷ cs) = write c.name (write c.image (write_containers cs))

-- The next `n` numbers, and what is behind them.
abbrev split_at : ℕ → Text → Option (Text × Text)
split_at zero s = some ([], s)
split_at (suc n) [] = none
split_at (suc n) (c ∷ s) = elim (split_at n s) [ none ↦ none | some (a, b) ↦ some (c ∷ a, b) ]

abbrev read : Text → Option (Text × Text)
read [] = none
read (n ∷ s) = split_at n s

infixl 5 ◌>>=◌
abbrev ◌>>=◌ {ℓ κ} : {A : Type ℓ} {B : Type κ} → Option A → (A → Option B) → Option B
none >>= f = none
some a >>= f = f a

abbrev read_containers : ℕ → Text → Option (List Container)
read_containers zero s = some []
read_containers (suc n) s = read s >>= λ (name, s1). read s1 >>= λ (image, s2).
    read_containers n s2 >>= λ cs. some (record { name = name; image = image } ∷ cs)

abbrev replicas_of : ℤ → ℕ
replicas_of (pos n) = n
replicas_of (negsuc n) = 0

abbrev encode : (k : Kind) → Obj k → Option Text
encode node_kind n = some (0 ∷ write n.name (write n.status []))
encode pod_kind p = some (
    1
    ∷ write p.name (
        write p.node_name (
          write p.status
            (length (elements p.spec.containers) ∷ write_containers (elements p.spec.containers)))))
encode replica_set_kind r = some (2 ∷ replicas_of r.spec.replicas ∷ write r.name [])

abbrev counted : Text → Option (List Container)
counted [] = none
counted (n ∷ s) = read_containers n s

abbrev decode_replica_set : Text → Option ReplicaSet
decode_replica_set [] = none
decode_replica_set (n ∷ s) = read s >>= λ (name, rest). some (replica_set_of name n)

abbrev decode_as : (k : Kind) → ℕ → Text → Option (Obj k)
decode_as node_kind tag s =
    if tag == 0
    then (read s >>= λ (name, s1). read s1 >>= λ (status, s2). some (node_of name status))
    else none
decode_as pod_kind tag s =
    if tag == 1
    then (read s >>= λ (name, s1). read s1 >>= λ (node_name, s2).
        read s2 >>= λ (status, s3). counted s3 >>= λ cs. some (pod_of name node_name status cs))
    else none
decode_as replica_set_kind tag s = if tag == 2 then decode_replica_set s else none

abbrev decode : (k : Kind) → Text → Option (Obj k)
decode k [] = none
decode k (tag ∷ s) = decode_as k tag s

abbrev pub codec : Codec
codec = record { encode = encode; decode = decode }

abbrev pub worker : Node
worker = node_of (codes "worker") node_ready

abbrev pub nginx : Container
nginx = record { name = codes "nginx"; image = codes "nginx:latest" }

abbrev pub web_pod : Pod
web_pod = pod_of (codes "web-1") [] pod_pending (nginx ∷ [])

abbrev pub web : ReplicaSet
web = replica_set_of (codes "web") 2

pub worker-RoundTrips : RoundTrips codec node_kind worker
worker-RoundTrips = record { encoded = _; encodes = refl; decodes = refl }

pub web_pod-RoundTrips : RoundTrips codec pod_kind web_pod
web_pod-RoundTrips = record { encoded = _; encodes = refl; decodes = refl }

pub web-RoundTrips : RoundTrips codec replica_set_kind web
web-RoundTrips = record { encoded = _; encodes = refl; decodes = refl }

-- An etcd in memory, whose next `faults` calls fail.
pub record Memory : Type 0 where
  pub table : Rows
  pub faults : ℕ

abbrev guarded {ℓ} : {A : Type ℓ} → A → A → Rows → ℕ → Memory → A × Memory
guarded lost result table zero m = (result, record { table = table; faults = 0 })
guarded lost result table (suc n) m = (lost, record m { faults = n })

abbrev pub memory : EtcdClient Memory
memory = record {
  put = λ k v m. guarded false true (insert k v m.table) m.faults m;
  get = λ k m. guarded none (some (kvs_at k (lookup k m.table))) m.table m.faults m;
  get_with_prefix = λ p m. guarded none (some (under p m.table)) m.table m.faults m;
  delete = λ k m. guarded false true (remove k m.table) m.faults m;
  delete_with_prefix = λ p m. guarded false true (remove_under p m.table) m.faults m;
}

abbrev pub online : Memory → Bool
online m = m.faults == 0

ℕ-cases : (n : ℕ) → (n ≡ 0) ⊎ ((m : ℕ) × (n ≡ suc m))
ℕ-cases zero = inl refl
ℕ-cases (suc m) = inr (m, refl)

pub memory_put :
    (k v : Text) (m : Memory)
    → online m ≡ true
    → ((memory.put k v m).0 ≡ true)
      × ((memory.put k v m).1.table ≡ insert k v m.table)
      × (online (memory.put k v m).1 ≡ true)
memory_put k v m h = ground arith

pub memory_get :
    (k : Text) (m : Memory)
    → online m ≡ true
    → ((memory.get k m).0 ≡ some (kvs_at k (lookup k m.table)))
      × ((memory.get k m).1.table ≡ m.table)
      × (online (memory.get k m).1 ≡ true)
memory_get k m h = ground arith

pub memory_get_with_prefix :
    (p : Text) (m : Memory)
    → online m ≡ true
    → ((memory.get_with_prefix p m).0 ≡ some (under p m.table))
      × ((memory.get_with_prefix p m).1.table ≡ m.table)
      × (online (memory.get_with_prefix p m).1 ≡ true)
memory_get_with_prefix p m h = ground arith

pub memory_delete :
    (k : Text) (m : Memory)
    → online m ≡ true
    → ((memory.delete k m).0 ≡ true)
      × ((memory.delete k m).1.table ≡ remove k m.table)
      × (online (memory.delete k m).1 ≡ true)
memory_delete k m h = ground arith

pub memory_delete_with_prefix :
    (p : Text) (m : Memory)
    → online m ≡ true
    → ((memory.delete_with_prefix p m).0 ≡ true)
      × ((memory.delete_with_prefix p m).1.table ≡ remove_under p m.table)
      × (online (memory.delete_with_prefix p m).1 ≡ true)
memory_delete_with_prefix p m h = ground arith

abbrev pub memory-Laws : EtcdLaws memory
memory-Laws = record {
  rows = λ m. m.table;
  up = online;
  put_law = memory_put;
  get_law = memory_get;
  get_with_prefix_law = memory_get_with_prefix;
  delete_law = memory_delete;
  delete_with_prefix_law = memory_delete_with_prefix;
}

pub memory_put_faulty :
    (k v : Text) (m : Memory)
    → ((memory.put k v m).1.table ≡ m.table) ⊎ ((memory.put k v m).1.table ≡ insert k v m.table)
memory_put_faulty k v m = elim (ℕ-cases m.faults) [
  | inl e ↦ inr (ground arith)
  | inr (n, e) ↦ inl (ground arith)
]

pub memory_delete_faulty :
    (k : Text) (m : Memory)
    → ((memory.delete k m).1.table ≡ m.table) ⊎ ((memory.delete k m).1.table ≡ remove k m.table)
memory_delete_faulty k m = elim (ℕ-cases m.faults) [
  | inl e ↦ inr (ground arith)
  | inr (n, e) ↦ inl (ground arith)
]

pub memory_get_faulty : (k : Text) (m : Memory) → (memory.get k m).1.table ≡ m.table
memory_get_faulty k m = ground arith

pub memory_get_with_prefix_faulty :
    (p : Text) (m : Memory) → (memory.get_with_prefix p m).1.table ≡ m.table
memory_get_with_prefix_faulty p m = ground arith

abbrev pub memory-Faults : EtcdFaults memory
memory-Faults = record {
  rows = λ m. m.table;
  put_law = memory_put_faulty;
  get_law = memory_get_faulty;
  get_with_prefix_law = memory_get_with_prefix_faulty;
  delete_law = memory_delete_faulty;
}

abbrev pub empty_memory : Memory
empty_memory = record { table = []; faults = 0 }

-- The store as the interface promises it.
abbrev pub store : Storage Rows
store = map_storage codec

-- A row as it is stored.
abbrev pub row : (k : Kind) → Text → Obj k → Rows
row k key obj = elim (codec.encode k obj) [ none ↦ [] | some b ↦ (key, b) ∷ [] ]

abbrev pub worker_rows : Rows
worker_rows = row node_kind (codes "/registry/nodes/worker") worker

abbrev pub web_rows : Rows
web_rows =
    row pod_kind (codes "/pods/web-1") web_pod
    ++ row replica_set_kind (codes "/replicasets/web") web
