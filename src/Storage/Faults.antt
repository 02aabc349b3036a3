-- ===== src/Storage/Faults.antt =====
-- An etcd of which any call may fail, before or after it has done its work, as a call does that is
-- timed out (pkg/storage/etcd_storage.go). No other client writes.
use gokube_workshop_day.Prelude.{◌≡◌, ◌⊎◌, Text}
use gokube_workshop_day.Storage.Rows.{Rows, insert, remove}
use gokube_workshop_day.Storage.Etcd.{EtcdClient}

pub record EtcdFaults {S : Type 0} (client : EtcdClient S) : Type 0 where
  pub rows : S → Rows
  pub put_law :
      (k v : Text) (s : S)
      → (rows (client.put k v s).1 ≡ rows s) ⊎ (rows (client.put k v s).1 ≡ insert k v (rows s))
  pub get_law : (k : Text) (s : S) → rows (client.get k s).1 ≡ rows s
  pub get_with_prefix_law : (p : Text) (s : S) → rows (client.get_with_prefix p s).1 ≡ rows s
  pub delete_law :
      (k : Text) (s : S)
      → (rows (client.delete k s).1 ≡ rows s) ⊎ (rows (client.delete k s).1 ≡ remove k (rows s))
