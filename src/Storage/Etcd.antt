-- ===== src/Storage/Etcd.antt =====
-- pkg/storage/etcd_storage.go, over an etcd client. The client is third-party code: `EtcdClient` has
-- the calls that the program makes, and `EtcdLaws` what etcd documents of them while the server and
-- the connection are up: the key space is an ordered map, a get answers from it and changes nothing.
-- Two refusals of etcd are left out of the laws: of an empty key, which the program never uses, since
-- every key of a registry begins with "/", and of a request that is larger than the limit of the server.
use gokube_workshop_day.Prelude.{
  ◌≡◌, ◌++◌, Bool, true, Option, none, some, List, [], ◌∷◌, Text, if◌then◌else◌,
}
use gokube_workshop_day.Go.{
  Result, ok, err, Go, pure, ◌>>=◌, err_encoding, err_decoding, err_not_found, err_etcd_client,
}
use gokube_workshop_day.Api.Types.{Kind, Obj}
use gokube_workshop_day.Storage.Interface.{Codec, Storage}
use gokube_workshop_day.Storage.Rows.{Rows, lookup, insert, remove, under, remove_under}

-- A call that returns `false` or `none` returned an error.
pub record EtcdClient (S : Type 0) : Type 0 where
  pub put : Text → Text → Go S Bool
  pub get : Text → Go S (Option Rows)
  pub get_with_prefix : Text → Go S (Option Rows)
  pub delete : Text → Go S Bool
  pub delete_with_prefix : Text → Go S Bool

-- The key-value pairs of a response to a get of one key.
abbrev pub kvs_at : Text → Option Text → Rows
kvs_at key none = []
kvs_at key (some v) = (key, v) ∷ []

pub record EtcdLaws {S : Type 0} (client : EtcdClient S) : Type 0 where
  pub rows : S → Rows
  pub up : S → Bool
  pub put_law :
      (k v : Text) (s : S)
      → up s ≡ true
      → ((client.put k v s).0 ≡ true)
        × (rows (client.put k v s).1 ≡ insert k v (rows s))
        × (up (client.put k v s).1 ≡ true)
  pub get_law :
      (k : Text) (s : S)
      → up s ≡ true
      → ((client.get k s).0 ≡ some (kvs_at k (lookup k (rows s))))
        × (rows (client.get k s).1 ≡ rows s)
        × (up (client.get k s).1 ≡ true)
  pub get_with_prefix_law :
      (p : Text) (s : S)
      → up s ≡ true
      → ((client.get_with_prefix p s).0 ≡ some (under p (rows s)))
        × (rows (client.get_with_prefix p s).1 ≡ rows s)
        × (up (client.get_with_prefix p s).1 ≡ true)
  pub delete_law :
      (k : Text) (s : S)
      → up s ≡ true
      → ((client.delete k s).0 ≡ true)
        × (rows (client.delete k s).1 ≡ remove k (rows s))
        × (up (client.delete k s).1 ≡ true)
  pub delete_with_prefix_law :
      (p : Text) (s : S)
      → up s ≡ true
      → ((client.delete_with_prefix p s).0 ≡ true)
        × (rows (client.delete_with_prefix p s).1 ≡ remove_under p (rows s))
        × (up (client.delete_with_prefix p s).1 ≡ true)

-- `if err != nil { return fmt.Errorf("%w: %v", ErrEtcdClient, err) }; return nil`
abbrev pub acknowledged : Bool → Result (Unit {0})
acknowledged done = if done then ok tt else err (err_etcd_client ∷ [])

module _ (c : Codec) where
  -- The loop of `EtcdStorage.List`; `objs` is the slice so far, which starts empty.
  unfoldable pub append_kvs : (k : Kind) → List (Obj k) → Rows → Result (List (Obj k))
  append_kvs k objs [] = ok objs
  append_kvs k objs ((key, data_) ∷ kvs) =
      let rest = λ (obj : Obj k). append_kvs k (objs ++ obj ∷ []) kvs in
      elim (c.decode k data_) [ none ↦ err (err_decoding ∷ []) | some obj ↦ rest obj ]

module _ {S : Type 0} (client : EtcdClient S) (c : Codec) where
  -- `EtcdStorage.Create`
  unfoldable pub create : (k : Kind) → Text → Obj k → Go S (Result (Unit {0}))
  create k key obj = elim (c.encode k obj) [
    | none ↦ pure (err (err_encoding ∷ []))
    | some data_ ↦ (do done ← client.put key data_; pure (acknowledged done))
  ]

  abbrev pub decoded : (k : Kind) → Text → Result (Obj k)
  decoded k data_ = elim (c.decode k data_) [ none ↦ err (err_decoding ∷ []) | some obj ↦ ok obj ]

  abbrev pub first_kv : (k : Kind) → Option Rows → Result (Obj k)
  first_kv k none = err (err_etcd_client ∷ [])
  first_kv k (some []) = err (err_not_found ∷ [])
  first_kv k (some (kv ∷ kvs)) = decoded k kv.1

  -- `EtcdStorage.Get`
  unfoldable pub get : (k : Kind) → Text → Go S (Result (Obj k))
  get k key = do resp ← client.get key; pure (first_kv k resp)

  -- `EtcdStorage.Update`
  unfoldable pub update : (k : Kind) → Text → Obj k → Go S (Result (Unit {0}))
  update k key obj = elim (c.encode k obj) [
    | none ↦ pure (err (err_encoding ∷ []))
    | some data_ ↦ (do done ← client.put key data_; pure (acknowledged done))
  ]

  -- `EtcdStorage.Delete`
  unfoldable pub delete : Text → Go S (Result (Unit {0}))
  delete key = do done ← client.delete key; pure (acknowledged done)

  abbrev pub listed : (k : Kind) → Option Rows → Result (List (Obj k))
  listed k none = err (err_etcd_client ∷ [])
  listed k (some kvs) = append_kvs c k [] kvs

  -- `EtcdStorage.List`; every caller passes a pointer to a slice
  unfoldable pub list : (k : Kind) → Text → Go S (Result (List (Obj k)))
  list k p = do resp ← client.get_with_prefix p; pure (listed k resp)

  -- `EtcdStorage.DeletePrefix`
  unfoldable pub delete_prefix : Text → Go S (Result (Unit {0}))
  delete_prefix p = do done ← client.delete_with_prefix p; pure (acknowledged done)

  -- `NewEtcdStorage`
  abbrev pub etcd_storage : Storage S
  etcd_storage = record {
    create = create;
    get = get;
    update = update;
    delete = delete;
    delete_prefix = delete_prefix;
    list = list;
  }
