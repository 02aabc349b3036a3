-- ===== src/Server/Cluster/ReplicaSets.antt =====
-- The operations on ReplicaSets over the ordered map of encoded objects.
use gokube_workshop_day.Prelude.{
  ◌≡◌, arith, none, some, [], ◌∷◌, Text, same, same_iff, same_refl, inl, inr, Option-cases,
  Bool-cases,
}
use gokube_workshop_day.Go.{Result-cases, ok, err, err_not_found}
use gokube_workshop_day.Api.Types.{ReplicaSet, replica_set_kind}
use gokube_workshop_day.Api.Validation.{Validator}
use gokube_workshop_day.Storage.Interface.{Codec}
use gokube_workshop_day.Storage.Rows.{
  Rows, lookup, insert, remove, decode_row, put_row, map_storage,
}
use gokube_workshop_day.Registry.Path.{IsPlain}
use gokube_workshop_day.Registry.ReplicaSet as ReplicaSets
use gokube_workshop_day.Handlers.Http.{Request, attribute}
use gokube_workshop_day.Handlers.ReplicaSet as ReplicasetHandler
use gokube_workshop_day.Server.{
  serve, post_replicasets, get_replicaset, put_replicaset, delete_replicaset,
}
use gokube_workshop_day.Server.Cluster.{Cluster, put, drop, perform, create, read, replace, destroy}
use gokube_workshop_day.Server.Cluster.Represents.{Represents, Agrees, agrees, BodyRoundTrips}
use gokube_workshop_day.Server.Cluster.Changes.{Represents-put, Represents-drop}

module _ (c : Codec) (v : Validator) {rows : Rows} {cl : Cluster} (r : Represents c rows cl)
    (req : Request) where
  replica_set_missing :
      (name : Text)
      → IsPlain name
      → cl replica_set_kind name ≡ none
      → decode_row c replica_set_kind (lookup (ReplicaSets.generate_key name) rows)
        ≡ err (err_not_found ∷ [])
  replica_set_missing name plain e = rw e at (r.held replica_set_kind name plain)

  replica_set_found :
      (name : Text) (rs : ReplicaSet)
      → IsPlain name
      → cl replica_set_kind name ≡ some rs
      → decode_row c replica_set_kind (lookup (ReplicaSets.generate_key name) rows) ≡ ok rs
  replica_set_found name rs plain e = rw e at (r.held replica_set_kind name plain)

  pub get_replicaset-Agrees :
      IsPlain req.name
      → Agrees c
          (serve (map_storage c) v get_replicaset req rows)
          (perform v (read replica_set_kind) req cl)
  unfolding serve ReplicasetHandler.load_replicaset_into_request ReplicasetHandler.get_replicaset
      ReplicaSets.get attribute perform
  get_replicaset-Agrees plain = elim (Option-cases (cl replica_set_kind req.name)) [
    | inl e ↦
        agrees c _ _ rows cl (ground (arith, replica_set_missing req.name plain e)) (ground arith) r
    | inr (rs, e) ↦
        agrees c _ _ rows cl
          (ground (
            arith,
            replica_set_found req.name rs plain e,
            same_refl ReplicasetHandler.replicaset_attribute_key,
          ))
          (ground arith) r
  ]

  pub delete_replicaset-Agrees :
      IsPlain req.name
      → Agrees c
          (serve (map_storage c) v delete_replicaset req rows)
          (perform v (destroy replica_set_kind) req cl)
  unfolding serve ReplicasetHandler.load_replicaset_into_request ReplicasetHandler.delete_replicaset
      ReplicaSets.get ReplicaSets.delete attribute perform
  delete_replicaset-Agrees plain = elim (Option-cases (cl replica_set_kind req.name)) [
    | inl e ↦
        agrees c _ _ rows cl (ground (arith, replica_set_missing req.name plain e)) (ground arith) r
    | inr (rs, e) ↦
        agrees c _ _ (remove (ReplicaSets.generate_key req.name) rows)
          (drop replica_set_kind req.name cl)
          (ground (
            arith,
            replica_set_found req.name rs plain e,
            r.own replica_set_kind req.name rs plain e,
            same_refl ReplicasetHandler.replicaset_attribute_key,
          ))
          (ground arith) (Represents-drop c r replica_set_kind req.name plain)
  ]

  pub post_replicasets-Agrees :
      BodyRoundTrips c req replica_set_kind
      → Agrees c
          (serve (map_storage c) v post_replicasets req rows)
          (perform v (create replica_set_kind) req cl)
  unfolding serve ReplicasetHandler.create_replicaset ReplicaSets.create put_row perform
  post_replicasets-Agrees body = elim (Result-cases (req.read_entity replica_set_kind)) [
    | inr (e', e) ↦ agrees c _ _ rows cl (ground arith) (ground arith) r
    | inl (rs, e) ↦
        let (plain, t) = body rs e in
        elim (Option-cases (cl replica_set_kind rs.name)) [
          | inr (old, q) ↦
              agrees c _ _ rows cl (ground (arith, replica_set_found rs.name old plain q))
                (ground arith) r
          | inl q ↦
              agrees c _ _ (insert (ReplicaSets.generate_key rs.name) t.encoded rows)
                (put replica_set_kind rs cl)
                (ground (arith, replica_set_missing rs.name plain q, t.encodes)) (ground arith)
                (Represents-put c r replica_set_kind rs plain t)
        ]
  ]

  pub put_replicaset-Agrees :
      IsPlain req.name
      → BodyRoundTrips c req replica_set_kind
      → Agrees c
          (serve (map_storage c) v put_replicaset req rows)
          (perform v (replace replica_set_kind) req cl)
  unfolding serve ReplicasetHandler.load_replicaset_into_request ReplicasetHandler.update_replicaset
      ReplicaSets.get ReplicaSets.update put_row attribute perform
  put_replicaset-Agrees plain body = elim (Option-cases (cl replica_set_kind req.name)) [
    | inl q ↦
        agrees c _ _ rows cl (ground (arith, replica_set_missing req.name plain q)) (ground arith) r
    | inr (old, q) ↦
        let stored = replica_set_found req.name old plain q in
        let named = r.own replica_set_kind req.name old plain q in
        let key = same_refl ReplicasetHandler.replicaset_attribute_key in
        elim (Result-cases (req.read_entity replica_set_kind)) [
          | inr (e', e) ↦ agrees c _ _ rows cl (ground (arith, stored, key)) (ground arith) r
          | inl (rs, e) ↦
              let (plain', t) = body rs e in
              elim (Bool-cases (same req.name rs.name)) [
                | inl fits ↦
                    agrees c _ _ (insert (ReplicaSets.generate_key rs.name) t.encoded rows)
                      (put replica_set_kind rs cl)
                      (ground
                        (arith, stored, named, key, (same_iff req.name rs.name).0 fits, t.encodes))
                      (ground arith) (Represents-put c r replica_set_kind rs plain' t)
                | inr refused ↦
                    agrees c _ _ rows cl (ground (arith, stored, named, key)) (ground arith) r
              ]
        ]
  ]
