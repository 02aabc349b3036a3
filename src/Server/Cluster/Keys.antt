-- ===== src/Server/Cluster/Keys.antt =====
-- The keys of the objects of a cluster, and which of them an operation touches.
use gokube_workshop_day.Prelude.{
  ◌≡◌, ◌≢◌, ◌↔◌, refl, same_refl, sym, ◌∙◌, Bool, false, some, Text, same, same_iff, inl, inr,
  Bool-cases,
}
use gokube_workshop_day.Api.Types.{Kind, Obj, node_kind, pod_kind, replica_set_kind}
use gokube_workshop_day.Registry.Path.{IsPlain}
use gokube_workshop_day.Registry.Collisions.{node_key, keys_apart}
use gokube_workshop_day.Registry.Pod as Pods
use gokube_workshop_day.Registry.ReplicaSet as ReplicaSets
use gokube_workshop_day.Server.Cluster.{Cluster, name_of, put, drop}

abbrev pub key_of : Kind → Text → Text
key_of node_kind name = node_key name
key_of pod_kind name = Pods.generate_key name
key_of replica_set_kind name = ReplicaSets.generate_key name

same_of_ne : (a b : Text) → a ≢ b → same a b ≡ false
same_of_ne a b h = elim (Bool-cases (same a b)) [
  | inl e ↦ absurd (h ((same_iff a b).0 e))
  | inr e ↦ e
]

same_of_iff : (a b s t : Text) → (a ≡ b) ↔ (s ≡ t) → same a b ≡ same s t
same_of_iff a b s t h = elim (Bool-cases (same s t)) [
  | inl e ↦ (same_iff a b).1 (h.1 ((same_iff s t).0 e)) ∙ sym e
  | inr e ↦ same_of_ne a b (λ q. cc ((same_iff s t).1 (h.0 q), e)) ∙ sym e
]

-- The keys of two plain names are the same where the kinds and the names are.
abbrev pub same_at : Kind → Kind → Bool → Bool
same_at node_kind node_kind b = b
same_at pod_kind pod_kind b = b
same_at replica_set_kind replica_set_kind b = b
same_at _ _ b = false

pub key_same :
    (k j : Kind) (m n : Text)
    → IsPlain m
    → IsPlain n
    → same (key_of k m) (key_of j n) ≡ same_at k j (same m n)
key_same node_kind node_kind m n hm hn = same_of_iff _ _ m n (keys_apart m n m n hm hn).nodes
key_same node_kind pod_kind m n hm hn = same_of_ne _ _ (keys_apart m n n m hm hn).node_pod
key_same node_kind replica_set_kind m n hm hn =
    same_of_ne _ _ (keys_apart m n n m hm hn).node_replica_set
key_same pod_kind node_kind m n hm hn =
    same_of_ne _ _ (λ e. (keys_apart n m m n hn hm).node_pod (sym e))
key_same pod_kind pod_kind m n hm hn = same_of_iff _ _ m n (keys_apart m n m n hm hn).pods
key_same pod_kind replica_set_kind m n hm hn =
    same_of_ne _ _ (keys_apart m n m n hm hn).pod_replica_set
key_same replica_set_kind node_kind m n hm hn =
    same_of_ne _ _ (λ e. (keys_apart n m m n hn hm).node_replica_set (sym e))
key_same replica_set_kind pod_kind m n hm hn =
    same_of_ne _ _ (λ e. (keys_apart m n n m hm hn).pod_replica_set (sym e))
key_same replica_set_kind replica_set_kind m n hm hn =
    same_of_iff _ _ m n (keys_apart m n m n hm hn).replica_sets

module _ (cl : Cluster) where
  pub put_self : (k : Kind) (obj : Obj k) → put k obj cl k (name_of k obj) ≡ some obj
  put_self node_kind obj = rw same_refl
  put_self pod_kind obj = rw same_refl
  put_self replica_set_kind obj = rw same_refl

  -- What another key than that of an object names is not touched by putting the object.
  pub put_elsewhere :
      (k : Kind) (obj : Obj k) (j : Kind) (name : Text)
      → IsPlain (name_of k obj)
      → IsPlain name
      → same (key_of k (name_of k obj)) (key_of j name) ≡ false
      → put k obj cl j name ≡ cl j name
  put_elsewhere node_kind obj node_kind name h h' e =
      rw (sym (key_same node_kind node_kind _ name h h') ∙ e)
  put_elsewhere node_kind obj pod_kind name h h' e = refl
  put_elsewhere node_kind obj replica_set_kind name h h' e = refl
  put_elsewhere pod_kind obj node_kind name h h' e = refl
  put_elsewhere pod_kind obj pod_kind name h h' e =
      rw (sym (key_same pod_kind pod_kind _ name h h') ∙ e)
  put_elsewhere pod_kind obj replica_set_kind name h h' e = refl
  put_elsewhere replica_set_kind obj node_kind name h h' e = refl
  put_elsewhere replica_set_kind obj pod_kind name h h' e = refl
  put_elsewhere replica_set_kind obj replica_set_kind name h h' e =
      rw (sym (key_same replica_set_kind replica_set_kind _ name h h') ∙ e)

  pub drop_elsewhere :
      (k : Kind) (gone : Text) (j : Kind) (name : Text)
      → IsPlain gone
      → IsPlain name
      → same (key_of k gone) (key_of j name) ≡ false
      → drop k gone cl j name ≡ cl j name
  drop_elsewhere node_kind gone node_kind name h h' e =
      rw (sym (key_same node_kind node_kind gone name h h') ∙ e)
  drop_elsewhere node_kind gone pod_kind name h h' e = refl
  drop_elsewhere node_kind gone replica_set_kind name h h' e = refl
  drop_elsewhere pod_kind gone node_kind name h h' e = refl
  drop_elsewhere pod_kind gone pod_kind name h h' e =
      rw (sym (key_same pod_kind pod_kind gone name h h') ∙ e)
  drop_elsewhere pod_kind gone replica_set_kind name h h' e = refl
  drop_elsewhere replica_set_kind gone node_kind name h h' e = refl
  drop_elsewhere replica_set_kind gone pod_kind name h h' e = refl
  drop_elsewhere replica_set_kind gone replica_set_kind name h h' e =
      rw (sym (key_same replica_set_kind replica_set_kind gone name h h') ∙ e)
