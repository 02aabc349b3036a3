-- ===== src/Runtime/RoundTrip.antt =====
-- The codec of pkg/runtime/object.go takes objects there and back.
use gokube_workshop_day.Prelude.{◌≡◌, true, some, Option-cases, inl, inr, arith}
use gokube_workshop_day.Api.Types.{ObjectMeta, Kind, Obj, node_kind, pod_kind, replica_set_kind}
use gokube_workshop_day.Registry.Rules.{RoundTrips}
use gokube_workshop_day.Runtime.Json.{Json, object, JsonText, JsonTextLaws, is_plain}
use gokube_workshop_day.Runtime.Encode.{
  encode_meta, meta_fields, encode_object, node_json, pod_json, template_json, replica_set_json,
}
use gokube_workshop_day.Runtime.Decode.{read_meta, zero_object, is_int32, decode_object}
use gokube_workshop_day.Runtime.Codec.{encode, decode, json_codec}
use gokube_workshop_day.Runtime.Fields.{meta_read, node_read, pod_read}
use gokube_workshop_day.Runtime.ReplicaSetFields.{Fits, replica_set_read}

-- What the types of Go ask of an object's fields: numbers of type int32, a selector that is a map.
abbrev pub FitsTypes : (k : Kind) → Obj k → Type 0
FitsTypes node_kind n = Unit
FitsTypes pod_kind p = is_int32 p.spec.replicas ≡ true
FitsTypes replica_set_kind r = Fits r

module _ {text : JsonText} (laws : JsonTextLaws text) where
  meta_round_trip :
      (m : ObjectMeta) (j : Json)
      → encode_meta text m ≡ some j
      → read_meta text j (zero_object node_kind).object_meta ≡ some m
  unfolding encode_meta
  meta_round_trip m j h = elim (Option-cases (text.format_time m.creation_timestamp)) [
    | inl e ↦ absurd (ground (arith, e, h))
    | inr (time, e) ↦
        let made : object (meta_fields m time) ≡ j = ground (arith, e, h) in
        rw (← made) (
          meta_read laws m.name m.namespace m.uid m.resource_version time m.creation_timestamp
            ((laws.parse_format m.creation_timestamp time e).0))
  ]

  object_round_trip :
      (k : Kind) (obj : Obj k) (j : Json)
      → FitsTypes k obj
      → encode_object text k obj ≡ some j
      → decode_object text k j ≡ some obj
  unfolding encode_object
  object_round_trip node_kind n j fits h = elim (Option-cases (encode_meta text n.object_meta)) [
    | inl e ↦ absurd (ground (arith, e, h))
    | inr (meta, e) ↦
        let made : node_json text n meta ≡ j = ground (arith, e, h) in
        rw (← made)
          (node_read laws n.object_meta n.spec n.status meta (meta_round_trip n.object_meta meta e))
  ]
  object_round_trip pod_kind p j fits h = elim (Option-cases (encode_meta text p.object_meta)) [
    | inl e ↦ absurd (ground (arith, e, h))
    | inr (meta, e) ↦
        let made : pod_json text p meta ≡ j = ground (arith, e, h) in
        rw (← made) (
          pod_read laws p.object_meta p.spec p.node_name p.status meta fits
            (meta_round_trip p.object_meta meta e))
  ]
  object_round_trip replica_set_kind r j fits h =
      elim (Option-cases (encode_meta text r.object_meta)) [
        | inl e ↦ absurd (ground (arith, e, h))
        | inr (meta, e) ↦ elim (Option-cases (encode_meta text r.spec.template.object_meta)) [
          | inl e' ↦ absurd (ground (arith, e, e', h))
          | inr (template_meta, e') ↦
              let made : replica_set_json text r meta
                    (template_json text r.spec.template template_meta)
                  ≡ j =
                ground (arith, e, e', h) in
              rw (← made) (
                replica_set_read laws r meta template_meta fits
                  (meta_round_trip r.object_meta meta e)
                  (meta_round_trip r.spec.template.object_meta template_meta e'))
        ]
      ]

  -- An object whose fields fit their types and whose strings are valid UTF-8 is encoded to a text that
  -- decodes to it, if its timestamps can be written.
  pub json_codec-RoundTrips :
      (k : Kind) (obj : Obj k) (j : Json)
      → FitsTypes k obj
      → encode_object text k obj ≡ some j
      → is_plain laws.valid_utf8 j ≡ true
      → RoundTrips (json_codec text) k obj
  unfolding encode decode
  json_codec-RoundTrips k obj j fits h plain = record {
    encoded = text.print j;
    encodes = ground (arith, h);
    decodes = ground (arith, laws.parse_print j plain, object_round_trip k obj j fits h);
  }
