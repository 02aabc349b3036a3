-- ===== src/Runtime/Codec.antt =====
-- The codec of pkg/runtime/object.go over the text of encoding/json.
use gokube_workshop_day.Prelude.{Option, none, some, Text}
use gokube_workshop_day.Api.Types.{Kind, Obj}
use gokube_workshop_day.Storage.Interface.{Codec}
use gokube_workshop_day.Runtime.Json.{JsonText}
use gokube_workshop_day.Runtime.Encode.{encode_object}
use gokube_workshop_day.Runtime.Decode.{decode_object}

module _ (text : JsonText) where
  -- `Encode`
  unfoldable pub encode : (k : Kind) → Obj k → Option Text
  unfolding encode_object
  encode k obj = elim (encode_object text k obj) [ none ↦ none | some j ↦ some (text.print j) ]

  -- `Decode` into a new object
  unfoldable pub decode : (k : Kind) → Text → Option (Obj k)
  unfolding decode_object
  decode k data_ = elim (text.parse data_) [ none ↦ none | some j ↦ decode_object text k j ]

  abbrev pub json_codec : Codec
  json_codec = record { encode = encode; decode = decode }
