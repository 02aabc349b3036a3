-- ===== src/Tests/Runtime.antt =====
-- The JSON codec at the objects of the fixtures.
use gokube_workshop_day.Prelude.{refl, some, [], ◌∷◌, codes, same, before}
use gokube_workshop_day.Api.Types.{replica_set_kind, ReplicaSet}
use gokube_workshop_day.Storage.Rows.{insert}
use gokube_workshop_day.Registry.Rules.{RoundTrips}
use gokube_workshop_day.Runtime.Json.{is_plain}
use gokube_workshop_day.Runtime.Encode.{encode_object, entries_into, map_fields}
use gokube_workshop_day.Runtime.Codec.{json_codec}
use gokube_workshop_day.Runtime.ReplicaSetFields.{Fits}
use gokube_workshop_day.Runtime.RoundTrip.{json_codec-RoundTrips}
use gokube_workshop_day.Tests.Fixtures.{web}
use gokube_workshop_day.Tests.JsonText.{json_text, json_text-Laws}

abbrev labelled : ReplicaSet
labelled = record web {
  spec = record web.spec { selector = some ((codes "app", codes "web") ∷ (codes "tier", []) ∷ []) };
}

labelled-Fits : Fits labelled
unfolding entries_into insert same before
labelled-Fits = record {
  selector = refl;
  replicas = refl;
  template = refl;
  status_replicas = refl;
  labeled = refl;
  ready = refl;
  available = refl;
}

json_codec-RoundTrips_example : RoundTrips (json_codec json_text) replica_set_kind labelled
unfolding encode_object is_plain entries_into map_fields insert same before
json_codec-RoundTrips_example =
    json_codec-RoundTrips json_text-Laws replica_set_kind labelled _ labelled-Fits refl refl
