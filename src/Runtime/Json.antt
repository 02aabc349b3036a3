-- ===== src/Runtime/Json.antt =====
-- A JSON value, and what is used of Go's packages encoding/json and time at the level of text.
use gokube_workshop_day.Prelude.{ℕ, ℤ, ◌≡◌, ◌&&◌, Bool, true, false, Option, some, Text}

mutual
  pub data Json : Type 0 where
    null : Json
    boolean : Bool → Json
    number : ℤ → Json
    literal : Text → Json  -- a number that is not the text of an integer
    string : Text → Json
    array : Items → Json
    object : Fields → Json

  pub data Items : Type 0 where
    no_items : Items
    item : Json → Items → Items

  pub data Fields : Type 0 where
    no_fields : Fields
    field : Text → Json → Fields → Fields

-- `folds key name` is the comparison of a key with a field's name that ignores case.
pub record JsonText : Type 0 where
  pub print : Json → Text
  pub parse : Text → Option Json
  pub folds : Text → Text → Bool
  pub format_time : ℕ → Option Text
  pub parse_time : Text → Option ℕ

-- Every string is one that is written as it is, and no number is other than an integer.
unfoldable mutual
  pub is_plain : (Text → Bool) → Json → Bool
  is_plain valid null = true
  is_plain valid (boolean b) = true
  is_plain valid (number n) = true
  is_plain valid (literal s) = false
  is_plain valid (string s) = valid s
  is_plain valid (array items) = plain_items valid items
  is_plain valid (object fields) = plain_fields valid fields

  pub plain_items : (Text → Bool) → Items → Bool
  plain_items valid no_items = true
  plain_items valid (item j items) = is_plain valid j && plain_items valid items

  pub plain_fields : (Text → Bool) → Fields → Bool
  plain_fields valid no_fields = true
  plain_fields valid (field key j fields) =
      valid key && is_plain valid j && plain_fields valid fields

-- What the packages document: a value is read back as it was written, if its strings are valid UTF-8,
-- and so is an instant, if it can be written.
pub record JsonTextLaws (text : JsonText) : Type 0 where
  pub valid_utf8 : Text → Bool
  pub parse_print : (j : Json) → is_plain valid_utf8 j ≡ true → text.parse (text.print j) ≡ some j
  pub parse_format :
      (t : ℕ) (s : Text)
      → text.format_time t ≡ some s
      → (text.parse_time s ≡ some t) × (valid_utf8 s ≡ true)
