-- ===== src/Tests/JsonText.antt =====
-- A concrete text for JSON values: tags, and strings behind their lengths. The number in front bounds
-- the depth of the value.
use gokube_workshop_day.Prelude.{
  ℕ, zero, suc, ◌+◌, ◌≤◌, ◌≡◌, refl, arith, ◌==◌, pos, negsuc, Bool, true, false, Option, none,
  some, [], ◌∷◌, ◌++◌, Text, length, same, if◌then◌else◌,
}
use gokube_workshop_day.Runtime.Json.{
  Json, null, boolean, number, literal, string, array, object, Items, no_items, item, Fields,
  no_fields, field, JsonText, JsonTextLaws,
}

abbrev split_at : ℕ → Text → Option (Text × Text)
split_at zero s = some ([], s)
split_at (suc n) [] = none
split_at (suc n) (c ∷ s) = elim (split_at n s) [ none ↦ none | some (a, b) ↦ some (c ∷ a, b) ]

split_at-append : (s rest : Text) → split_at (length s) (s ++ rest) ≡ some (s, rest)
split_at-append [] rest = refl
split_at-append (c ∷ s) rest = rw (split_at-append s rest) refl

abbrev bit : Bool → ℕ
bit true = 1
bit false = 0

unfoldable mutual
  pub write : Json → Text → Text
  write null rest = 0 ∷ rest
  write (boolean b) rest = 1 ∷ bit b ∷ rest
  write (number (pos n)) rest = 2 ∷ n ∷ rest
  write (number (negsuc n)) rest = 3 ∷ n ∷ rest
  write (literal s) rest = 4 ∷ length s ∷ s ++ rest
  write (string s) rest = 5 ∷ length s ∷ s ++ rest
  write (array xs) rest = 6 ∷ write_items xs rest
  write (object fs) rest = 7 ∷ write_fields fs rest

  pub write_items : Items → Text → Text
  write_items no_items rest = 0 ∷ rest
  write_items (item j xs) rest = 1 ∷ write j (write_items xs rest)

  pub write_fields : Fields → Text → Text
  write_fields no_fields rest = 0 ∷ rest
  write_fields (field k j fs) rest = 1 ∷ length k ∷ k ++ write j (write_fields fs rest)

unfoldable mutual
  pub size : Json → ℕ
  size (array xs) = suc (size_items xs)
  size (object fs) = suc (size_fields fs)
  size _ = 1

  pub size_items : Items → ℕ
  size_items no_items = 1
  size_items (item j xs) = suc (size j + size_items xs)

  pub size_fields : Fields → ℕ
  size_fields no_fields = 1
  size_fields (field k j fs) = suc (size j + size_fields fs)

infixl 5 ◌>>=◌
abbrev ◌>>=◌ {ℓ κ} : {A : Type ℓ} {B : Type κ} → Option A → (A → Option B) → Option B
none >>= f = none
some a >>= f = f a

abbrev counted : Text → Option (Text × Text)
counted [] = none
counted (n ∷ s) = split_at n s

abbrev one : (ℕ → Json) → Text → Option (Json × Text)
one f [] = none
one f (n ∷ s) = some (f n, s)

unfoldable mutual
  pub read : ℕ → Text → Option (Json × Text)
  read zero s = none
  read (suc fuel) [] = none
  read (suc fuel) (tag ∷ s) =
      let xs = read_items fuel s in
      let fs = read_fields fuel s in
      if tag == 0
      then some (null, s)
      else if tag == 1
      then one (λ n. boolean (n == 1)) s
      else if tag == 2
      then one (λ n. number (pos n)) s
      else if tag == 3
      then one (λ n. number (negsuc n)) s
      else if tag == 4
      then (counted s >>= λ (t, rest). some (literal t, rest))
      else if tag == 5
      then (counted s >>= λ (t, rest). some (string t, rest))
      else if tag == 6
      then (xs >>= λ (xs, rest). some (array xs, rest))
      else (fs >>= λ (fs, rest). some (object fs, rest))

  pub read_items : ℕ → Text → Option (Items × Text)
  read_items zero s = none
  read_items (suc fuel) [] = none
  read_items (suc fuel) (tag ∷ s) =
      let first = read fuel s in
      let later : Text → Option (Items × Text) = λ t. read_items fuel t in
      if tag == 0
      then some (no_items, s)
      else (first >>= λ (j, t). later t >>= λ (xs, rest). some (item j xs, rest))

  pub read_fields : ℕ → Text → Option (Fields × Text)
  read_fields zero s = none
  read_fields (suc fuel) [] = none
  read_fields (suc fuel) (tag ∷ s) =
      let first : Text → Option (Json × Text) = λ t. read fuel t in
      let later : Text → Option (Fields × Text) = λ t. read_fields fuel t in
      if tag == 0
      then some (no_fields, s)
      else (counted s >>= λ (k, t).
          first t >>= λ (j, u). later u >>= λ (fs, rest). some (field k j fs, rest))

mutual
  unfolding write size read

  read-write :
      (j : Json) (fuel : ℕ) (rest : Text)
      → size j ≤ fuel
      → read fuel (write j rest) ≡ some (j, rest)
  read-write null zero rest h = absurd (omega arith)
  read-write null (suc fuel) rest h = refl
  read-write (boolean true) zero rest h = absurd (omega arith)
  read-write (boolean true) (suc fuel) rest h = refl
  read-write (boolean false) zero rest h = absurd (omega arith)
  read-write (boolean false) (suc fuel) rest h = refl
  read-write (number (pos n)) zero rest h = absurd (omega arith)
  read-write (number (pos n)) (suc fuel) rest h = refl
  read-write (number (negsuc n)) zero rest h = absurd (omega arith)
  read-write (number (negsuc n)) (suc fuel) rest h = refl
  read-write (literal s) zero rest h = absurd (omega arith)
  read-write (literal s) (suc fuel) rest h = rw (split_at-append s rest) refl
  read-write (string s) zero rest h = absurd (omega arith)
  read-write (string s) (suc fuel) rest h = rw (split_at-append s rest) refl
  read-write (array xs) zero rest h = absurd (omega arith)
  read-write (array xs) (suc fuel) rest h =
      rw (read_items-write_items xs fuel rest (omega arith)) refl
  read-write (object fs) zero rest h = absurd (omega arith)
  read-write (object fs) (suc fuel) rest h =
      rw (read_fields-write_fields fs fuel rest (omega arith)) refl

  read_items-write_items :
      (xs : Items) (fuel : ℕ) (rest : Text)
      → size_items xs ≤ fuel
      → read_items fuel (write_items xs rest) ≡ some (xs, rest)
  read_items-write_items no_items zero rest h = absurd (omega arith)
  read_items-write_items no_items (suc fuel) rest h = refl
  read_items-write_items (item j xs) zero rest h = absurd (omega arith)
  read_items-write_items (item j xs) (suc fuel) rest h =
      rw
        (
          read-write j fuel (write_items xs rest) (omega arith),
          read_items-write_items xs fuel rest (omega arith),
        )
        refl

  read_fields-write_fields :
      (fs : Fields) (fuel : ℕ) (rest : Text)
      → size_fields fs ≤ fuel
      → read_fields fuel (write_fields fs rest) ≡ some (fs, rest)
  read_fields-write_fields no_fields zero rest h = absurd (omega arith)
  read_fields-write_fields no_fields (suc fuel) rest h = refl
  read_fields-write_fields (field k j fs) zero rest h = absurd (omega arith)
  read_fields-write_fields (field k j fs) (suc fuel) rest h =
      rw
        (
          split_at-append k (write j (write_fields fs rest)),
          read-write j fuel (write_fields fs rest) (omega arith),
          read_fields-write_fields fs fuel rest (omega arith),
        )
        refl

abbrev pub parse : Text → Option Json
parse [] = none
parse (n ∷ s) = read n s >>= λ (j, rest). some j

abbrev pub json_text : JsonText
json_text = record {
  print = λ j. size j ∷ write j [];
  parse = parse;
  folds = same;
  format_time = λ t. some (t ∷ []);
  parse_time = λ s. elim s [ [] ↦ none | t ∷ rest ↦ some t ];
}

pub parse-print : (j : Json) → json_text.parse (json_text.print j) ≡ some j
parse-print j = rw (read-write j (size j) [] (omega arith)) refl

pub parse-format :
    (t : ℕ) (s : Text)
    → json_text.format_time t ≡ some s
    → (json_text.parse_time s ≡ some t) × (true ≡ true)
parse-format t s h = (ground (arith, h), refl)

abbrev pub json_text-Laws : JsonTextLaws json_text
json_text-Laws = record {
  valid_utf8 = λ s. true;
  parse_print = λ j h. parse-print j;
  parse_format = parse-format;
}
