-- ===== src/Names/Bounds.antt =====
-- Generated names: their length, their beginning and their end.
use gokube_workshop_day.Prelude.{
  ℕ, ◌+◌, ◌≤◌, ◌≡◌, ◌∙◌, sym, ap, true, arith, some, ◌++◌, Text, length, take, take_all,
  length-take, length-append, all, Option-cases, inl, inr,
}
use gokube_workshop_day.Names.{
  alphanums, max_name_length, random_length, max_generated_name_length, string, generate_name, cut,
}
use gokube_workshop_day.Names.Suffix.{is_letter_of, string_shape}

-- A generated name is the first 58 bytes of the base and five letters.
pub record IsGeneratedFrom (base name : Text) : Type 0 where
  pub suffix : Text
  pub split : name ≡ take max_generated_name_length base ++ suffix
  pub random : length suffix ≡ random_length
  pub letters_only : all (is_letter_of alphanums) suffix ≡ true
  pub fits : length name ≤ max_name_length

pub cut-take : (n : ℕ) (base : Text) → cut n base ≡ take n base
unfolding cut
cut-take n base = ground (arith, take_all n base)

-- For any limits, so that no numeral unrolls.
length-split :
    (most n : ℕ) (base suffix : Text)
    → length suffix ≡ n
    → length (take most base ++ suffix) ≤ most + n
length-split most n base suffix e =
    omega (arith, length-append (take most base) suffix, length-take most base)

module _ (rng : ℕ → ℕ) (fuel : ℕ) (base : Text) where
  -- A generated name is the first 58 bytes of the base and five letters of the alphabet, and it has
  -- 63 bytes at most.
  pub generate_name-IsGeneratedFrom :
      (name : Text) → generate_name rng fuel base ≡ some name → IsGeneratedFrom base name
  unfolding generate_name
  generate_name-IsGeneratedFrom name e = elim (Option-cases (string rng fuel random_length)) [
    | inl e' ↦ absurd (ground arith)
    | inr (suffix, e') ↦
        let same : cut max_generated_name_length base ++ suffix ≡ name = ground arith in
        let split : name ≡ take max_generated_name_length base ++ suffix =
          sym same ∙ ap (λ b. b ++ suffix) (cut-take max_generated_name_length base) in
        let (size, only) = string_shape rng fuel random_length suffix e' in
        record {
          suffix = suffix;
          split = split;
          random = size;
          letters_only = only;
          fits = rw split (length-split max_generated_name_length random_length base suffix size);
        }
  ]
