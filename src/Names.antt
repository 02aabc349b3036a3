-- ===== src/Names.antt =====
-- pkg/registry/names/generate.go: random name suffixes. The generator's random numbers are the
-- stream `rng`, whose n-th value is the n-th result of `Int63`.
pub mod Draw
pub mod Digits
pub mod Bounds
pub mod Suffix
use gokube_workshop_day.Prelude.{
  ℕ, zero, suc, ◌+◌, ◌-◌, ◌/◌, ◌%◌, ◌^◌, Option, none, some, [], ◌∷◌, ◌++◌, Text, codes, length,
  take, ltb, ◌==◌, if◌then◌else◌,
}

abbrev pub max_name_length : ℕ
max_name_length = 63

abbrev pub random_length : ℕ
random_length = 5

abbrev pub max_generated_name_length : ℕ
max_generated_name_length = max_name_length - random_length

abbrev pub alphanums : Text
alphanums = codes "bcdfghjklmnpqrstvwxz2456789"

abbrev pub alphanums_idx_bits : ℕ
alphanums_idx_bits = 5

abbrev pub alphanums_idx_mask : ℕ
alphanums_idx_mask = 2 ^ alphanums_idx_bits - 1

abbrev pub max_alphanums_per_int : ℕ
max_alphanums_per_int = 63 / alphanums_idx_bits

-- `alphanums[idx]`, where `idx < len(alphanums)`
abbrev pub char_at : ℕ → Text → ℕ
char_at i [] = 0
char_at zero (ch ∷ s) = ch
char_at (suc i) (ch ∷ s) = char_at i s

-- The variables of the loop of `String`: the current random number, how many letters it still
-- holds, and how many numbers have been drawn.
pub record Source : Type 0 where
  pub random_int63 : ℕ
  pub remaining : ℕ
  pub drawn : ℕ

-- `if len(base) > n { base = base[:n] }`
unfoldable pub cut : ℕ → Text → Text
cut n base = if ltb n (length base) then take n base else base

module _ (rng : ℕ → ℕ) where
  -- `if remaining == 0 { randomInt63, remaining = rng.rand.Int63(), maxAlphanumsPerInt }`
  unfoldable pub refill : Source → Source
  refill src =
      if src.remaining == 0
      then record {
        random_int63 = rng src.drawn;
        remaining = max_alphanums_per_int;
        drawn = src.drawn + 1;
      }
      else src

  -- `randomInt63 & alphanumsIdxMask`, a mask of low bits
  abbrev pub index : Source → ℕ
  index src = src.random_int63 % (alphanums_idx_mask + 1)

  -- `randomInt63 >>= alphanumsIdxBits; remaining--`
  abbrev pub shift : Source → Source
  shift src = record src {
    random_int63 = src.random_int63 / 2 ^ alphanums_idx_bits;
    remaining = src.remaining - 1;
  }

  -- The loop of `String`: `n` letters are still to come. `none` means that the fuel, a bound on the
  -- rounds, ran out.
  unfoldable pub string_loop : ℕ → ℕ → Source → Option Text
  string_loop fuel zero src = some []
  string_loop zero (suc n) src = none
  string_loop (suc fuel) (suc n) src =
      let src' = refill src in
      let next = shift src' in
      let taken = string_loop fuel n next in
      let skipped = string_loop fuel (suc n) next in
      if ltb (index src') (length alphanums)
      then (elim taken [ none ↦ none | some b ↦ some (char_at (index src') alphanums ∷ b) ])
      else skipped

  -- `String`
  unfoldable pub string : ℕ → ℕ → Option Text
  unfolding string_loop refill
  string fuel n =
      string_loop fuel n
        (record { random_int63 = rng 0; remaining = max_alphanums_per_int; drawn = 1 })

  -- `simpleNameGenerator.GenerateName`
  unfoldable pub generate_name : ℕ → Text → Option Text
  generate_name fuel base = elim (string fuel random_length) [
    | none ↦ none
    | some suffix ↦ some (cut max_generated_name_length base ++ suffix)
  ]
