-- ===== src/Names/Draw.antt =====
-- The loop of `String` against a reference: draw the indices of all rounds, keep those that name a
-- letter, take the first of them.
use gokube_workshop_day.Prelude.{
  ℕ, zero, suc, ◌≡◌, refl, arith, Option, none, some, List, [], ◌∷◌, map, Text, keep, length, ltb,
  if◌then◌else◌,
}
use gokube_workshop_day.Names.{
  alphanums, char_at, Source, refill, index, shift, string_loop, string, max_alphanums_per_int,
}

-- The first `n` elements, if there are as many.
abbrev pub first {ℓ} : {A : Type ℓ} → ℕ → List A → Option (List A)
first zero xs = some []
first (suc n) [] = none
first (suc n) (x ∷ xs) = elim (first n xs) [ none ↦ none | some ys ↦ some (x ∷ ys) ]

module _ (rng : ℕ → ℕ) where
  -- The indices of the next `fuel` rounds.
  unfoldable pub draws : ℕ → Source → List ℕ
  draws zero src = []
  draws (suc fuel) src = index rng (refill rng src) ∷ draws fuel (shift rng (refill rng src))

  unfoldable pub letters : ℕ → Source → Text
  unfolding draws keep
  letters fuel src =
      map (λ i. char_at i alphanums) (keep (λ i. ltb i (length alphanums)) (draws fuel src))

  letters-suc :
      (fuel : ℕ) (src : Source)
      → letters (suc fuel) src ≡ (
          if ltb (index rng (refill rng src)) (length alphanums)
          then char_at (index rng (refill rng src)) alphanums
            ∷ letters fuel (shift rng (refill rng src))
          else letters fuel (shift rng (refill rng src)))
  unfolding letters
  letters-suc fuel src = ground arith

  -- The loop returns the first letters that are drawn, and returns as soon as there are enough.
  pub string_loop-first :
      (fuel n : ℕ) (src : Source) → string_loop rng fuel n src ≡ first n (letters fuel src)
  unfolding string_loop
  string_loop-first fuel zero src = refl
  string_loop-first zero (suc n) src = unfold letters in refl
  string_loop-first (suc fuel) (suc n) src = rw (letters-suc fuel src) (
      ground (
        arith,
        string_loop-first fuel n (shift rng (refill rng src)),
        string_loop-first fuel (suc n) (shift rng (refill rng src)),
      ))

  -- `string` returns the first `n` letters that its rounds draw; with fewer letters than that in the
  -- rounds allowed, and only then, it has not returned.
  pub string-first :
      (fuel n : ℕ)
      → string rng fuel n
        ≡ first n (
            letters fuel
              (record { random_int63 = rng 0; remaining = max_alphanums_per_int; drawn = 1 }))
  unfolding string
  string-first fuel n = string_loop-first fuel n _
