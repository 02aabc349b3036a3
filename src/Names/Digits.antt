-- ===== src/Names/Digits.antt =====
-- The letters of a random suffix, from the five-bit digits of the random numbers: the loop of `String`
-- takes twelve digits from each number, the lowest first, and then draws the next.
use mathlib.Core.List.{append_assoc}
use gokube_workshop_day.Prelude.{
  keep-append, ℕ, zero, suc, ◌+◌, ◌-◌, ◌*◌, ◌/◌, ◌%◌, ◌≤◌, ◌≡◌, refl, sym, ap, ◌∙◌, arith, some,
  List, [], ◌∷◌, ◌++◌, map, Text, keep, length, take, ltb,
}
use gokube_workshop_day.Names.{
  alphanums, char_at, Source, refill, string, generate_name, random_length,
  max_generated_name_length, max_alphanums_per_int,
}
use gokube_workshop_day.Names.Draw.{first, draws, letters, string-first}
use gokube_workshop_day.Names.Suffix.{start}
use gokube_workshop_day.Names.Bounds.{cut-take}

-- The `n` lowest digits of a number to the base 32, the lowest first.
unfoldable pub digits : ℕ → ℕ → List ℕ
digits zero x = []
digits (suc n) x = x % 32 ∷ digits n (x / 32)

-- The letters that digits name; 27 to 31 name none.
abbrev pub letters_of : List ℕ → Text
letters_of is = map (λ i. char_at i alphanums) (keep (λ i. ltb i 27) is)

abbrev source : ℕ → ℕ → ℕ → Source
source x remaining drawn = record { random_int63 = x; remaining = remaining; drawn = drawn }

module _ (rng : ℕ → ℕ) where
  -- The twelve digits of each of `k` random numbers, from the number `i` on.
  unfoldable pub digits_from : ℕ → ℕ → List ℕ
  digits_from zero i = []
  digits_from (suc k) i = digits 12 (rng i) ++ digits_from k (i + 1)

  draws-digits :
      (m f n x d : ℕ)
      → n ≡ m + f
      → (x' : ℕ) × (draws rng n (source x m d) ≡ digits m x ++ draws rng f (source x' 0 d))
  unfolding draws digits refill
  draws-digits zero f n x d e = let same : n ≡ f = omega (arith, e) in (x, rw same refl)
  draws-digits (suc m) f zero x d e = absurd (omega (arith, e))
  draws-digits (suc m) f (suc n) x d e =
      let (x', e') = draws-digits m f n (x / 32) d (omega (arith, e)) in
      let left : suc m - 1 ≡ m = omega arith in
      let not_refilled : refill rng (source x (suc m) d) ≡ source x (suc m) d = ground arith in
      (x', rw (not_refilled, left) (ap (λ (is : List ℕ). x % 32 ∷ is) e'))

  draws-refill :
      (n x d : ℕ)
      → draws rng n (source x 0 d) ≡ draws rng n (source (rng d) max_alphanums_per_int (d + 1))
  unfolding draws refill
  draws-refill zero x d = refl
  draws-refill (suc n) x d = refl

  draws-digits_from :
      (k more n x d : ℕ)
      → n ≡ k * 12 + more
      → (rest : List ℕ) × (draws rng n (source x 0 d) ≡ digits_from k d ++ rest)
  unfolding digits_from
  draws-digits_from zero more n x d e = (draws rng n (source x 0 d), refl)
  draws-digits_from (suc k) more n x d e =
      let (x', e1) = draws-digits 12 (k * 12 + more) n (rng d) (d + 1) (omega (arith, e)) in
      let (rest, e2) = draws-digits_from k more (k * 12 + more) x' (d + 1) refl in
      (
        rest,
        draws-refill n x d
            ∙ e1
            ∙ ap (λ (is : List ℕ). digits 12 (rng d) ++ is) e2
            ∙ sym (append_assoc (digits 12 (rng d)) (digits_from k (d + 1)) rest),
      )

  letters-digits_from :
      (k fuel : ℕ)
      → suc k * 12 ≤ fuel
      → (rest : List ℕ) × (letters rng fuel (start rng)
          ≡ letters_of (digits_from (suc k) 0 ++ rest))
  unfolding letters digits_from
  letters-digits_from k fuel h =
      let more = fuel - suc k * 12 in
      let (x', e1) = draws-digits 12 (k * 12 + more) fuel (rng 0) 1 (omega (arith, h)) in
      let (rest, e2) = draws-digits_from k more (k * 12 + more) x' 1 refl in
      (
        rest,
        ap letters_of (
            e1
            ∙ ap (λ (is : List ℕ). digits 12 (rng 0) ++ is) e2
            ∙ sym (append_assoc (digits 12 (rng 0)) (digits_from k 1) rest)),
      )

map-append :
    (is js : List ℕ)
    → map (λ i. char_at i alphanums) (is ++ js)
      ≡ map (λ i. char_at i alphanums) is ++ map (λ i. char_at i alphanums) js
map-append [] js = refl
map-append (i ∷ is) js = ap (λ (cs : Text). char_at i alphanums ∷ cs) (map-append is js)

letters_of-append : (is js : List ℕ) → letters_of (is ++ js) ≡ letters_of is ++ letters_of js
letters_of-append is js =
    ap (map (λ i. char_at i alphanums)) (keep-append (λ i. ltb i 27) is js)
    ∙ map-append (keep (λ i. ltb i 27) is) (keep (λ i. ltb i 27) js)

first-take : (n : ℕ) (xs ys : Text) → n ≤ length xs → first n (xs ++ ys) ≡ some (take n xs)
first-take zero xs ys h = refl
first-take (suc n) [] ys h = elim h [ ]
first-take (suc n) (x ∷ xs) ys h = rw (first-take n xs ys (omega arith)) refl

-- If the twelve five-bit digits of each of the first `k + 1` random numbers have among them five that are
-- below 27, then GenerateName returns in `12 * (k + 1)` rounds, and with any more allowed: the first 58
-- bytes of the base and the letters that the first five of those digits name.
pub generate_name_returns :
    (rng : ℕ → ℕ) (k fuel : ℕ) (base : Text)
    → suc k * 12 ≤ fuel
    → random_length ≤ length (letters_of (digits_from rng (suc k) 0))
    → generate_name rng fuel base
      ≡ some (
          take max_generated_name_length base
          ++ take random_length (letters_of (digits_from rng (suc k) 0)))
unfolding generate_name string keep
generate_name_returns rng k fuel base h enough =
    let (rest, e) = letters-digits_from rng k fuel h in
    let drawn : string rng fuel random_length
        ≡ some (take random_length (letters_of (digits_from rng (suc k) 0))) =
      string-first rng fuel random_length
      ∙ ap (first random_length) (e ∙ letters_of-append (digits_from rng (suc k) 0) rest)
      ∙ first-take random_length (letters_of (digits_from rng (suc k) 0)) (letters_of rest)
          enough in
    rw (drawn, cut-take max_generated_name_length base) refl
