-- ===== src/Names/Suffix.antt =====
-- What the random suffixes are made of.
use gokube_workshop_day.Prelude.{
  ℕ, zero, suc, ◌<◌, ◌≡◌, refl, inl, inr, Option-cases, Bool, true, arith, some, List, [], ◌∷◌, map,
  Text, keep, length, any, all, ltb, ◌==◌,
}
use gokube_workshop_day.Names.{alphanums, char_at, Source, string, max_alphanums_per_int}
use gokube_workshop_day.Names.Draw.{first, draws, letters, string-first}

-- `ch` is one of the letters of `alphabet`.
abbrev pub is_letter_of : Text → ℕ → Bool
is_letter_of alphabet ch = any (λ d. d == ch) alphabet

char_at-is_letter_of :
    (alphabet : Text) (i : ℕ)
    → i < length alphabet
    → is_letter_of alphabet (char_at i alphabet) ≡ true
char_at-is_letter_of [] i h = elim h [ ]
char_at-is_letter_of (c ∷ s) zero h = ground arith
char_at-is_letter_of (c ∷ s) (suc i) h = ground (arith, char_at-is_letter_of s i (omega arith))

kept_letters :
    (alphabet : Text) (is : List ℕ)
    → all
        (is_letter_of alphabet)
        (map (λ i. char_at i alphabet) (keep (λ i. ltb i (length alphabet)) is))
      ≡ true
unfolding keep
kept_letters alphabet [] = refl
kept_letters alphabet (i ∷ is) =
    ground (arith, kept_letters alphabet is, char_at-is_letter_of alphabet i)

letters_lem :
    (rng : ℕ → ℕ) (fuel : ℕ) (src : Source)
    → all (is_letter_of alphanums) (letters rng fuel src) ≡ true
unfolding letters
letters_lem rng fuel src = kept_letters alphanums (draws rng fuel src)

first-all :
    (p : ℕ → Bool) (n : ℕ) (xs ys : Text)
    → first n xs ≡ some ys
    → all p xs ≡ true
    → (length ys ≡ n) × (all p ys ≡ true)
first-all p zero xs ys e h = ground arith
first-all p (suc n) [] ys e h = ground arith
first-all p (suc n) (x ∷ xs) ys e h = elim (Option-cases (first n xs)) [
  | inl short ↦ absurd (ground arith)
  | inr (zs, found) ↦ ground (arith, first-all p n xs zs found)
]

abbrev pub start : (ℕ → ℕ) → Source
start rng = record { random_int63 = rng 0; remaining = max_alphanums_per_int; drawn = 1 }

-- A string that is returned has the length asked for and holds letters of the alphabet only.
pub string_shape :
    (rng : ℕ → ℕ) (fuel n : ℕ) (b : Text)
    → string rng fuel n ≡ some b
    → (length b ≡ n) × (all (is_letter_of alphanums) b ≡ true)
string_shape rng fuel n b e =
    first-all (is_letter_of alphanums) n (letters rng fuel (start rng)) b (rw string-first at e)
      (letters_lem rng fuel (start rng))
