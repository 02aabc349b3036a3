-- ===== src/Tests/Names.antt =====
-- The theorems about generated names at a stream of numbers.
use gokube_workshop_day.Prelude.{
  ℕ, ◌+◌, ◌*◌, ◌≡◌, ◌≤◌, refl, arith, some, take, ◌++◌, codes, length, keep,
}
use gokube_workshop_day.Names.{string, generate_name, random_length, cut}
use gokube_workshop_day.Names.Draw.{first, letters, string-first}
use gokube_workshop_day.Names.Suffix.{start}
use gokube_workshop_day.Names.Digits.{digits, digits_from, letters_of, generate_name_returns}
use gokube_workshop_day.Names.Bounds.{IsGeneratedFrom, generate_name-IsGeneratedFrom}

abbrev rng : ℕ → ℕ
rng n = 5000 + 1234567 * n

string-first_example : string rng 40 5 ≡ first 5 (letters rng 40 (start rng))
string-first_example = string-first rng 40 5

web_name : generate_name rng 40 (codes "web") ≡ some (codes "weblgbbb")
unfolding generate_name string cut
web_name = refl

generate_name-IsGeneratedFrom_example : IsGeneratedFrom (codes "web") (codes "weblgbbb")
generate_name-IsGeneratedFrom_example =
    generate_name-IsGeneratedFrom rng 40 (codes "web") (codes "weblgbbb") web_name

enough_letters : random_length ≤ length (letters_of (digits_from rng 2 0))
unfolding digits_from digits keep
enough_letters = omega arith

generate_name_returns_example :
    generate_name rng 40 (codes "web")
    ≡ some (codes "web" ++ take random_length (letters_of (digits_from rng 2 0)))
generate_name_returns_example =
    generate_name_returns rng 1 40 (codes "web") (omega arith) enough_letters
