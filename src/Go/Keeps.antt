-- ===== src/Go/Keeps.antt =====
-- What a program keeps of the world that it reads and writes, one rule for each way to build a
-- program. A branch of `on_result` may use which value was returned.
use gokube_workshop_day.Prelude.{Bool, true, false, ◌≡◌, refl, if◌then◌else◌}
use gokube_workshop_day.Go.{Error, Result, ok, err, Go, pure, ◌>>=◌, on_result}

pub record Keeps {S A : Type 0} (I : S → Type 0) (m : Go S A) : Type 0 where
  pub after : (s : S) → I s → I (m s).1

module _ {S A : Type 0} {I : S → Type 0} where
  pub Keeps-pure : (a : A) → Keeps I (pure a)
  Keeps-pure a = record { after = λ s h. h }

  pub Keeps-if : (b : Bool) {m n : Go S A} → Keeps I m → Keeps I n → Keeps I (if b then m else n)
  Keeps-if true h k = h
  Keeps-if false h k = k

module _ {S A B : Type 0} {I : S → Type 0} where
  pub Keeps-bind :
      {m : Go S A} (f : A → Go S B) → Keeps I m → ((a : A) → Keeps I (f a)) → Keeps I (m >>= f)
  Keeps-bind {m} f h k = record { after = λ s i. (k (m s).0).after (m s).1 (h.after s i) }

  pub Keeps-on_result :
      (r : Result A) {f : A → Go S B} {g : Error → Go S B}
      → ((a : A) → r ≡ ok a → Keeps I (f a))
      → ((e : Error) → Keeps I (g e))
      → Keeps I (on_result r f g)
  Keeps-on_result (ok a) h k = h a refl
  Keeps-on_result (err e) h k = k e

pub ruleset keeps = (Keeps-pure, Keeps-if, Keeps-bind, Keeps-on_result)
