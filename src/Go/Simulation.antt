-- ===== src/Go/Simulation.antt =====
-- Two runs of one program over two worlds that stay related, one rule for each way to build a
-- program. `R s t` says that the world `s` is represented by `t`.
use mathlib.Core.Path.{subst}
use gokube_workshop_day.Prelude.{Bool, true, false, ◌≡◌, refl, sym, if◌then◌else◌}
use gokube_workshop_day.Go.{Error, Result, ok, err, Go, pure, ◌>>=◌, on_result}

-- From related worlds both programs return the same value and leave related worlds.
pub record Simulates {S T A : Type 0} (R : S → T → Type 0) (m : Go S A) (n : Go T A) : Type 0 where
  pub at : (s : S) (t : T) → R s t → ((m s).0 ≡ (n t).0) × R (m s).1 (n t).1

module _ {S T A : Type 0} {R : S → T → Type 0} where
  pub Simulates-pure : (a : A) → Simulates R (pure a) (pure a)
  Simulates-pure a = record { at = λ s t h. (refl, h) }

  pub Simulates-if :
      (b : Bool) {m m' : Go S A} {n n' : Go T A}
      → Simulates R m n
      → Simulates R m' n'
      → Simulates R (if b then m else m') (if b then n else n')
  Simulates-if true h k = h
  Simulates-if false h k = k

module _ {S T A B : Type 0} {R : S → T → Type 0} where
  pub Simulates-bind :
      {m : Go S A} {n : Go T A} (f : A → Go S B) (g : A → Go T B)
      → Simulates R m n
      → ((a : A) → Simulates R (f a) (g a))
      → Simulates R (m >>= f) (n >>= g)
  Simulates-bind {m} {n} f g h k = record {
    at = λ s t r.
        let (e, r') = h.at s t r in
        subst
          (λ x. ((f x (m s).1).0 ≡ (g (n t).0 (n t).1).0) × R (f x (m s).1).1 (g (n t).0 (n t).1).1)
          (sym e) ((k (n t).0).at (m s).1 (n t).1 r');
  }

  pub Simulates-on_result :
      (r : Result A) {f : A → Go S B} {g : Error → Go S B} {f' : A → Go T B} {g' : Error → Go T B}
      → ((a : A) → Simulates R (f a) (f' a))
      → ((e : Error) → Simulates R (g e) (g' e))
      → Simulates R (on_result r f g) (on_result r f' g')
  Simulates-on_result (ok a) h k = h a
  Simulates-on_result (err e) h k = k e

pub ruleset simulation = (Simulates-pure, Simulates-if, Simulates-bind, Simulates-on_result)
