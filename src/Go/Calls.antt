-- ===== src/Go/Calls.antt =====
-- A method as the sequence of its calls on a shared world, for runs in which other goroutines act
-- between two of them.
use gokube_workshop_day.Prelude.{◌≡◌}
use gokube_workshop_day.Go.{Error, Result, ok, err, Go}

-- `act f k`: one call, which changes the world by `f`, and what follows it.
pub data Calls (S A : Type 0) : Type 0 where
  returns : A → Calls S A
  act : (S → S) → (S → Calls S A) → Calls S A

module _ {S A : Type 0} where
  abbrev pub call : {B : Type 0} → Go S B → (B → Calls S A) → Calls S A
  call m k = act (λ s. (m s).1) (λ s. k (m s).0)

  -- All calls, with nothing between them.
  unfoldable pub alone : Calls S A → Go S A
  alone (returns a) s = (a, s)
  alone (act f k) s = alone (k s) (f s)

  -- No call changes the world.
  abbrev pub ReadOnly : Calls S A → Type 0
  ReadOnly (returns a) = Unit
  ReadOnly (act f k) = ((s : S) → f s ≡ s) × ((s : S) → ReadOnly (k s))

module _ {S : Type 0} where
  -- A method that calls the storage once at most.
  abbrev pub once : {A : Type 0} → Go S A → Calls S A
  once m = call m (λ a. returns a)

  -- What is made of the answer.
  unfoldable pub answering : {A B : Type 0} → (A → B) → Calls S A → Calls S B
  answering f (returns a) = returns (f a)
  answering f (act g k) = act g (λ s. answering f (k s))

  -- `on_result`, where the second branch makes no call
  abbrev pub after : {A B : Type 0} → Result A → (A → Calls S B) → (Error → B) → Calls S B
  after (ok a) f g = f a
  after (err e) f g = returns (g e)

  abbrev pub either_way : {A B : Type 0} → Result A → Calls S B → Calls S B → Calls S B
  either_way (ok a) p q = p
  either_way (err e) p q = q
