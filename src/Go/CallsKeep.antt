-- ===== src/Go/CallsKeep.antt =====
-- What the calls of goroutines keep of the world that they share, one rule for each way to build them.
use gokube_workshop_day.Prelude.{ℕ, ◌==◌, Bool, true, false, List, [], ◌∷◌, if◌then◌else◌}
use gokube_workshop_day.Go.{Error, Result, ok, err, Go}
use gokube_workshop_day.Go.Calls.{Calls, returns, act, call, once, answering, after, either_way}
use gokube_workshop_day.Go.Interleaving.{advance, interleaved}
use gokube_workshop_day.Go.Keeps.{Keeps}

abbrev Kept : {S A : Type 0} → (S → Type 0) → Calls S A → Type 0
Kept I (returns a) = Unit
Kept {S} I (act f k) = (s : S) → I s → I (f s) × Kept I (k s)

-- Each call that is made keeps `I`, whatever `I` allows to have happened before it.
pub record CallsKeep {S A : Type 0} (I : S → Type 0) (p : Calls S A) : Type 0 where
  pub kept : Kept I p

module _ {S A : Type 0} {I : S → Type 0} where
  pub CallsKeep-returns : (a : A) → CallsKeep I (returns a)
  CallsKeep-returns a = record { kept = tt }

  pub CallsKeep-call :
      {B : Type 0} {m : Go S B} {k : B → Calls S A}
      → Keeps I m
      → ((b : B) → CallsKeep I (k b))
      → CallsKeep I (call m k)
  CallsKeep-call {B} {m} h h' = record { kept = λ s i. (h.after s i, (h' (m s).0).kept) }

  pub CallsKeep-once : {m : Go S A} → Keeps I m → CallsKeep I (once m)
  CallsKeep-once h = record { kept = λ s i. (h.after s i, tt) }

  pub CallsKeep-if :
      (b : Bool) {p q : Calls S A}
      → CallsKeep I p
      → CallsKeep I q
      → CallsKeep I (if b then p else q)
  CallsKeep-if true h k = h
  CallsKeep-if false h k = k

  CallsKeep-advance :
      (p : Calls S A) (s : S)
      → CallsKeep I p
      → I s
      → I (advance p s).1 × CallsKeep I (advance p s).0
  CallsKeep-advance (returns a) s h i = (i, h)
  CallsKeep-advance (act f k) s h i = let (i', h') = h.kept s i in (i', record { kept = h' })

  pub interleaved-keeps :
      (turns : List ℕ) (goroutines : ℕ → Calls S A) (s : S)
      → ((j : ℕ) → CallsKeep I (goroutines j))
      → I s
      → I (interleaved turns goroutines s).1
  unfolding interleaved
  interleaved-keeps [] goroutines s h i = i
  interleaved-keeps (j ∷ turns) goroutines s h i =
      let (i', h') = CallsKeep-advance (goroutines j) s (h j) i in
      interleaved-keeps turns _ _ (λ l. CallsKeep-if (j == l) h' (h l)) i'

module _ {S A B : Type 0} where
  answering-Kept : (I : S → Type 0) (f : A → B) (p : Calls S A) → Kept I p → Kept I (answering f p)
  unfolding answering
  answering-Kept I f (returns a) h = tt
  answering-Kept I f (act g k) h = λ s i. let (i', h') = h s i in (i', answering-Kept I f (k s) h')

module _ {S A B : Type 0} {I : S → Type 0} where
  pub CallsKeep-answering :
      (f : A → B) {p : Calls S A} → CallsKeep I p → CallsKeep I (answering f p)
  CallsKeep-answering f {p} h = record { kept = answering-Kept I f p h.kept }

  pub CallsKeep-after :
      (r : Result A) {f : A → Calls S B} (g : Error → B)
      → ((a : A) → CallsKeep I (f a))
      → CallsKeep I (after r f g)
  CallsKeep-after (ok a) g h = h a
  CallsKeep-after (err e) g h = CallsKeep-returns (g e)

  pub CallsKeep-either_way :
      (r : Result A) {p q : Calls S B}
      → CallsKeep I p
      → CallsKeep I q
      → CallsKeep I (either_way r p q)
  CallsKeep-either_way (ok a) h h' = h
  CallsKeep-either_way (err e) h h' = h'

pub ruleset calls_keep = (
  CallsKeep-returns, CallsKeep-call, CallsKeep-once, CallsKeep-if, CallsKeep-answering,
  CallsKeep-after, CallsKeep-either_way,
)
