-- ===== src/Go/Interleaving.antt =====
-- Goroutines whose calls on a shared world alternate as a schedule says.
use gokube_workshop_day.Prelude.{ℕ, ◌==◌, if◌then◌else◌, Bool, true, false, List, [], ◌∷◌}
use gokube_workshop_day.Go.Calls.{Calls, returns, act}

module _ {S A : Type 0} where
  -- What is left of a goroutine after its next call, and the world then.
  abbrev pub advance : Calls S A → S → Calls S A × S
  advance (returns a) s = (returns a, s)
  advance (act f k) s = (k s, f s)

  -- `true` lets the first goroutine make its next call, `false` the second.
  unfoldable pub together : List Bool → Calls S A → Calls S A → S → Calls S A × Calls S A × S
  together [] p q s = (p, q, s)
  together (true ∷ turns) p q s = let (p', s') = advance p s in together turns p' q s'
  together (false ∷ turns) p q s = let (q', s') = advance q s in together turns p q' s'

  -- Goroutines that make their next calls in the order of the turns.
  unfoldable pub interleaved : List ℕ → (ℕ → Calls S A) → S → (ℕ → Calls S A) × S
  interleaved [] goroutines s = (goroutines, s)
  interleaved (i ∷ turns) goroutines s =
      let (rest, s') = advance (goroutines i) s in
      interleaved turns (λ j. if i == j then rest else goroutines j) s'
