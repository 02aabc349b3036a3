-- ===== src/Go/Mutex.antt =====
-- Goroutines that call the methods of one object, which holds a `sync.RWMutex` for the whole of each
-- method: `Lock` in a method that writes, `RLock` in one that only reads.
use mathlib.Core.List.{Memᴰ}
use gokube_workshop_day.Prelude.{ℕ, ◌≡◌, Bool, true, false, ◌==◌, if◌then◌else◌, List, [], ◌∷◌}
use gokube_workshop_day.Go.Calls.{Calls, returns, act, alone}

-- The methods of an object: a request says which method is called, and with what.
pub record Methods (S : Type 0) : Type 1 where
  pub Request : Type 0
  pub Answer : Type 0
  pub calls : Request → Calls S Answer
  pub writes : Request → Bool

module _ {S : Type 0} (m : Methods S) where
  -- Where a goroutine stands: before `Lock` or `RLock`, behind it, or behind the unlocking.
  pub data Goroutine : Type 0 where
    waiting : m.Request → Goroutine
    inside : m.Request → Calls S m.Answer → Goroutine
    finished : m.Request → m.Answer → Goroutine

  pub record System : Type 0 where
    pub shared : S
    pub at : ℕ → Goroutine

  abbrev pub update : (ℕ → Goroutine) → ℕ → Goroutine → ℕ → Goroutine
  update at i g j = if i == j then g else at j

  -- No goroutine is inside.
  abbrev pub Unlocked : (ℕ → Goroutine) → Type 0
  Unlocked at = (i : ℕ) (r : m.Request) (p : Calls S m.Answer) → at i ≡ inside r p → ⊥

  -- None is inside a method that writes.
  abbrev pub NoWriter : (ℕ → Goroutine) → Type 0
  NoWriter at =
      (i : ℕ) (r : m.Request) (p : Calls S m.Answer) → at i ≡ inside r p → m.writes r ≡ false

  pub data Step (s t : System) : Type 0 where
    lock :
        (i : ℕ) (r : m.Request)
        → s.at i ≡ waiting r
        → m.writes r ≡ true
        → Unlocked s.at
        → t ≡ record { shared = s.shared; at = update s.at i (inside r (m.calls r)) }
        → Step s t
    read_lock :
        (i : ℕ) (r : m.Request)
        → s.at i ≡ waiting r
        → m.writes r ≡ false
        → NoWriter s.at
        → t ≡ record { shared = s.shared; at = update s.at i (inside r (m.calls r)) }
        → Step s t
    call :
        (i : ℕ) (r : m.Request) (f : S → S) (k : S → Calls S m.Answer)
        → s.at i ≡ inside r (act f k)
        → t ≡ record { shared = f s.shared; at = update s.at i (inside r (k s.shared)) }
        → Step s t
    unlock :
        (i : ℕ) (r : m.Request) (a : m.Answer)
        → s.at i ≡ inside r (returns a)
        → t ≡ record { shared = s.shared; at = update s.at i (finished r a) }
        → Step s t

  -- From the world `s0` with every goroutine about to call a method.
  pub data Reach (s0 : S) (requests : ℕ → m.Request) : System → Type 0 where
    start : Reach s0 requests (record { shared = s0; at = λ i. waiting (requests i) })
    later : {s t : System} → Reach s0 requests s → Step s t → Reach s0 requests t

  -- One method after another, the latest first: who called what, and the answer. Each goroutine
  -- appears once at most.
  pub data Replay (s0 : S) : List (ℕ × m.Request × m.Answer) → S → Type 0 where
    none : Replay s0 [] s0
    next :
        {log : List (ℕ × m.Request × m.Answer)} {s s' : S}
        → Replay s0 log s
        → (i : ℕ) (r : m.Request) (a : m.Answer)
        → ((r' : m.Request) (a' : m.Answer) → Memᴰ (i, r', a') log → ⊥)
        → alone (m.calls r) s ≡ (a, s')
        → Replay s0 ((i, r, a) ∷ log) s'
