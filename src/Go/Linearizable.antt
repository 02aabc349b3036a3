-- ===== src/Go/Linearizable.antt =====
-- Methods behind one lock are linearizable: in every state that goroutines can reach, the methods
-- that have returned gave the answers that they give one after another, in the order of unlocking.
use mathlib.Core.List.{Memᴰ}
use gokube_workshop_day.Prelude.{ℕ, ◌≡◌, false, [], ◌∷◌}
use gokube_workshop_day.Go.Calls.{ReadOnly}
use gokube_workshop_day.Go.Mutex.{
  Methods, System, finished, NoWriter, Step, lock, read_lock, call, unlock, Reach, start, later,
  Replay,
}
use gokube_workshop_day.Go.Linear.{
  Log, Inv, start-Inv, lock-Inv, read_lock-Inv, call-Inv, unlock-Inv,
}

module _ {S : Type 0} (m : Methods S) where
  -- What is known of a state: some log of all methods that have returned, with their answers, such
  -- that the world is as after the log whenever no goroutine is inside a method that writes.
  pub record Linearized (s0 : S) (t : System m) : Type 0 where
    pub log : Log m
    pub base : S
    pub replayed : Replay m s0 log base
    pub quiet : NoWriter m t.at → t.shared ≡ base
    pub answered :
        (i : ℕ) (r : m.Request) (a : m.Answer) → t.at i ≡ finished r a → Memᴰ (i, r, a) log
    pub logged : (i : ℕ) (r : m.Request) (a : m.Answer) → Memᴰ (i, r, a) log → t.at i ≡ finished r a

  module _ (reads : (r : m.Request) → m.writes r ≡ false → ReadOnly (m.calls r)) where
    Step-Inv :
        {s0 : S} {s t : System m}
        → Step m s t
        → (log : Log m) (base : S) → Inv m s0 s log base
        → (log' : Log m) × (base' : S) × Inv m s0 t log' base'
    Step-Inv {s} (lock i r idle w free e) log base inv =
        (log, base, rw e (lock-Inv m s inv i r idle w free))
    Step-Inv {s} (read_lock i r idle w free e) log base inv =
        (log, base, rw e (read_lock-Inv m s inv i r idle (reads r) w free))
    Step-Inv {s} (call i r f k here e) log base inv =
        (log, base, rw e (call-Inv m s inv i r f k here))
    Step-Inv {s} (unlock i r a here e) log base inv =
        ((i, r, a) ∷ log, s.shared, rw e (unlock-Inv m s inv i r a here))

    Reach-Inv :
        {s0 : S} {requests : ℕ → m.Request} {t : System m}
        → Reach m s0 requests t
        → (log : Log m) × (base : S) × Inv m s0 t log base
    Reach-Inv {s0} {requests} start = ([], s0, start-Inv m s0 requests)
    Reach-Inv (later r st) = let (log, base, inv) = Reach-Inv r in Step-Inv st log base inv

    pub Reach-Linearized :
        {s0 : S} {requests : ℕ → m.Request} {t : System m} → Reach m s0 requests t → Linearized s0 t
    Reach-Linearized r =
        let (log, base, inv) = Reach-Inv r in
        record {
          log = log;
          base = base;
          replayed = inv.replayed;
          quiet = inv.quiet;
          answered = inv.answered;
          logged = inv.logged;
        }
