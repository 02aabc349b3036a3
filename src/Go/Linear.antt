-- ===== src/Go/Linear.antt =====
-- The invariant of the goroutines that call the methods of one object behind its lock.
use mathlib.Core.List.{Memᴰ}
use mathlib.Core.List.Memᴰ
use gokube_workshop_day.Prelude.{
  ℕ, ◌≡◌, ◌≢◌, refl, sym, ap, ◌∙◌, ◌⊎◌, inl, inr, true, false, ◌==◌, ==_iff, Bool-cases, List, [],
  ◌∷◌, arith,
}
use gokube_workshop_day.Go.Calls.{Calls, returns, act, alone, ReadOnly}
use gokube_workshop_day.Go.Mutex.{
  Methods, Goroutine, waiting, inside, finished, System, update, Unlocked, NoWriter, Replay, none,
  next,
}

module _ {S : Type 0} (m : Methods S) where
  abbrev pub Log : Type 0
  Log = List (ℕ × m.Request × m.Answer)

  inside-cases :
      (at : ℕ → Goroutine m) (i : ℕ) (r : m.Request) (p : Calls S m.Answer) (j : ℕ) (r' : m.Request)
      (p' : Calls S m.Answer)
      → update m at i (inside r p) j ≡ inside r' p'
      → ((i ≡ j) × (r ≡ r') × (p ≡ p')) ⊎ ((i ≢ j) × (at j ≡ inside r' p'))
  inside-cases at i r p j r' p' h = elim (Bool-cases (i == j)) [
    | inl e ↦ inl ((==_iff i j).0 e, ground arith, ground arith)
    | inr e ↦ inr (λ q. ground (arith, ==_iff i j), ground arith)
  ]

  finished-cases :
      (at : ℕ → Goroutine m) (i : ℕ) (r : m.Request) (a : m.Answer) (j : ℕ) (r' : m.Request)
      (a' : m.Answer)
      → update m at i (finished r a) j ≡ finished r' a'
      → ((i ≡ j) × (r ≡ r') × (a ≡ a')) ⊎ ((i ≢ j) × (at j ≡ finished r' a'))
  finished-cases at i r a j r' a' h = elim (Bool-cases (i == j)) [
    | inl e ↦ inl ((==_iff i j).0 e, ground arith, ground arith)
    | inr e ↦ inr (λ q. ground (arith, ==_iff i j), ground arith)
  ]

  still_finished :
      (at : ℕ → Goroutine m) (i : ℕ) (r : m.Request) (p : Calls S m.Answer) (j : ℕ) (r' : m.Request)
      (a : m.Answer)
      → update m at i (inside r p) j ≡ finished r' a
      → at j ≡ finished r' a
  still_finished at i r p j r' a h = ground arith

  still_inside :
      (at : ℕ → Goroutine m) (i : ℕ) (r : m.Request) (a : m.Answer) (j : ℕ) (r' : m.Request)
      (p : Calls S m.Answer)
      → update m at i (finished r a) j ≡ inside r' p
      → (i ≢ j) × (at j ≡ inside r' p)
  still_inside at i r a j r' p h = (λ e. ground (arith, ==_iff i j), ground arith)

  -- `base` is the world after the methods of the log.
  pub record Inv (s0 : S) (t : System m) (log : Log) (base : S) : Type 0 where
    pub replayed : Replay m s0 log base
    pub quiet : NoWriter m t.at → t.shared ≡ base
    pub pending :
        (i : ℕ) (r : m.Request) (p : Calls S m.Answer)
        → t.at i ≡ inside r p
        → alone p t.shared ≡ alone (m.calls r) base
    pub excluded :
        (i j : ℕ) (r r' : m.Request) (p p' : Calls S m.Answer)
        → t.at i ≡ inside r p
        → m.writes r ≡ true
        → t.at j ≡ inside r' p'
        → i ≡ j
    pub reading :
        (i : ℕ) (r : m.Request) (p : Calls S m.Answer)
        → t.at i ≡ inside r p
        → m.writes r ≡ false
        → ReadOnly p
    pub answered :
        (i : ℕ) (r : m.Request) (a : m.Answer) → t.at i ≡ finished r a → Memᴰ (i, r, a) log
    pub logged : (i : ℕ) (r : m.Request) (a : m.Answer) → Memᴰ (i, r, a) log → t.at i ≡ finished r a

  pub start-Inv :
      (s0 : S) (requests : ℕ → m.Request)
      → Inv s0 (record { shared = s0; at = λ i. waiting (requests i) }) [] s0
  start-Inv s0 requests = record {
    replayed = none;
    quiet = λ h. refl;
    pending = λ i r p h. absurd (ground arith);
    excluded = λ i j r r' p p' h. absurd (ground arith);
    reading = λ i r p h. absurd (ground arith);
    answered = λ i r a h. absurd (ground arith);
    logged = λ i r a h. elim h [ ];
  }

  module _ {s0 base : S} {log : Log} (s : System m) (inv : Inv s0 s log base) where
    -- Goroutine `i` has come to stand inside its method, before the calls `p`.
    inside-Inv :
        (i : ℕ) (r : m.Request) (p : Calls S m.Answer) (shared : S)
        → (NoWriter m (update m s.at i (inside r p)) → shared ≡ base)
        → alone p shared ≡ alone (m.calls r) base
        → ((j : ℕ) (r' : m.Request) (p' : Calls S m.Answer)
            → i ≢ j
            → s.at j ≡ inside r' p'
            → (shared ≡ s.shared) × (m.writes r ≡ false) × (m.writes r' ≡ false))
        → (m.writes r ≡ false → ReadOnly p)
        → ((r' : m.Request) (a : m.Answer) → s.at i ≡ finished r' a → ⊥)
        → Inv s0 (record { shared = shared; at = update m s.at i (inside r p) }) log base
    inside-Inv i r p shared quiet here others reads busy = record {
      replayed = inv.replayed;
      quiet = quiet;
      pending = λ j r' p' e. elim (inside-cases s.at i r p j r' p' e) [
        | inl (q, q', q'') ↦ rw (← q', ← q'') here
        | inr (q, g) ↦ rw ((others j r' p' q g).0) (inv.pending j r' p' g)
      ];
      excluded = λ j k r' r'' p' p'' e v e'. elim (inside-cases s.at i r p j r' p' e) [
        | inl (q, q', q'') ↦ elim (inside-cases s.at i r p k r'' p'' e') [
          | inl (q1, g1, g2) ↦ sym q ∙ q1
          | inr (q1, g1) ↦ absurd (ground (arith, others k r'' p'' q1 g1))
        ]
        | inr (q, g) ↦ elim (inside-cases s.at i r p k r'' p'' e') [
          | inl (q1, g1, g2) ↦ absurd (ground (arith, others j r' p' q g))
          | inr (q1, g1) ↦ inv.excluded j k r' r'' p' p'' g v g1
        ]
      ];
      reading = λ j r' p' e v. elim (inside-cases s.at i r p j r' p' e) [
        | inl (q, q', q'') ↦ rw (← q'') (reads (ap m.writes q' ∙ v))
        | inr (q, g) ↦ inv.reading j r' p' g v
      ];
      answered = λ j r' a e. inv.answered j r' a (still_finished s.at i r p j r' a e);
      logged = λ j r' a e.
          let done = inv.logged j r' a e in
          elim (Bool-cases (i == j)) [
            | inl q ↦ let q' : i ≡ j = (==_iff i j).0 q in absurd (busy r' a (rw q' done))
            | inr q ↦ ground (arith, q, done)
          ];
    }

    -- While another goroutine is inside, none inside writes.
    both_read :
        (i j : ℕ) (r r' : m.Request) (p p' : Calls S m.Answer)
        → i ≢ j
        → s.at i ≡ inside r p
        → s.at j ≡ inside r' p'
        → m.writes r ≡ false
    both_read i j r r' p p' q e e' = elim (Bool-cases (m.writes r)) [
      | inl w ↦ absurd (q (inv.excluded i j r r' p p' e w e'))
      | inr w ↦ w
    ]

    -- While a goroutine reads, none inside writes.
    one_reads :
        (i : ℕ) (r : m.Request) (p : Calls S m.Answer)
        → s.at i ≡ inside r p
        → m.writes r ≡ false
        → NoWriter m s.at
    one_reads i r p e v j r' p' e' = elim (Bool-cases (m.writes r')) [
      | inl w ↦
          let q : j ≡ i = inv.excluded j i r' r p' p e' w e in
          let q' : r ≡ r' = ground (arith, e, e', q) in absurd (ground (arith, v, w, q'))
      | inr w ↦ w
    ]

    pub lock-Inv :
        (i : ℕ) (r : m.Request)
        → s.at i ≡ waiting r
        → m.writes r ≡ true
        → Unlocked m s.at
        → Inv s0
            (record { shared = s.shared; at = update m s.at i (inside r (m.calls r)) })
            log
            base
    lock-Inv i r idle w free =
        let held : s.shared ≡ base = inv.quiet (λ j r' p e. absurd (free j r' p e)) in
        inside-Inv i r (m.calls r) s.shared (λ h. held) (ap (alone (m.calls r)) held)
          (λ j r' p q e. absurd (free j r' p e)) (λ v. absurd (ground (arith, w, v)))
          (λ r' a e. ground (arith, idle, e))

    pub read_lock-Inv :
        (i : ℕ) (r : m.Request)
        → s.at i ≡ waiting r
        → (m.writes r ≡ false → ReadOnly (m.calls r))
        → m.writes r ≡ false
        → NoWriter m s.at
        → Inv s0
            (record { shared = s.shared; at = update m s.at i (inside r (m.calls r)) })
            log
            base
    read_lock-Inv i r idle reads w free =
        let held : s.shared ≡ base = inv.quiet free in
        inside-Inv i r (m.calls r) s.shared (λ h. held) (ap (alone (m.calls r)) held)
          (λ j r' p q e. (refl, w, free j r' p e)) reads (λ r' a e. ground (arith, idle, e))

    unchanged :
        (i : ℕ) (r : m.Request) (f : S → S) (k : S → Calls S m.Answer)
        → s.at i ≡ inside r (act f k)
        → m.writes r ≡ false
        → f s.shared ≡ s.shared
    unchanged i r f k e w = (inv.reading i r (act f k) e w).0 s.shared

    pub call-Inv :
        (i : ℕ) (r : m.Request) (f : S → S) (k : S → Calls S m.Answer)
        → s.at i ≡ inside r (act f k)
        → Inv s0
            (record { shared = f s.shared; at = update m s.at i (inside r (k s.shared)) })
            log
            base
    unfolding alone
    call-Inv i r f k e =
        inside-Inv i r (k s.shared) (f s.shared)
          (λ free.
            let w : m.writes r ≡ false = free i r (k s.shared) (ground (arith, ==_iff i i)) in
            unchanged i r f k e w ∙ inv.quiet (one_reads i r (act f k) e w))
          (inv.pending i r (act f k) e)
          (λ j r' p q e'.
            let w : m.writes r ≡ false = both_read i j r r' (act f k) p q e e' in
            (unchanged i r f k e w, w, both_read j i r' r p (act f k) (λ q'. q (sym q')) e' e))
          (λ w. (inv.reading i r (act f k) e w).1 s.shared) (λ r' a e'. ground (arith, e, e'))

    pub unlock-Inv :
        (i : ℕ) (r : m.Request) (a : m.Answer)
        → s.at i ≡ inside r (returns a)
        → Inv s0
            (record { shared = s.shared; at = update m s.at i (finished r a) })
            ((i, r, a) ∷ log)
            s.shared
    unfolding alone
    unlock-Inv i r a e = record {
      replayed =
          next inv.replayed i r a (λ r' a' h. ground (arith, inv.logged i r' a' h, e))
            (sym (inv.pending i r (returns a) e));
      quiet = λ h. refl;
      pending = λ j r' p e'.
          let (q, g) = still_inside s.at i r a j r' p e' in
          let reads = both_read i j r r' (returns a) p q e g in
          let held : s.shared ≡ base = inv.quiet (one_reads i r (returns a) e reads) in
          inv.pending j r' p g ∙ ap (λ b. alone (m.calls r') b) (sym held);
      excluded = λ j k r' r'' p p' e' v e''.
          inv.excluded j k r' r'' p p' (still_inside s.at i r a j r' p e').1 v
            (still_inside s.at i r a k r'' p' e'').1;
      reading = λ j r' p e' v. inv.reading j r' p (still_inside s.at i r a j r' p e').1 v;
      answered = λ j r' a' e'. elim (finished-cases s.at i r a j r' a' e') [
        | inl (q, q', q'') ↦ Memᴰ.head (ground (arith, q, q', q''))
        | inr (q, g) ↦ Memᴰ.tail (inv.answered j r' a' g)
      ];
      logged = λ j r' a' h. elim (Memᴰ.cases_cons h) [
        | inl q ↦ ground (arith, q, ==_iff i i)
        | inr t ↦ ground (arith, inv.logged j r' a' t, e, ==_iff i j)
      ];
    }
