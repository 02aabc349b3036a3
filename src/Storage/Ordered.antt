-- ===== src/Storage/Ordered.antt =====
-- The ordered map keeps its keys in strict order, so a key has one row.
use mathlib.Core.List.{Memᴰ}
use mathlib.Core.List.Memᴰ
use gokube_workshop_day.Prelude.{
  ◌≡◌, ◌⊎◌, refl, sym, arith, Bool, true, false, not, some, [], ◌∷◌, Text, same, same_iff, before,
  inl, inr, Bool-cases, keep, mem-keep, All,
}
use gokube_workshop_day.Storage.Rows.{Rows, lookup, insert, remove}

before_trans : (r s t : Text) → before r s ≡ true → before s t ≡ true → before r t ≡ true
unfolding before
before_trans r s [] h k = ground arith
before_trans r [] (e ∷ t) h k = ground arith
before_trans [] (d ∷ s) (e ∷ t) h k = refl
before_trans (c ∷ r) (d ∷ s) (e ∷ t) h k = ground (arith, before_trans r s t)

before_total : (s t : Text) → same s t ≡ false → before s t ≡ false → before t s ≡ true
unfolding before same
before_total [] [] h k = ground arith
before_total [] (d ∷ t) h k = ground arith
before_total (c ∷ s) [] h k = refl
before_total (c ∷ s) (d ∷ t) h k = ground (arith, before_total s t)

before_irrefl : (s : Text) → before s s ≡ false
unfolding before
before_irrefl [] = refl
before_irrefl (c ∷ s) = ground (arith, before_irrefl s)

pub before-ne : (s t : Text) → before s t ≡ true → same s t ≡ false
before-ne s t h = elim (Bool-cases (same s t)) [
  | inl e ↦ let q = (same_iff s t).0 e in let w = before_irrefl t in cc (q, w, h)
  | inr e ↦ e
]

apart_sym : (s t : Text) → same s t ≡ false → same t s ≡ false
apart_sym s t h = elim (Bool-cases (same t s)) [
  | inl e ↦ let q = sym ((same_iff t s).0 e) in let w = (same_iff s t).1 q in cc (w, h)
  | inr e ↦ e
]

abbrev pub Above : Text → Rows → Type 0
Above k rows = All (λ (r : Text × Text). before k r.0 ≡ true) rows

-- The keys are in strict order.
abbrev pub Ordered : Rows → Type 0
Ordered [] = Unit
Ordered ((k, v) ∷ rows) = Above k rows × Ordered rows

Above-trans : (j k : Text) (rows : Rows) → before j k ≡ true → Above k rows → Above j rows
Above-trans j k [] h a = tt
Above-trans j k ((i, w) ∷ rows) h (a, more) = (before_trans j k i h a, Above-trans j k rows h more)

Above-insert :
    (j k v : Text) (rows : Rows) → before j k ≡ true → Above j rows → Above j (insert k v rows)
unfolding insert
Above-insert j k v [] h a = (h, tt)
Above-insert j k v ((i, w) ∷ rows) h (a, more) = elim (Bool-cases (same i k)) [
  | inl e ↦ rw e (h, more)
  | inr e ↦ elim (Bool-cases (before k i)) [
    | inl q ↦ rw (e, q) (h, (a, more))
    | inr q ↦ rw (e, q) (a, Above-insert j k v rows h more)
  ]
]

pub Ordered-insert : (k v : Text) (rows : Rows) → Ordered rows → Ordered (insert k v rows)
unfolding insert
Ordered-insert k v [] o = (tt, tt)
Ordered-insert k v ((i, w) ∷ rows) (a, o) = elim (Bool-cases (same i k)) [
  | inl e ↦ let q : i ≡ k = (same_iff i k).0 e in rw e (rw (← q) (a, o))
  | inr e ↦ elim (Bool-cases (before k i)) [
    | inl q ↦ rw (e, q) ((q, Above-trans k i rows q a), (a, o))
    | inr q ↦
        rw (e, q)
          (
            Above-insert i k v rows (before_total k i (apart_sym i k e) q) a,
            Ordered-insert k v rows o,
          )
  ]
]

Above-keep :
    (p : Text × Text → Bool) (j : Text) (rows : Rows) → Above j rows → Above j (keep p rows)
unfolding keep
Above-keep p j [] a = tt
Above-keep p j (r ∷ rows) (a, more) = elim (Bool-cases (p r)) [
  | inl e ↦ rw e (a, Above-keep p j rows more)
  | inr e ↦ rw e (Above-keep p j rows more)
]

pub Ordered-keep : (p : Text × Text → Bool) (rows : Rows) → Ordered rows → Ordered (keep p rows)
unfolding keep
Ordered-keep p [] o = tt
Ordered-keep p ((k, v) ∷ rows) (a, o) = elim (Bool-cases (p (k, v))) [
  | inl e ↦ rw e (Above-keep p k rows a, Ordered-keep p rows o)
  | inr e ↦ rw e (Ordered-keep p rows o)
]

pub Ordered-remove : (k : Text) (rows : Rows) → Ordered rows → Ordered (remove k rows)
unfolding remove
Ordered-remove k rows o = Ordered-keep (λ r. not (same r.0 k)) rows o

pub Above-mem :
    (j : Text) (rows : Rows) (r : Text × Text) → Above j rows → Memᴰ r rows → before j r.0 ≡ true
Above-mem j [] r a m = elim m [ ]
Above-mem j (q ∷ rows) r (a, more) (Memᴰ.head e) = rw e a
Above-mem j (q ∷ rows) r (a, more) (Memᴰ.tail m) = Above-mem j rows r more m

-- A row after an insertion is the new one, or an old one of another key.
pub mem-insert :
    (k v : Text) (rows : Rows) (r : Text × Text)
    → Ordered rows
    → Memᴰ r (insert k v rows)
    → (r ≡ (k, v)) ⊎ (Memᴰ r rows × (same k r.0 ≡ false))
unfolding insert
mem-insert k v [] r o m = elim (Memᴰ.cases_cons m) [ inl e ↦ inl e | inr none_ ↦ elim none_ [ ] ]
mem-insert k v ((i, w) ∷ rows) r (a, o) m = elim (Bool-cases (same i k)) [
  | inl e ↦ elim (Memᴰ.cases_cons (rw e at m)) [
    | inl q ↦ inl q
    | inr m' ↦
        let q : i ≡ k = (same_iff i k).0 e in
        inr (Memᴰ.tail m', before-ne k r.0 (rw q at (Above-mem i rows r a m')))
  ]
  | inr e ↦ elim (Bool-cases (before k i)) [
    | inl q ↦ elim (Memᴰ.cases_cons (rw (e, q) at m)) [
      | inl q' ↦ inl q'
      | inr m' ↦
          inr (m', before-ne k r.0 (Above-mem k ((i, w) ∷ rows) r (q, Above-trans k i rows q a) m'))
    ]
    | inr q ↦ elim (Memᴰ.cases_cons (rw (e, q) at m)) [
      | inl q' ↦ inr (Memᴰ.head q', rw q' (apart_sym i k e))
      | inr m' ↦ elim (mem-insert k v rows r o m') [
        | inl new ↦ inl new
        | inr (old, other) ↦ inr (Memᴰ.tail old, other)
      ]
    ]
  ]
]

pub mem-remove :
    (k : Text) (rows : Rows) (r : Text × Text)
    → Memᴰ r (remove k rows)
    → Memᴰ r rows × (same k r.0 ≡ false)
unfolding remove
mem-remove k rows r m =
    let (there, h) = (mem-keep (λ (q : Text × Text). not (same q.0 k)) rows r).0 m in
    (there, apart_sym r.0 k (ground arith))

pub lookup-mem : (k d : Text) (rows : Rows) → lookup k rows ≡ some d → Memᴰ (k, d) rows
unfolding lookup
lookup-mem k d [] h = absurd (ground arith)
lookup-mem k d ((i, w) ∷ rows) h = elim (Bool-cases (same i k)) [
  | inl e ↦
      let q : i ≡ k = (same_iff i k).0 e in
      let q' : w ≡ d = ground arith in Memᴰ.head (rw (q, q') refl)
  | inr e ↦ Memᴰ.tail (lookup-mem k d rows (rw e at h))
]
