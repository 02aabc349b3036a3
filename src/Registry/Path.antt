-- ===== src/Registry/Path.antt =====
-- `path.Join` of Go's standard library for a rooted first element: the non-empty elements are
-- joined by slashes, and the result is cleaned part by part ("" and "." go, ".." takes the part
-- before it away, at the root nothing).
use mathlib.Core.List.{tail}
use gokube_workshop_day.Prelude.{
  ◌≡◌, ◌≢◌, refl, arith, false, ◌||◌, Bool, List, [], ◌∷◌, ◌++◌, Text, codes, same, same_iff, ◌==◌,
  if◌then◌else◌,
}

abbrev push : Text → List Text → List Text
push part [] = part ∷ []
push part (p ∷ ps) = (part ++ p) ∷ ps

unfoldable pub split_slash : Text → List Text
split_slash [] = [] ∷ []
split_slash (c ∷ s) =
    let parts = split_slash s in if c == b'/' then [] ∷ parts else push (c ∷ []) parts

abbrev pub is_dot : Text → Bool
is_dot part = same part [] || same part (codes ".")

-- The parts kept so far, the last one first.
unfoldable pub resolve : List Text → List Text → List Text
unfolding same
resolve kept [] = kept
resolve kept (part ∷ parts) =
    resolve
      (if is_dot part then kept else if same part (codes "..") then tail kept else part ∷ kept)
      parts

unfoldable pub render : List Text → Text
render [] = []
render (part ∷ kept) = render kept ++ b'/' ∷ part

abbrev pub rooted : Text → Text
rooted [] = codes "/"
rooted (c ∷ s) = c ∷ s

-- `path.Clean` of a path that begins with a slash
unfoldable pub clean : Text → Text
unfolding split_slash resolve render
clean p = rooted (render (resolve [] (split_slash p)))

abbrev pub joined : Text → Text → Text
joined prefix [] = prefix
joined prefix (c ∷ name) = prefix ++ b'/' ∷ c ∷ name

-- `path.Join(prefix, name)` with a rooted `prefix`
unfoldable pub join : Text → Text → Text
unfolding clean
join prefix name = clean (joined prefix name)

-- A name of one path component that is not special.
abbrev pub NoSlash : Text → Type 0
NoSlash [] = Unit
NoSlash (c ∷ s) = (c ≢ b'/') × NoSlash s

pub record IsPlain (s : Text) : Type 0 where
  pub not_empty : s ≢ []
  pub not_dot : s ≢ codes "."
  pub not_dots : s ≢ codes ".."
  pub no_slash : NoSlash s

split_slash-NoSlash : (s : Text) → NoSlash s → split_slash s ≡ s ∷ []
unfolding split_slash
split_slash-NoSlash [] h = refl
split_slash-NoSlash (c ∷ s) h = rw (split_slash-NoSlash s h.1) (ground arith)

joined-IsPlain : (prefix s : Text) → s ≢ [] → joined prefix s ≡ prefix ++ b'/' ∷ s
joined-IsPlain prefix [] h = absurd (h refl)
joined-IsPlain prefix (c ∷ s) h = refl

module _ (s : Text) (h : IsPlain s) where
  is_dot-IsPlain : is_dot s ≡ false
  is_dot-IsPlain = ground (arith, same_iff s [], same_iff s (codes "."), h.not_empty, h.not_dot)

  dots-IsPlain : same s (codes "..") ≡ false
  dots-IsPlain = ground (arith, same_iff s (codes ".."), h.not_dots)

  -- A plain name is stored under the prefix, as it stands.
  pub join-nodes : join (codes "/registry/nodes/") s ≡ codes "/registry/nodes/" ++ s
  unfolding join
  join-nodes =
      rw (joined-IsPlain (codes "/registry/nodes/") s h.not_empty)
        (rw (split_slash-NoSlash s h.no_slash) (rw (is_dot-IsPlain, dots-IsPlain)))

  -- A name that climbs out of the prefix is stored under another one.
  pub join-climb : join (codes "/registry/nodes/") (codes "../../pods/" ++ s) ≡ codes "/pods/" ++ s
  unfolding join
  join-climb = rw (split_slash-NoSlash s h.no_slash) (rw (is_dot-IsPlain, dots-IsPlain))
