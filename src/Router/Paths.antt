-- ===== src/Router/Paths.antt =====
-- internal/gateway/router.go: the parts of a path.
use ddag.Base.{
  arith, ◌≡◌, refl, ap, ◌∙◌, Bool, true, false, ◌&&◌, not, List, [], ◌∷◌, ◌++◌, ◌==◌, Text, All,
}
use mathlib.Core.List.{append-nil}
use ddag.Models.{trim_left, trim_right, is_empty}
use ddag.Router.{is_slash, split, split_path}

-- A part of a path: not empty, and without a slash.
unfoldable pub slash_free : Text → Bool
slash_free [] = true
slash_free (c ∷ s) = not (c == b'/') && slash_free s

abbrev pub IsPart : Text → Type 0
IsPart p = (is_empty p ≡ false) × (slash_free p ≡ true)

-- The path that has these parts.
unfoldable pub path_of : List Text → Text
path_of [] = []
path_of (p ∷ ps) = b'/' ∷ (p ++ path_of ps)

split-slash_free : (p : Text) → slash_free p ≡ true → split b'/' p ≡ p ∷ []
unfolding split slash_free
split-slash_free [] h = refl
split-slash_free (c ∷ s) h = ground (arith, split-slash_free s)

split-part : (p s : Text) → slash_free p ≡ true → split b'/' (p ++ (b'/' ∷ s)) ≡ p ∷ split b'/' s
unfolding split slash_free
split-part [] s h = refl
split-part (c ∷ p) s h = ground (arith, split-part p s)

split-path_of :
    (p : Text) (ps : List Text) → IsPart p → All IsPart ps → split b'/' (p ++ path_of ps) ≡ p ∷ ps
unfolding path_of
split-path_of p [] h hs = rw (append-nil p) (split-slash_free p h.1)
split-path_of p (q ∷ ps) h hs =
    split-part p (q ++ path_of ps) h.1 ∙ ap (λ t. p ∷ t) (split-path_of q ps hs.0 hs.1)

trim_right-slash_free : (p : Text) → slash_free p ≡ true → trim_right is_slash p ≡ p
unfolding trim_right slash_free
trim_right-slash_free [] h = refl
trim_right-slash_free (c ∷ p) h = ground (arith, trim_right-slash_free p)

is_empty-behind : (s t : Text) → is_empty t ≡ false → is_empty (s ++ t) ≡ false
is_empty-behind [] t h = h
is_empty-behind (c ∷ s) t h = refl

trim_right-append :
    (s t : Text)
    → trim_right is_slash t ≡ t
    → is_empty t ≡ false
    → trim_right is_slash (s ++ t) ≡ s ++ t
unfolding trim_right
trim_right-append [] t h full = h
trim_right-append (c ∷ s) t h full =
    rw (trim_right-append s t h full, is_empty-behind s t full) refl

is_empty-append : (p t : Text) → is_empty p ≡ false → is_empty (p ++ t) ≡ false
is_empty-append [] t h = ground arith
is_empty-append (c ∷ p) t h = refl

trim_right-path_of :
    (p : Text) (ps : List Text)
    → IsPart p
    → All IsPart ps
    → trim_right is_slash (p ++ path_of ps) ≡ p ++ path_of ps
unfolding path_of
trim_right-path_of p [] h hs = rw (append-nil p) (trim_right-slash_free p h.1)
trim_right-path_of p (q ∷ ps) h hs =
    let whole = trim_right-path_of q ps hs.0 hs.1 in
    trim_right-append p (b'/' ∷ (q ++ path_of ps))
      (trim_right-append (b'/' ∷ []) (q ++ path_of ps) whole
        (is_empty-append q (path_of ps) hs.0.0))
      refl

trim_left-part : (p t : Text) → IsPart p → trim_left is_slash (p ++ t) ≡ p ++ t
unfolding trim_left slash_free
trim_left-part [] t h = ground (arith, h.0)
trim_left-part (c ∷ p) t h = ground (arith, h.1)

-- The parts of a path come back from the path that is written with them, a slash before each,
-- provided that every part is not empty and has no slash.
pub split_path-path_of : (ps : List Text) → All IsPart ps → split_path (path_of ps) ≡ ps
unfolding split_path path_of trim_left
split_path-path_of [] h = refl
split_path-path_of (p ∷ ps) h =
    rw
      (
        trim_left-part p (path_of ps) h.0,
        trim_right-path_of p ps h.0 h.1,
        is_empty-append p (path_of ps) h.0.0,
      )
      (split-path_of p ps h.0 h.1)
