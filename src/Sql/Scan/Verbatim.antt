-- ===== src/Sql/Scan/Verbatim.antt =====
-- Each scanning helper splits its text: what it passes over, put before what it leaves, is the text.
use ddag.Base.{
  length, ◌<◌, ℕ, Bool, true, false, ◌≡◌, refl, ap, subst, ◌∙◌, Option, none, some, [], ◌∷◌, ◌++◌,
  arith, ◌==◌, Text, Bool-cases, inl, inr,
}
use mathlib.Core.List.{append_assoc}
use ddag.Sql.Scan.{
  Span, span, quoted, copy_delimited, block_comment, line_comment, hash_comment, strip_tag,
  push_found, found_tag, append_found, find_tag, dollar_quote, is_tag_rune, ends_in_dollar,
  oracle_body, oracle_quote, closing_delimiter,
}

abbrev pub Splits : Span → Text → Type 0
Splits p s = p.0 ++ p.1 ≡ s

abbrev pub SplitsIfFound : Option Span → Text → Type 0
SplitsIfFound none s = Unit {0}
SplitsIfFound (some p) s = Splits p s

pub span-Splits : (p : ℕ → Bool) (s : Text) → Splits (span p s) s
unfolding span
span-Splits p [] = refl
span-Splits p (c ∷ s) = ground (arith, span-Splits p s)

pub quoted-Splits : (q : ℕ) (pending : Bool) (s : Text) → Splits (quoted q pending s) s
unfolding quoted
quoted-Splits q pending [] = refl
quoted-Splits q false (c ∷ s) = ap (◌∷◌ c) (quoted-Splits q (c == q) s)
quoted-Splits q true (c ∷ s) = ground (arith, quoted-Splits q false s)

pub copy_delimited-Splits : (c q : ℕ) (s : Text) → Splits (copy_delimited c q s) (c ∷ s)
unfolding copy_delimited
copy_delimited-Splits c q s = ap (◌∷◌ c) (quoted-Splits q false s)

pub block_comment-Splits : (star : Bool) (s : Text) → Splits (block_comment star s) s
unfolding block_comment
block_comment-Splits star [] = refl
block_comment-Splits star (c ∷ s) = ground (arith, block_comment-Splits (c == b'*') s)

pub hash_comment-Splits : (s : Text) → Splits (hash_comment s) s
unfolding hash_comment
hash_comment-Splits [] = refl
hash_comment-Splits (c ∷ s) = ground (arith, hash_comment-Splits s)

pub line_comment-Splits : (s : Text) → Splits (line_comment s) s
unfolding line_comment
line_comment-Splits s = span-Splits _ s

strip_tag-eq : (tag s : Text) {after : Text} → strip_tag tag s ≡ some after → tag ++ after ≡ s
unfolding strip_tag
strip_tag-eq [] s e = ground arith
strip_tag-eq (t ∷ tag) [] e = ground arith
strip_tag-eq (t ∷ tag) (c ∷ s) {after = r} e = ground (arith, strip_tag-eq tag s {after = r})

push_found-Splits :
    (c : ℕ) (o : Option Span) (s : Text)
    → SplitsIfFound o s
    → SplitsIfFound (push_found c o) (c ∷ s)
unfolding push_found
push_found-Splits c none s h = tt
push_found-Splits c (some p) s h = ap (◌∷◌ c) h

found_tag-Splits :
    (o : Option Text) (tag s : Text) (later : Option Span)
    → ((after : Text) → o ≡ some after → tag ++ after ≡ s)
    → SplitsIfFound later s
    → SplitsIfFound (found_tag o tag later) s
unfolding found_tag
found_tag-Splits none tag s later here there = there
found_tag-Splits (some after) tag s later here there = here after refl

find_tag-Splits : (tag s : Text) → SplitsIfFound (find_tag tag s) s
unfolding find_tag
find_tag-Splits tag [] =
    found_tag-Splits (strip_tag tag []) tag [] none (λ after. strip_tag-eq tag []) tt
find_tag-Splits tag (c ∷ s) =
    found_tag-Splits (strip_tag tag (c ∷ s)) tag (c ∷ s) _ (λ after. strip_tag-eq tag (c ∷ s))
      (push_found-Splits c (find_tag tag s) s (find_tag-Splits tag s))

append_found-Splits :
    (tag s : Text) (o : Option Span)
    → SplitsIfFound o s
    → SplitsIfFound (append_found tag o) (tag ++ s)
unfolding append_found
append_found-Splits tag s none h = tt
append_found-Splits tag s (some p) h = append_assoc tag p.0 p.1 ∙ ap (◌++◌ tag) h

-- At a `$` before `s`, the quote that is found begins with that `$`.
pub dollar_quote-Splits : (s : Text) → SplitsIfFound (dollar_quote s) (b'$' ∷ s)
unfolding dollar_quote
dollar_quote-Splits s =
    let (tag, after) = span is_tag_rune s in
    let found =
      subst
        (λ r. SplitsIfFound (append_found (b'$' ∷ tag) (find_tag (b'$' ∷ tag) after)) (b'$' ∷ r))
        (span-Splits is_tag_rune s)
        (append_found-Splits (b'$' ∷ tag) after _ (find_tag-Splits (b'$' ∷ tag) after)) in
    elim (Bool-cases (ends_in_dollar tag)) [
      | inl tagged ↦ rw tagged found
      | inr untagged ↦ rw untagged tt
    ]

oracle_body-Splits :
    (close : ℕ) (pending : Bool) (s : Text) → SplitsIfFound (oracle_body close pending s) s
unfolding oracle_body
oracle_body-Splits close pending [] = tt
oracle_body-Splits close pending (c ∷ s) = ground (
  arith,
  push_found-Splits c (oracle_body close (c == close) s) s
      (oracle_body-Splits close (c == close) s),
)

pub oracle_quote-Splits : (s : Text) → SplitsIfFound (oracle_quote s) (b'q' ∷ s)
unfolding oracle_quote
oracle_quote-Splits [] = tt
oracle_quote-Splits (e ∷ []) = tt
oracle_quote-Splits (e ∷ d ∷ s) = push_found-Splits b'q' _ (e ∷ d ∷ s) (
    push_found-Splits e _ (d ∷ s)
      (push_found-Splits d _ s (oracle_body-Splits (closing_delimiter d) false s)))

-- What is found is not empty.
abbrev pub FoundSome : Option Span → Type 0
FoundSome none = Unit {0}
FoundSome (some p) = 0 < length p.0

push_found-FoundSome : (c : ℕ) (o : Option Span) → FoundSome (push_found c o)
unfolding push_found
push_found-FoundSome c none = tt
push_found-FoundSome c (some p) = omega arith

append_found-FoundSome :
    (c : ℕ) (tag : Text) (o : Option Span) → FoundSome (append_found (c ∷ tag) o)
unfolding append_found
append_found-FoundSome c tag none = tt
append_found-FoundSome c tag (some p) = omega arith

pub dollar_quote-FoundSome : (s : Text) → FoundSome (dollar_quote s)
unfolding dollar_quote
dollar_quote-FoundSome s =
    let (tag, after) = span is_tag_rune s in
    let found = append_found-FoundSome b'$' tag (find_tag (b'$' ∷ tag) after) in
    elim (Bool-cases (ends_in_dollar tag)) [
      | inl tagged ↦ rw tagged found
      | inr untagged ↦ rw untagged tt
    ]

pub oracle_quote-FoundSome : (s : Text) → FoundSome (oracle_quote s)
unfolding oracle_quote
oracle_quote-FoundSome [] = tt
oracle_quote-FoundSome (e ∷ []) = tt
oracle_quote-FoundSome (e ∷ d ∷ s) = push_found-FoundSome b'q' _
