-- ===== src/Sql/Pagination/Swallowed.antt =====
-- The page behind a query that ends in a line comment.
use ddag.Base.{
  ℕ, zero, suc, ◌≤◌, Bool, true, false, ◌≡◌, refl, ap, Option, some, List, [], ◌∷◌, ◌==◌, ◌/◌, ◌%◌,
  if◌then◌else◌, arith, ltb, Text, codes, length, Bool-cases, inl, inr, ◌+◌, ◌++◌, all, all-All,
  All, All-append, ℤ, pos, negsuc,
}
use ddag.Sql.Scan.{Dialect, postgres, mysql, sqlserver, oracle, other, span, line_comment}
use ddag.Sql.Scan.Ordinary.{is_ordinary, AreOrdinary}
use ddag.Sql.Bind.{digits_onto, decimal}
use ddag.Sql.Strip.{kept, skipped, strip_token, strip_loop, strip_dialect}
use ddag.Sql.Pagination.{base_query, has_order_by, page_text, with_page, apply_pagination}

abbrev pub is_unbroken : ℕ → Bool
is_unbroken c = if c == b'\n' then false else true

abbrev pub NoBreak : Text → Type 0
NoBreak = All (λ c. is_unbroken c ≡ true)

abbrev pub commented : Text → Text → Text
commented body note = body ++ (b'-' ∷ b'-' ∷ note)

digits_onto-NoBreak : (fuel n : ℕ) (acc : Text) → NoBreak acc → NoBreak (digits_onto fuel n acc)
unfolding digits_onto
digits_onto-NoBreak zero n acc h = h
digits_onto-NoBreak (suc fuel) n acc h =
    let later = digits_onto-NoBreak fuel (n / 10) ((b'0' + n % 10) ∷ acc) (ground arith, h) in
    elim (Bool-cases (ltb n 10)) [
      | inl small ↦ rw small (ground arith, h)
      | inr large ↦ rw large later
    ]

decimal-NoBreak : (n : ℕ) → NoBreak (decimal n)
unfolding decimal
decimal-NoBreak n = digits_onto-NoBreak (suc n) n [] tt

span-NoBreak : (s : Text) → NoBreak s → (span is_unbroken s).1 ≡ []
unfolding span
span-NoBreak [] h = refl
span-NoBreak (c ∷ s) h = rw (span, h.0) (span-NoBreak s h.1)

strip_token-ordinary :
    (d : Dialect) (c : ℕ) (s : Text) → is_ordinary c ≡ true → strip_token d c s ≡ kept c s
unfolding strip_token
strip_token-ordinary d c s h = ground arith

strip_token-comment :
    (d : Dialect) (note : Text) → NoBreak note → strip_token d b'-' (b'-' ∷ note) ≡ skipped []
unfolding strip_token line_comment span
strip_token-comment postgres note h = ap skipped (span-NoBreak note h)
strip_token-comment mysql note h = ap skipped (span-NoBreak note h)
strip_token-comment sqlserver note h = ap skipped (span-NoBreak note h)
strip_token-comment oracle note h = ap skipped (span-NoBreak note h)
strip_token-comment other note h = ap skipped (span-NoBreak note h)

strip_loop-commented :
    (d : Dialect) (fuel : ℕ) (body note : Text)
    → AreOrdinary body
    → NoBreak note
    → length (commented body note) ≤ fuel
    → strip_loop d fuel (commented body note) ≡ some body
unfolding strip_loop
strip_loop-commented d zero [] note hb hn enough = absurd (omega arith)
strip_loop-commented d (suc fuel) [] note hb hn enough =
    rw (strip_token-comment d note hn, strip_loop) refl
strip_loop-commented d zero (c ∷ body) note hb hn enough = absurd (omega arith)
strip_loop-commented d (suc fuel) (c ∷ body) note hb hn enough =
    rw
      (
        strip_token-ordinary d c (commented body note) hb.0,
        strip_loop,
        strip_loop-commented d fuel body note hb.1 hn (omega arith),
      )
      refl

commented-append : (body note w : Text) → commented body note ++ w ≡ commented body (note ++ w)
commented-append [] note w = refl
commented-append (c ∷ body) note w = ap (λ t. c ∷ t) (commented-append body note w)

unbroken : (s : Text) → all is_unbroken s ≡ true → NoBreak s
unbroken s h = all-All is_unbroken s h

NoBreak-append : (s t : Text) → NoBreak s → NoBreak t → NoBreak (s ++ t)
NoBreak-append s t hs ht = All-append (λ c. is_unbroken c ≡ true) s t hs ht

-- Words, a number, and what follows.
NoBreak-numbered :
    (s : Text) (n : ℕ) (t : Text)
    → all is_unbroken s ≡ true
    → NoBreak t
    → NoBreak (s ++ (decimal n ++ t))
NoBreak-numbered s n t hs ht =
    NoBreak-append s (decimal n ++ t) (unbroken s hs)
      (NoBreak-append (decimal n) t (decimal-NoBreak n) ht)

fetch_next-NoBreak : (n : ℕ) → NoBreak (page_text sqlserver n true)
unfolding page_text
fetch_next-NoBreak n =
    NoBreak-numbered (codes " OFFSET @p") (n + 1)
      (codes " ROWS FETCH NEXT @p" ++ (decimal (n + 2) ++ codes " ROWS ONLY")) refl
      (NoBreak-numbered (codes " ROWS FETCH NEXT @p") (n + 2) (codes " ROWS ONLY") refl
        (unbroken (codes " ROWS ONLY") refl))

page_text-NoBreak : (d : Dialect) (n : ℕ) (ordered : Bool) → NoBreak (page_text d n ordered)
unfolding page_text
page_text-NoBreak postgres n ordered =
    NoBreak-numbered (codes " LIMIT $") (n + 1) (codes " OFFSET $" ++ decimal (n + 2)) refl (
      NoBreak-append (codes " OFFSET $") (decimal (n + 2)) (unbroken (codes " OFFSET $") refl)
        (decimal-NoBreak (n + 2)))
page_text-NoBreak mysql n ordered = unbroken (codes " LIMIT ?, ?") refl
page_text-NoBreak sqlserver n true = fetch_next-NoBreak n
page_text-NoBreak sqlserver n false =
    NoBreak-append (codes " ORDER BY (SELECT 1)") (page_text sqlserver n true)
      (unbroken (codes " ORDER BY (SELECT 1)") refl) (fetch_next-NoBreak n)
page_text-NoBreak oracle n ordered =
    NoBreak-numbered (codes " OFFSET :") (n + 1)
      (codes " ROWS FETCH NEXT :" ++ (decimal (n + 2) ++ codes " ROWS ONLY")) refl
      (NoBreak-numbered (codes " ROWS FETCH NEXT :") (n + 2) (codes " ROWS ONLY") refl
        (unbroken (codes " ROWS ONLY") refl))
page_text-NoBreak other n ordered = tt

-- What StripDialect leaves of a statement.
abbrev pub visible : Dialect → Text → Option Text
visible d sql = strip_dialect (length sql) sql d

visible-commented :
    (d : Dialect) (body note : Text)
    → AreOrdinary body
    → NoBreak note
    → visible d (commented body note) ≡ some body
unfolding strip_dialect
visible-commented d body note hb hn =
    strip_loop-commented d (length (commented body note)) body note hb hn (omega arith)

-- A query that ends in a line comment, whose text before it begins no quote, comment, cast or
-- parameter, and which begins and ends with no blank and ends with no semicolon: whatever the dialect,
-- the arguments, the limit and the offset are, what StripDialect leaves of the SQL with its page is the
-- text before the comment. The page stands inside of the comment.
pub comment_swallows_page :
    {A : Type 0} (int : ℤ → A) (args : List A) (d : Dialect) (body note : Text) (limit offset : ℤ)
    → AreOrdinary body
    → NoBreak note
    → base_query (commented body note) ≡ commented body note
    → visible d (apply_pagination int (commented body note) args d limit offset).0 ≡ some body
unfolding apply_pagination with_page
comment_swallows_page int args d body note (negsuc n) offset hb hn whole =
    visible-commented d body note hb hn
comment_swallows_page int args d body note (pos zero) offset hb hn whole =
    visible-commented d body note hb hn
comment_swallows_page int args d body note (pos (suc n)) offset hb hn whole =
    let query = commented body note in
    let page = page_text d (length args) (has_order_by query) in
    let swallowed =
      visible-commented d body (note ++ page) hb
        (NoBreak-append note page hn (page_text-NoBreak d (length args) (has_order_by query))) in
    rw (whole, commented-append body note page) swallowed
