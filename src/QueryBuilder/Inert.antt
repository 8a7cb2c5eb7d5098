-- ===== src/QueryBuilder/Inert.antt =====
-- internal/gateway/querybuilder.go: which characters the built SQL consists of.
use ddag.Base.{
  join, arith, ℕ, zero, suc, ◌+◌, ◌/◌, ◌%◌, ◌≡◌, refl, subst, Bool, true, ◌&&◌, ◌||◌, Option, none,
  some, List, [], ◌∷◌, ◌++◌, ◌==◌, ltb, Text, codes, all, All, All-append, all-All, Bool-cases,
  Option-cases, inl, inr, &&-true, eq_text, eq_text→eq,
}
use ddag.Models.{is_space, trim_space, trim_left, trim_right, to_upper, is_empty}
use ddag.Sql.Bind.{decimal, digits_onto}
use ddag.QueryBuilder.Names.{
  is_name_part, is_alias, cut, qualified, safe_ident, as_alias, column_as, is_select_column,
  is_aggregate_name, behind_aggregate, aggregate_argument, aggregate_call, is_select_aggregate,
  safe_select,
}

-- Letters, digits and white space, and `_ . , ( ) * = < > :`. No quote, no semicolon, and none of the
-- characters that begin a comment.
abbrev pub is_inert : ℕ → Bool
is_inert c =
    is_name_part c
    || is_space c
    || c == b'.'
    || c == b','
    || c == b'('
    || c == b')'
    || c == b'*'
    || c == b'='
    || c == b'<'
    || c == b'>'
    || c == b':'

abbrev pub IsInert : Text → Type 0
IsInert = All (λ c. is_inert c ≡ true)

pub IsInert-append : (s t : Text) → IsInert s → IsInert t → IsInert (s ++ t)
IsInert-append s t hs ht = All-append (λ c. is_inert c ≡ true) s t hs ht

-- A literal, which the test runs on, before a text.
pub IsInert-behind : (s t : Text) → all is_inert s ≡ true → IsInert t → IsInert (s ++ t)
IsInert-behind s t hs ht = IsInert-append s t (all-All is_inert s hs) ht

pub IsInert-join :
    (sep : Text) (ts : List Text) → IsInert sep → All IsInert ts → IsInert (join sep ts)
unfolding join
IsInert-join sep [] hs h = tt
IsInert-join sep (s ∷ []) hs h = h.0
IsInert-join sep (s ∷ t ∷ ts) hs h =
    All-append _ s _ h.0 (All-append _ sep _ hs (IsInert-join sep (t ∷ ts) hs h.1))

IsInert-name : (s : Text) → all is_name_part s ≡ true → IsInert s
IsInert-name [] h = tt
IsInert-name (c ∷ s) h = (ground (arith, h), IsInert-name s (ground (arith, h)))

pub IsInert-alias : (s : Text) → is_alias s ≡ true → IsInert s
IsInert-alias [] h = tt
IsInert-alias (c ∷ s) h = (ground (arith, h), IsInert-name s (ground (arith, h)))

-- A text is what stands before its first separator, the separator, and the rest.
cut-append : (sep : ℕ) (s : Text) (p : Text × Text) → cut sep s ≡ some p → s ≡ p.0 ++ (sep ∷ p.1)
unfolding cut
cut-append sep [] p h = ground (arith, h)
cut-append sep (c ∷ s) p h = elim (Bool-cases (c == sep)) [
  | inl same ↦ ground (arith, h, same)
  | inr other ↦ elim (Option-cases (cut sep s)) [
    | inl e ↦ ground (arith, h, other, e)
    | inr (q, e) ↦ ground (arith, h, other, e, cut-append sep s q e)
  ]
]

IsInert-cut :
    (sep : ℕ) (s : Text) (p : Text × Text)
    → cut sep s ≡ some p
    → is_inert sep ≡ true
    → IsInert p.0
    → IsInert p.1
    → IsInert s
IsInert-cut sep s p h hsep h0 h1 =
    rw (cut-append sep s p h) (All-append _ p.0 (sep ∷ p.1) h0 (hsep, h1))

IsInert-qualified :
    (v : Text) → (o : Option (Text × Text)) → cut b'.' v ≡ o → qualified v o ≡ true → IsInert v
IsInert-qualified v none e h = IsInert-alias v h
IsInert-qualified v (some p) e h =
    let (l, r) = &&-true _ _ h in
    IsInert-cut b'.' v p e refl (IsInert-alias p.0 l) (IsInert-alias p.1 r)

pub IsInert-ident : (v : Text) → safe_ident v ≡ true → IsInert v
unfolding safe_ident
IsInert-ident v h = IsInert-qualified v (cut b'.' v) refl h

IsInert-as : (v : Text) → as_alias v ≡ true → IsInert v
IsInert-as [] h = tt
IsInert-as (a ∷ []) h = ground (arith, h)
IsInert-as (a ∷ s ∷ []) h = ground (arith, h)
IsInert-as (a ∷ s ∷ b ∷ name) h = (
  ground (arith, h),
  (ground (arith, h), (ground (arith, h), IsInert-alias name (ground (arith, h)))),
)

IsInert-column_as :
    (v : Text) → (o : Option (Text × Text)) → cut b' ' v ≡ o → column_as v o ≡ true → IsInert v
IsInert-column_as v none e h = IsInert-ident v h
IsInert-column_as v (some p) e h =
    let (l, r) = &&-true _ _ h in
    IsInert-cut b' ' v p e refl (IsInert-ident p.0 l) (IsInert-as p.1 r)

IsInert-behind_aggregate : (v : Text) → behind_aggregate v ≡ true → IsInert v
IsInert-behind_aggregate [] h = tt
IsInert-behind_aggregate (b ∷ s) h = (ground (arith, h), IsInert-as s (ground (arith, h)))

-- A text that is equal to a literal that the test computes on.
IsInert-literal : (v w : Text) → all is_inert w ≡ true → eq_text v w ≡ true → IsInert v
IsInert-literal v w h e = rw (eq_text→eq v w e) (all-All is_inert w h)

IsInert-aggregate_name : (v : Text) → is_aggregate_name v ≡ true → IsInert v
IsInert-aggregate_name v h = ground (
  arith,
  h,
  IsInert-literal v (codes "COUNT") refl,
  IsInert-literal v (codes "SUM") refl,
  IsInert-literal v (codes "AVG") refl,
  IsInert-literal v (codes "MIN") refl,
  IsInert-literal v (codes "MAX") refl,
)

IsInert-argument :
    (v : Text)
    → (o : Option (Text × Text)) → cut b')' v ≡ o
    → aggregate_argument o ≡ true
    → IsInert v
IsInert-argument v none e h = ground (arith, h)
IsInert-argument v (some p) e h =
    let (l, r) = &&-true (safe_ident p.0 || eq_text p.0 (codes "*")) (behind_aggregate p.1) h in
    IsInert-cut b')' v p e refl
      (elim (Bool-cases (safe_ident p.0)) [
        | inl i ↦ IsInert-ident p.0 i
        | inr i ↦ IsInert-literal p.0 (codes "*") refl (ground (arith, l, i))
      ])
      (IsInert-behind_aggregate p.1 r)

IsInert-call :
    (v : Text) → (o : Option (Text × Text)) → cut b'(' v ≡ o → aggregate_call o ≡ true → IsInert v
IsInert-call v none e h = ground (arith, h)
IsInert-call v (some p) e h =
    let (l, r) = &&-true _ _ h in
    IsInert-cut b'(' v p e refl (IsInert-aggregate_name p.0 l)
      (IsInert-argument p.1 (cut b')' p.1) refl r)

-- Upper-casing and trimming hide no other character.
IsInert-upper : (v : Text) → IsInert (to_upper v) → IsInert v
IsInert-upper [] h = tt
IsInert-upper (c ∷ v) h = (ground (arith, h.0), IsInert-upper v h.1)

IsInert-empty : (v : Text) → is_empty v ≡ true → IsInert v
IsInert-empty [] h = tt
IsInert-empty (c ∷ v) h = ground (arith, h)

IsInert-trim_right : (v : Text) → IsInert (trim_right is_space v) → IsInert v
unfolding trim_right
IsInert-trim_right [] h = tt
IsInert-trim_right (c ∷ v) h = elim (Bool-cases (is_empty (trim_right is_space v) && is_space c)) [
  | inl e ↦
      let (l, r) = &&-true _ _ e in (ground (arith, r), IsInert-trim_right v (IsInert-empty _ l))
  | inr e ↦
      let kept : IsInert (c ∷ trim_right is_space v) =
        subst IsInert {y = c ∷ trim_right is_space v} (ground (arith, e)) h in
      (kept.0, IsInert-trim_right v kept.1)
]

IsInert-trim_left : (v : Text) → IsInert (trim_left is_space v) → IsInert v
unfolding trim_left
IsInert-trim_left [] h = tt
IsInert-trim_left (c ∷ v) h = elim (Bool-cases (is_space c)) [
  | inl e ↦ (
    ground (arith, e),
    IsInert-trim_left v (subst IsInert {y = trim_left is_space v} (ground (arith, e)) h),
  )
  | inr e ↦ subst IsInert {y = c ∷ v} (ground (arith, e)) h
]

pub IsInert-select : (v : Text) → safe_select v ≡ true → IsInert v
unfolding safe_select is_select_column is_select_aggregate
IsInert-select v h = elim (Bool-cases (is_select_column v)) [
  | inl e ↦ IsInert-column_as v (cut b' ' v) refl e
  | inr e ↦ IsInert-trim_left v (
      IsInert-trim_right (trim_left is_space v) (
        IsInert-upper (trim_space v)
          (IsInert-call (to_upper (trim_space v)) _ refl (ground (arith, h, e)))))
]

IsInert-digits_onto : (fuel n : ℕ) (acc : Text) → IsInert acc → IsInert (digits_onto fuel n acc)
unfolding digits_onto
IsInert-digits_onto zero n acc h = h
IsInert-digits_onto (suc fuel) n acc h = elim (Bool-cases (ltb n 10)) [
  | inl e ↦ rw e (ground arith, h)
  | inr e ↦ rw e (IsInert-digits_onto fuel (n / 10) ((b'0' + n % 10) ∷ acc) (ground arith, h))
]

pub IsInert-decimal : (n : ℕ) → IsInert (decimal n)
unfolding decimal
IsInert-decimal n = IsInert-digits_onto (suc n) n [] tt
