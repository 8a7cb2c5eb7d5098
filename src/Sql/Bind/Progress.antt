-- ===== src/Sql/Bind/Progress.antt =====
-- One turn of the loop of `bindDialect` passes over runes verbatim, and at least one of them, or it
-- stalls, which only a `$` in Postgres and a `q` in Oracle can do.
use ddag.Base.{
  ℕ, ◌+◌, ◌≤◌, ◌<◌, Bool, true, false, ◌&&◌, ◌≡◌, refl, ap, sym, ◌∙◌, Option, none, some, [], ◌∷◌,
  ◌++◌, arith, ◌==◌, if◌then◌else◌, Text, length, length-append, ==_iff, &&-true,
}
use ddag.Sql.Scan.{
  Dialect, postgres, oracle, is_postgres, is_oracle, Span, push, is_ident_part, next_is, span,
  copy_delimited, block_comment, line_comment, hash_comment, dollar_quote, opens_oracle_quote,
  oracle_quote,
}
use ddag.Sql.Scan.Verbatim.{
  Splits, SplitsIfFound, FoundSome, span-Splits, copy_delimited-Splits, block_comment-Splits,
  hash_comment-Splits, line_comment-Splits, dollar_quote-Splits, oracle_quote-Splits,
  dollar_quote-FoundSome, oracle_quote-FoundSome,
}
use ddag.Sql.Bind.{
  Token, copied, named, stalled, copied_span, quote_or_stall, named_span, tail, bind_token,
}

-- The runes that can begin a quote which stalls the loop.
abbrev pub may_stall : Dialect → ℕ → Bool
may_stall postgres c = c == b'$'
may_stall oracle c = c == b'q'
may_stall _ c = false

unfoldable pub Consumes : Dialect → Token → ℕ → Text → Type 0
Consumes d (copied out rest) c s = (out ++ rest ≡ c ∷ s) × (length rest ≤ length s)
Consumes d (named name rest) c s = ((b':' ∷ name) ++ rest ≡ c ∷ s) × (length rest ≤ length s)
Consumes d stalled c s = may_stall d c ≡ true

Splits-length : (p : Span) (s : Text) → Splits p s → length p.0 + length p.1 ≡ length s
Splits-length p s h = sym (length-append p.0 p.1) ∙ ap length h

copied-Consumes :
    (d : Dialect) (p : Span) (c : ℕ) (s : Text)
    → 0 < length p.0
    → Splits p (c ∷ s)
    → Consumes d (copied_span p) c s
unfolding Consumes
copied-Consumes d p c s pos h = (h, omega (arith, Splits-length p (c ∷ s) h))

quote-Consumes :
    (d : Dialect) (o : Option Span) (c : ℕ) (s : Text)
    → may_stall d c ≡ true
    → FoundSome o
    → SplitsIfFound o (c ∷ s)
    → Consumes d (quote_or_stall o) c s
unfolding Consumes
quote-Consumes d none c s stalls found h = stalls
quote-Consumes d (some p) c s stalls found h = copied-Consumes d p c s found h

ident-Consumes :
    (d : Dialect) (c : ℕ) (s : Text) → c ≡ b':' → Consumes d (named_span (span is_ident_part s)) c s
unfolding Consumes
ident-Consumes d c s e = (
  rw e (ap (◌∷◌ b':') (span-Splits is_ident_part s)),
  omega (arith, Splits-length (span is_ident_part s) s (span-Splits is_ident_part s)),
)

delimited-Consumes :
    (d : Dialect) (q c : ℕ) (s : Text) → Consumes d (copied_span (copy_delimited c q s)) c s
unfolding copy_delimited
delimited-Consumes d q c s =
    copied-Consumes d (copy_delimited c q s) c s (omega arith) (copy_delimited-Splits c q s)

hash-Consumes :
    (d : Dialect) (c : ℕ) (s : Text) → Consumes d (copied_span (hash_comment (c ∷ s))) c s
unfolding hash_comment
hash-Consumes d c s =
    copied-Consumes d (hash_comment (c ∷ s)) c s (ground arith) (hash_comment-Splits (c ∷ s))

line-Consumes :
    (d : Dialect) (c : ℕ) (s : Text)
    → c ≡ b'-'
    → Consumes d (copied_span (line_comment (c ∷ s))) c s
unfolding line_comment span
line-Consumes d c s e =
    copied-Consumes d (line_comment (c ∷ s)) c s (ground arith) (line_comment-Splits (c ∷ s))

tail-next : (x : ℕ) (s : Text) → next_is x s ≡ true → x ∷ tail s ≡ s
unfolding tail
tail-next x [] h = cc
tail-next x (e ∷ s) h = ground arith

block-Consumes :
    (d : Dialect) (c : ℕ) (s : Text)
    → next_is b'*' s ≡ true
    → Consumes d (copied_span (push c (push b'*' (block_comment false (tail s))))) c s
block-Consumes d c s h =
    copied-Consumes d (push c (push b'*' (block_comment false (tail s)))) c s (omega arith)
      (ap (◌∷◌ c) (ap (◌∷◌ b'*') (block_comment-Splits false (tail s)) ∙ tail-next b'*' s h))

cast-Consumes :
    (d : Dialect) (c : ℕ) (s : Text)
    → next_is b':' s ≡ true
    → Consumes d (copied (c ∷ b':' ∷ []) (tail s)) c s
cast-Consumes d c s h =
    copied-Consumes d (c ∷ b':' ∷ [], tail s) c s (omega arith) (ap (◌∷◌ c) (tail-next b':' s h))

one-Consumes : (d : Dialect) (c : ℕ) (s : Text) → Consumes d (copied (c ∷ []) s) c s
unfolding Consumes
one-Consumes d c s = (refl, omega arith)

-- An `if` keeps a predicate that each branch has.
if-keeps {ℓ} :
    {A : Type 0} (P : A → Type ℓ) (b : Bool) (x y : A)
    → (b ≡ true → P x)
    → P y
    → P (if b then x else y)
if-keeps P true x y h k = h refl
if-keeps P false x y h k = k

eq-of-test : (a b : ℕ) → (a == b) ≡ true → a ≡ b
eq-of-test a b = (==_iff a b).0

dollar-stalls :
    (d : Dialect) (c : ℕ)
    → (is_postgres d && c == b'$') ≡ true
    → (may_stall d c ≡ true) × (c ≡ b'$')
dollar-stalls postgres c h = ground arith
dollar-stalls _ c h = cc

quote_q-stalls :
    (d : Dialect) (c : ℕ) (o : Bool)
    → (is_oracle d && c == b'q' && o) ≡ true
    → (may_stall d c ≡ true) × (c ≡ b'q')
quote_q-stalls oracle c o h = ground arith
quote_q-stalls _ c o h = cc

pub bind_token-Consumes : (d : Dialect) (c : ℕ) (s : Text) → Consumes d (bind_token d c s) c s
unfolding bind_token
bind_token-Consumes d c s =
    let P = λ (t : Token). Consumes d t c s in
    if-keeps P _ _ _
      (λ h.
        let (stalls, e) = dollar-stalls d c h in
        quote-Consumes d (dollar_quote s) c s stalls (dollar_quote-FoundSome s)
          (rw e (dollar_quote-Splits s)))
      (if-keeps P _ _ _ (λ h. delimited-Consumes d b'`' c s)
        (if-keeps P _ _ _ (λ h. delimited-Consumes d b']' c s)
          (if-keeps P _ _ _ (λ h. delimited-Consumes d b'"' c s)
            (if-keeps P _ _ _ (λ h. hash-Consumes d c s)
              (if-keeps P _ _ _
                (λ h.
                  let (stalls, e) = quote_q-stalls d c (opens_oracle_quote s) h in
                  quote-Consumes d (oracle_quote s) c s stalls (oracle_quote-FoundSome s)
                    (rw e (oracle_quote-Splits s)))
                (if-keeps P _ _ _ (λ h. delimited-Consumes d b'\'' c s)
                  (if-keeps P _ _ _ (λ h. line-Consumes d c s (eq-of-test c b'-' (&&-true _ _ h).0))
                    (if-keeps P _ _ _ (λ h. block-Consumes d c s (&&-true _ _ h).1)
                      (if-keeps P _ _ _ (λ h. cast-Consumes d c s (&&-true _ _ h).1)
                        (if-keeps P _ _ _
                          (λ h. ident-Consumes d c s (eq-of-test c b':' (&&-true _ _ h).0))
                          (one-Consumes d c s)))))))))))
