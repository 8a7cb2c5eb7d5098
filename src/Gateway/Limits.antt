-- ===== src/Gateway/Limits.antt =====
-- internal/gatewaysvc/service.go: the page that a request asks for (`effectiveLimit`, `pagination`).
-- A query parameter that is not there is the empty text, as `Get` returns it. An `int` has 64 bits:
-- `int64` is its wrap-around.
use ddag.Base.{
  arith, ℕ, zero, suc, ◌+◌, ◌-◌, ◌*◌, ◌/◌, ◌%◌, ◌≤◌, ◌<◌, ◌≡◌, ◌∙◌, refl, ◌&&◌, Option, none, some,
  [], ◌∷◌, if◌then◌else◌, ltb, leb, ◌==◌, ℤ, pos, negsuc, nonneg, positive_or, Text,
}

abbrev two_to_63 : ℕ
two_to_63 = 9223372036854775808

abbrev two_to_64 : ℕ
two_to_64 = 18446744073709551616

-- A natural number as 64 bits of two's complement.
unfoldable pub int64 : ℕ → ℤ
int64 n = let r = n % two_to_64 in if ltb r two_to_63 then pos r else negsuc (two_to_64 - 1 - r)

-- `strconv.Atoi`: an optional sign and decimal digits, within 64 bits.
unfoldable pub digits : ℕ → Text → Option ℕ
digits n [] = some n
digits n (c ∷ s) = if leb b'0' c && leb c b'9' then digits (n * 10 + (c - b'0')) s else none

abbrev pub negate : ℕ → ℤ
negate zero = pos zero
negate (suc n) = negsuc n

positive_in_range : Option ℕ → Option ℤ
positive_in_range none = none
positive_in_range (some n) = if ltb n two_to_63 then some (pos n) else none

negative_in_range : Option ℕ → Option ℤ
negative_in_range none = none
negative_in_range (some n) = if leb n two_to_63 then some (negate n) else none

unfoldable pub unsigned : Text → Option ℕ
unfolding digits
unsigned [] = none
unsigned (c ∷ s) = digits 0 (c ∷ s)

unfoldable pub atoi : Text → Option ℤ
unfolding unsigned positive_in_range negative_in_range
atoi [] = none
atoi (c ∷ s) =
    if c == b'-'
    then negative_in_range (unsigned s)
    else if c == b'+'
    then positive_in_range (unsigned s)
    else positive_in_range (unsigned (c ∷ s))

-- `if n, err := strconv.Atoi(q); err == nil && n > 0 { limit = n }`.
abbrev pub asked_or : ℤ → Option ℤ → ℤ
asked_or limit (some (pos (suc n))) = pos (suc n)
asked_or limit _ = limit

-- `if max > 0 && limit > max { limit = max }`.
abbrev pub at_most : ℤ → ℤ → ℤ
at_most (pos (suc m)) (pos n) = if ltb (suc m) n then pos (suc m) else pos n
at_most _ limit = limit

unfoldable pub effective_limit : ℤ → ℤ → ℤ → ℤ → Option ℤ → ℕ
effective_limit api_default api_max gateway_max gateway_default asked =
    positive_or (positive_or 100 gateway_default)
      (at_most gateway_max (at_most api_max (asked_or api_default asked)))

pub record Page : Type 0 where
  pub limit : ℕ
  pub offset : ℤ
  pub page : ℤ

page_asked : Page → Option ℤ → Page
unfolding int64
page_asked p (some (pos (suc n))) = record p { page = pos (suc n); offset = int64 (n * p.limit) }
page_asked p _ = p

offset_asked : Page → Option ℤ → Page
unfolding int64
offset_asked p (some (pos n)) = record p { offset = pos n; page = int64 (n / p.limit + 1) }
offset_asked p _ = p

-- `pagination` for the limit that `effectiveLimit` gives.
unfoldable pub pagination : ℕ → Text → Text → Page
unfolding page_asked offset_asked atoi
pagination limit page offset =
    offset_asked (page_asked (record { limit = limit; offset = pos 0; page = pos 1 }) (atoi page))
      (atoi offset)

at_most-le : (m l : ℤ) → 0 < nonneg m → nonneg (at_most m l) ≤ nonneg m
at_most-le (pos zero) l h = omega (arith, h)
at_most-le (pos (suc m)) (pos n) h = ground arith
at_most-le (pos (suc m)) (negsuc n) h = omega arith
at_most-le (negsuc m) l h = omega (arith, h)

at_most-keeps :
    (m l : ℤ) → 0 < nonneg l → (0 < nonneg (at_most m l)) × (nonneg (at_most m l) ≤ nonneg l)
at_most-keeps (pos zero) l h = (h, omega arith)
at_most-keeps (pos (suc m)) (pos n) h = (ground arith, ground arith)
at_most-keeps (pos (suc m)) (negsuc n) h = (h, omega arith)
at_most-keeps (negsuc m) l h = (h, omega arith)

asked_or-positive : (l : ℤ) (asked : Option ℤ) → 0 < nonneg l → 0 < nonneg (asked_or l asked)
asked_or-positive l none h = h
asked_or-positive l (some (pos zero)) h = h
asked_or-positive l (some (pos (suc n))) h = omega arith
asked_or-positive l (some (negsuc n)) h = h

positive_or-is : (d : ℕ) (l : ℤ) → 0 < nonneg l → positive_or d l ≡ nonneg l
positive_or-is d (pos zero) h = ground (arith, h)
positive_or-is d (pos (suc n)) h = refl
positive_or-is d (negsuc n) h = ground (arith, h)

-- For an API with a positive default limit, the limit of a request is positive, whatever it asks
-- for, and at most the API's maximum and the gateway's maximum where these are positive.
pub effective_limit-le :
    (api_default api_max gateway_max gateway_default : ℤ) (asked : Option ℤ)
    → 0 < nonneg api_default
    → 0 < nonneg api_max
    → 0 < nonneg gateway_max
    → let limit = effective_limit api_default api_max gateway_max gateway_default asked in
      (0 < limit) × (limit ≤ nonneg api_max) × (limit ≤ nonneg gateway_max)
unfolding effective_limit
effective_limit-le api_default api_max gateway_max gateway_default asked hd ha hg =
    let first = asked_or api_default asked in
    let inner = at_most api_max first in
    let start = asked_or-positive api_default asked hd in
    let in_api = at_most-keeps api_max first start in
    let in_gateway = at_most-keeps gateway_max inner in_api.0 in
    let same =
      positive_or-is (positive_or 100 gateway_default) (at_most gateway_max inner) in_gateway.0 in
    (
      ground (arith, same, in_gateway.0),
      ground (arith, same, in_gateway.1, at_most-le api_max first ha),
      ground (arith, same, at_most-le gateway_max inner hg),
    )

page_asked-limit : (p : Page) (o : Option ℤ) → (page_asked p o).limit ≡ p.limit
unfolding page_asked
page_asked-limit p none = refl
page_asked-limit p (some (pos zero)) = refl
page_asked-limit p (some (pos (suc n))) = refl
page_asked-limit p (some (negsuc n)) = refl

offset_asked-limit : (p : Page) (o : Option ℤ) → (offset_asked p o).limit ≡ p.limit
unfolding offset_asked
offset_asked-limit p none = refl
offset_asked-limit p (some (pos n)) = refl
offset_asked-limit p (some (negsuc n)) = refl

pub pagination-limit :
    (limit : ℕ) (page offset : Text) → (pagination limit page offset).limit ≡ limit
unfolding pagination
pagination-limit limit page offset =
    offset_asked-limit
      (page_asked (record { limit = limit; offset = pos 0; page = pos 1 }) (atoi page))
      (atoi offset)
    ∙ page_asked-limit (record { limit = limit; offset = pos 0; page = pos 1 }) (atoi page)
