-- ===== src/Errors.antt =====
-- internal/httpx/errors.go: the error codes of the API and their HTTP statuses. A code is one of the
-- constants of the source; `http_status` is the table, which has an entry for each of them.
use ddag.Base.{ℕ, Bool, true, false, ◌≡◌, refl, subst, if◌then◌else◌}

pub data Code : Type 0 where
  bad_request payload_too_large unauthorized forbidden not_found query_timeout : Code
  conflict rate_limited internal connector_error source_db_unavailable validation : Code
  connector_unavailable db_pool_exhausted db_connect_timeout db_query_timeout : Code
  circuit_breaker_open backpressure_limit query_validation_failed scope_forbidden : Code

unfoldable pub http_status : Code → ℕ
http_status bad_request = 400
http_status payload_too_large = 413
http_status validation = 400
http_status unauthorized = 401
http_status forbidden = 403
http_status not_found = 404
http_status query_timeout = 504
http_status conflict = 409
http_status rate_limited = 429
http_status internal = 500
http_status connector_error = 502
http_status source_db_unavailable = 503
http_status connector_unavailable = 502
http_status db_pool_exhausted = 503
http_status db_connect_timeout = 504
http_status db_query_timeout = 504
http_status circuit_breaker_open = 503
http_status backpressure_limit = 503
http_status query_validation_failed = 400
http_status scope_forbidden = 403

-- A result or an API error; its message is left out.
pub data Result {ℓ} (A : Type ℓ) : Type ℓ where
  result : A → Result A
  failed : Code → Result A

infixl 5 ◌>>=◌ ◌>>◌
abbrev pub ◌>>=◌ {ℓ κ} : {A : Type ℓ} {B : Type κ} → Result A → (A → Result B) → Result B
result a >>= f = f a
failed code >>= f = failed code

abbrev pub ◌>>◌ {ℓ} : {B : Type ℓ} → Result (Unit {0}) → Result B → Result B
m >> k = m >>= λ _. k

-- `if !ok { return nil, NewError(code, …) }`.
abbrev pub guard : Bool → Code → Result (Unit {0})
guard true code = result tt
guard false code = failed code

-- Inversion of a successful chain.
pub >>=-eq-result {ℓ κ} :
    {A : Type ℓ} {B : Type κ} (m : Result A) (f : A → Result B) {b : B}
    → (m >>= f) ≡ result b
    → (a : A) × (m ≡ result a) × (f a ≡ result b)
>>=-eq-result (result a) f h = (a, refl, h)
>>=-eq-result (failed code) f h = cc

pub guard-eq-result : (b : Bool) (code : Code) → guard b code ≡ result tt → b ≡ true
guard-eq-result true code h = refl
guard-eq-result false code h = cc

-- What a result satisfies when it is there.
abbrev pub Returns {ℓ κ} : {A : Type ℓ} → (A → Type κ) → Result A → Type κ
Returns P (result a) = P a
Returns P (failed code) = Unit

pub Returns-bind {ℓ κ μ ν} :
    {A : Type ℓ} {B : Type κ} (P : A → Type μ) (Q : B → Type ν) (m : Result A) (f : A → Result B)
    → Returns P m
    → ((a : A) → P a → Returns Q (f a))
    → Returns Q (m >>= f)
Returns-bind P Q (result a) f h k = k a h
Returns-bind P Q (failed code) f h k = tt

pub Returns-if {ℓ κ} :
    {A : Type ℓ} (P : A → Type κ) (b : Bool) (m k : Result A)
    → Returns P m
    → Returns P k
    → Returns P (if b then m else k)
Returns-if P true m k h hk = h
Returns-if P false m k h hk = hk

pub Returns-guard : (b : Bool) (code : Code) → Returns (λ _. b ≡ true) (guard b code)
Returns-guard true code = refl
Returns-guard false code = tt

pub Returns-of {ℓ κ} :
    {A : Type ℓ} (P : A → Type κ) (m : Result A) {a : A} → m ≡ result a → Returns P m → P a
Returns-of P m e h = subst (Returns P) e h

pub Returns-const {ℓ κ} : {A : Type ℓ} {X : Type κ} (m : Result A) → X → Returns (λ _. X) m
Returns-const (result a) x = x
Returns-const (failed code) x = tt
