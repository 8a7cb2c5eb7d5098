-- ===== src/Tokens/Tests.antt =====
-- A refresh token that is used twice.
use mathlib.Core.Option.{some-injective}
use ddag.Base.{
  ℕ, ◌≤◌, ◌≡◌, refl, subst, Bool-cases, inl, inr, All, none, some, Option, List, [], ◌∷◌, ◌++◌, pos,
  Text, codes, eq_text, if◌then◌else◌,
}
use ddag.Models.{Client}
use ddag.Policy.Scope.{IsScope, no_space}
use ddag.Tokens
use ddag.Tokens.{
  Table, Env, TokenRequest, Event, Response, step, handle_token, refresh, issue_tokens,
}
use ddag.Tokens.SingleUse.{pairs_for, pairs_for-le}
use ddag.Tokens.Rows.{IsDirectory, IsScoped}
use ddag.Tokens.Grants.{step-IsScoped}

abbrev app : Client
app = record {
  id = codes "1";
  client_id = codes "app";
  client_secret_hash = codes "pw";
  status = codes "active";
  access_token_ttl_seconds = pos 0;
  refresh_token_ttl_seconds = pos 600;
  scopes = codes "read" ∷ codes "write" ∷ [];
  apis = [];
}

abbrev found : Text → Option Client
found id = if eq_text id (codes "1") then some app else none

abbrev env : Env
env = record {
  hash_token = λ s. s;
  check_password = eq_text;
  client_by_client_id = λ id. some app;
  client_by_pk = found;
  issue_access_token = λ id scope ttl. some (id ++ scope);
  access_token_ttl = 300;
  refresh_token_ttl = 3600;
}

abbrev asking : TokenRequest
asking = record {
  grant_type = codes "client_credentials";
  client_id = codes "app";
  client_secret = codes "pw";
  scope = codes "read";
  refresh_token = codes "t";
  token = [];
}

abbrev empty : Table
empty hash = none

abbrev twice : List (ℕ × Event)
twice =
    (10, Event.refreshing (some (codes "u")) asking)
    ∷ (11, Event.refreshing (some (codes "v")) asking)
    ∷ []

-- The first answer, and the table with the token `t`.
abbrev first : Table × Response
first = step env 5 (Event.token (some (codes "t")) asking) empty

first_granted : first.1 ≡ Tokens.granted (codes "appread") (codes "t") 300 (codes "read")
unfolding step eq_text
first_granted = refl

one_pair : pairs_for env (codes "t") twice first.0 ≡ 1
unfolding step pairs_for eq_text
one_pair = refl

pairs_for-le_example : pairs_for env (codes "t") twice first.0 ≤ 1
unfolding eq_text
pairs_for-le_example = pairs_for-le env (codes "t") twice first.0 (refl, (refl, tt))

found-app : (id : Text) (c : Client) → found id ≡ some c → app ≡ c
found-app id c h = elim (Bool-cases (eq_text id (codes "1"))) [
  | inl e ↦ some-injective _ _ (rw e at h)
  | inr e ↦ let bad : none ≡ some c = rw e at h in cc
]

IsRegistered : Client → Type 0
IsRegistered c = (found c.id ≡ some c) × All IsScope c.scopes

app-IsRegistered : IsRegistered app
unfolding IsRegistered eq_text no_space
app-IsRegistered = (refl, ((refl, refl), ((refl, refl), tt)))

env-IsDirectory : IsDirectory env
unfolding IsRegistered
env-IsDirectory = record {
  by_pk_id = λ id c h. (subst IsRegistered (found-app id c h) app-IsRegistered).0;
  by_client_id = λ id c h. (subst IsRegistered (some-injective _ _ h) app-IsRegistered).0;
  scopes = λ id c h. (subst IsRegistered (some-injective _ _ h) app-IsRegistered).1;
}

step-IsScoped_example : IsScoped env first
step-IsScoped_example =
    step-IsScoped env 5 (Event.token (some (codes "t")) asking) empty env-IsDirectory
      (λ hash r c bad pk s h. cc)
