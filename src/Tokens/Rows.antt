-- ===== src/Tokens/Rows.antt =====
-- internal/authservice/service.go: the rows of refresh tokens stay within the scopes of their clients.
use mathlib.Core.Option.{some-injective}
use ddag.Base.{
  arith, ℕ, ◌≡◌, refl, sym, subst, ltb, true, Bool-cases, Option-cases, inl, inr, Option, none,
  some, All, Text, codes, eq_text,
}
use ddag.Models.{Client, RefreshToken}
use ddag.Policy.Scope.{IsScope}
use ddag.Tokens
use ddag.Tokens.{
  Table, TokenRequest, Env, Response, Event, set_row, revoked_row, create_refresh_token, live,
  consumed, consume_refresh_token, revoke_refresh_token, revoked_for, kept_since,
  revoke_client_refresh_tokens, delete_expired_refresh_tokens, persisted, issue_with, issue_tokens,
  issue_resolved, credentials_of, client_credentials, refresh_client, refresh_consumed, refresh,
  handle_token, handle_revoke, token_or, step, resolve_scope,
}
use ddag.Tokens.Scopes.{Within}

-- The two lookups of clients agree, and no scope of a client is empty or has a space.
pub record IsDirectory (env : Env) : Type 0 where
  pub by_pk_id :
      (id : Text) (c : Client) → env.client_by_pk id ≡ some c → env.client_by_pk c.id ≡ some c
  pub by_client_id :
      (id : Text) (c : Client)
      → env.client_by_client_id id ≡ some c
      → env.client_by_pk c.id ≡ some c
  pub scopes : (id : Text) (c : Client) → env.client_by_client_id id ≡ some c → All IsScope c.scopes

-- The scope of each row lies within the scopes of its client.
abbrev pub RowIsScoped : Env → Option RefreshToken → Type 0
RowIsScoped env o =
    (r : RefreshToken) (c : Client)
    → o ≡ some r
    → env.client_by_pk r.client_id ≡ some c
    → Within r.scope c.scopes

abbrev pub TableIsScoped : Env → Table → Type 0
TableIsScoped env t = (hash : Text) → RowIsScoped env (t hash)

-- A granted access token is one that was signed for an active client, with a scope within its scopes.
abbrev pub ResponseIsScoped : Env → Response → Type 0
ResponseIsScoped env (Tokens.granted access token ttl scope) =
    (c : Client) × (eq_text c.status (codes "active") ≡ true)
    × (env.client_by_pk c.id ≡ some c)
    × (env.issue_access_token c.client_id scope ttl ≡ some access)
    × Within scope c.scopes
ResponseIsScoped env _ = Unit

abbrev pub IsScoped : Env → Table × Response → Type 0
IsScoped env p = TableIsScoped env p.0 × ResponseIsScoped env p.1

module _ (env : Env) where
  pub set_row-IsScoped :
      (k : Text) (r : RefreshToken) (t : Table)
      → RowIsScoped env (some r)
      → TableIsScoped env t
      → TableIsScoped env (set_row k r t)
  unfolding set_row
  set_row-IsScoped k r t row table hash = elim (Bool-cases (eq_text k hash)) [
    | inl e ↦ rw e row
    | inr e ↦ rw e (table hash)
  ]

  pub revoked_row-IsScoped :
      (r : RefreshToken) → RowIsScoped env (some r) → RowIsScoped env (some (revoked_row r))
  revoked_row-IsScoped r row q c e found =
      let same : revoked_row r ≡ q = some-injective _ _ e in
      subst (λ x. Within x.scope c.scopes) same
        (row r c refl (subst (λ x. env.client_by_pk x.client_id ≡ some c) (sym same) found))

  live-some :
      (now : ℕ) (o : Option RefreshToken) (r : RefreshToken) → live now o ≡ some r → o ≡ some r
  live-some now none r h = cc
  live-some now (some q) r h = ground (arith, h)

  -- A consumed row was there, with its client and scope.
  pub consumed-IsScoped :
      (now : ℕ) (k : Text) (t : Table) (o : Option RefreshToken)
      → live now (t k) ≡ o
      → TableIsScoped env t
      → TableIsScoped env (consumed k t o).0 × RowIsScoped env (consumed k t o).1
  consumed-IsScoped now k t none e table = (table, λ r c no found s h. cc)
  consumed-IsScoped now k t (some r) e table =
      let row : RowIsScoped env (some r) =
        subst (RowIsScoped env) (live-some now (t k) r e) (table k) in
      (set_row-IsScoped k (revoked_row r) t (revoked_row-IsScoped r row) table, row)

  pub revoke-IsScoped :
      (k : Text) (t : Table) → TableIsScoped env t → TableIsScoped env (revoke_refresh_token k t).0
  unfolding revoke_refresh_token
  revoke-IsScoped k t table = elim (Option-cases (t k)) [
    | inl e ↦ rw e table
    | inr (r, e) ↦ rw e (
        set_row-IsScoped k (revoked_row r) t
          (revoked_row-IsScoped r (subst (RowIsScoped env) e (table k))) table)
  ]

  pub revoked_for-IsScoped :
      (client_id : Text) (o : Option RefreshToken)
      → RowIsScoped env o
      → RowIsScoped env (revoked_for client_id o)
  revoked_for-IsScoped client_id none row = row
  revoked_for-IsScoped client_id (some r) row = elim (Bool-cases (eq_text r.client_id client_id)) [
    | inl e ↦ rw e (revoked_row-IsScoped r row)
    | inr e ↦ rw e row
  ]

  pub kept_since-IsScoped :
      (cutoff : ℕ) (o : Option RefreshToken)
      → RowIsScoped env o
      → RowIsScoped env (kept_since cutoff o)
  kept_since-IsScoped cutoff none row = row
  kept_since-IsScoped cutoff (some r) row = elim (Bool-cases (ltb r.expires_at cutoff)) [
    | inl e ↦ rw e (λ q c no found s h. cc)
    | inr e ↦ rw e row
  ]
