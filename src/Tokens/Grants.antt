-- ===== src/Tokens/Grants.antt =====
-- internal/authservice/service.go: every token that is granted stays within the scopes of its client.
use mathlib.Core.Option.{some-injective}
use ddag.Base.{
  ℕ, ◌≡◌, refl, sym, subst, ◌∙◌, true, false, Bool-cases, Option-cases, inl, inr, Option, none,
  some, Text, codes, eq_text, positive_or, [], ◌∷◌,
}
use ddag.Models.{Client, RefreshToken, is_empty}
use ddag.Tokens.{
  Table, TokenRequest, Env, Event, create_refresh_token, consume_refresh_token,
  revoke_client_refresh_tokens, delete_expired_refresh_tokens, persisted, issue_with, issue_tokens,
  issue_resolved, credentials_of, client_credentials, refresh_client, refresh_consumed, refresh,
  handle_token, handle_revoke, token_or, step, resolve_scope,
}
use ddag.Tokens.Scopes.{Within, resolve_scope-Within}
use ddag.Tokens.Rows.{
  IsDirectory, RowIsScoped, TableIsScoped, IsScoped, set_row-IsScoped, consumed-IsScoped,
  revoke-IsScoped, revoked_for-IsScoped, kept_since-IsScoped,
}

module _ (env : Env) (now : ℕ) (random : Option Text) (client : Client) (scope : Text)
    (active : eq_text client.status (codes "active") ≡ true)
    (pk : env.client_by_pk client.id ≡ some client) (within : Within scope client.scopes) where
  new_row-IsScoped :
      (expires_at : ℕ)
      → RowIsScoped env (
          some record {
            client_id = client.id;
            scope = scope;
            expires_at = expires_at;
            revoked = false;
          })
  new_row-IsScoped expires_at r c e found =
      let q : RefreshToken = record {
        client_id = client.id;
        scope = scope;
        expires_at = expires_at;
        revoked = false;
      } in
      let same : q ≡ r = some-injective _ _ e in
      let owner : some client ≡ some c =
        sym pk ∙ subst (λ x. env.client_by_pk x.client_id ≡ some c) (sym same) found in
      subst (λ x. Within x.scope c.scopes) same
        (subst (λ x. Within scope x.scopes) (some-injective _ _ owner) within)

  persisted-IsScoped :
      (t : Table) (access drawn : Text) (ttl : ℕ) (k : Text) (expires_at : ℕ)
      → env.issue_access_token client.client_id scope ttl ≡ some access
      → TableIsScoped env t
      → IsScoped env (
          persisted env now random t access drawn ttl scope
            (create_refresh_token k client.id scope expires_at t))
  unfolding persisted create_refresh_token
  persisted-IsScoped t access drawn ttl k expires_at signed table = elim (Option-cases (t k)) [
    | inl e ↦
        rw (e, persisted, create_refresh_token)
          (
            set_row-IsScoped env k _ t (new_row-IsScoped expires_at) table,
            (client, active, pk, signed, within),
          )
    | inr (r, e) ↦ rw (e, persisted, create_refresh_token) (table, tt)
  ]

  issue_with-IsScoped :
      (ttl : ℕ) (t : Table) (access drawn : Option Text)
      → env.issue_access_token client.client_id scope ttl ≡ access
      → TableIsScoped env t
      → IsScoped env (issue_with env now random client scope ttl t access drawn)
  unfolding issue_with
  issue_with-IsScoped ttl t none drawn signed table = (table, tt)
  issue_with-IsScoped ttl t (some access) none signed table = (table, tt)
  issue_with-IsScoped ttl t (some access) (some drawn) signed table =
      persisted-IsScoped t access drawn ttl (env.hash_token drawn) _ signed table

  issue_tokens-IsScoped :
      (t : Table) → TableIsScoped env t → IsScoped env (issue_tokens env now random client scope t)
  unfolding issue_tokens
  issue_tokens-IsScoped t table =
      issue_with-IsScoped _ t
        (env.issue_access_token client.client_id scope
          (positive_or env.access_token_ttl client.access_token_ttl_seconds))
        random refl table

module _ (env : Env) (directory : IsDirectory env) (now : ℕ) (random : Option Text) where
  refresh_client-IsScoped :
      (r : RefreshToken) (t : Table) (o : Option Client)
      → env.client_by_pk r.client_id ≡ o
      → RowIsScoped env (some r)
      → TableIsScoped env t
      → IsScoped env (refresh_client env now random r.scope t o)
  unfolding refresh_client
  refresh_client-IsScoped r t none e row table = (table, tt)
  refresh_client-IsScoped r t (some client) e row table =
      elim (Bool-cases (eq_text client.status (codes "active"))) [
        | inl active ↦ rw active (
            issue_tokens-IsScoped env now random client r.scope active
              (directory.by_pk_id r.client_id client e) (row r client refl e) t table)
        | inr bad ↦ rw bad (table, tt)
      ]

  refresh_consumed-IsScoped :
      (p : Table × Option RefreshToken)
      → TableIsScoped env p.0
      → RowIsScoped env p.1
      → IsScoped env (refresh_consumed env now random p)
  unfolding refresh_consumed
  refresh_consumed-IsScoped (t, none) table row = (table, tt)
  refresh_consumed-IsScoped (t, some r) table row =
      refresh_client-IsScoped r t (env.client_by_pk r.client_id) refl row table

  refresh-IsScoped :
      (token : Text) (t : Table)
      → TableIsScoped env t
      → IsScoped env (refresh env now random token t)
  unfolding refresh consume_refresh_token
  refresh-IsScoped [] t table = (table, tt)
  refresh-IsScoped (c ∷ token) t table =
      let (after, row) = consumed-IsScoped env now (env.hash_token (c ∷ token)) t _ refl table in
      refresh_consumed-IsScoped _ after row

  credentials_of-IsScoped :
      (req : TokenRequest) (t : Table) (o : Option Client)
      → env.client_by_client_id req.client_id ≡ o
      → TableIsScoped env t
      → IsScoped env (credentials_of env now random req t o)
  unfolding credentials_of issue_resolved
  credentials_of-IsScoped req t none e table = (table, tt)
  credentials_of-IsScoped req t (some client) e table =
      elim (Bool-cases (eq_text client.status (codes "active"))) [
        | inr bad ↦ rw bad (table, tt)
        | inl active ↦
            elim (Bool-cases (env.check_password client.client_secret_hash req.client_secret)) [
              | inr bad ↦ rw (active, bad) (table, tt)
              | inl good ↦ elim (Option-cases (resolve_scope req.scope client.scopes)) [
                | inl none' ↦ rw (active, good, none') (table, tt)
                | inr (scope, found) ↦
                    rw (active, good, found)
                      (issue_tokens-IsScoped env now random client scope active
                        (directory.by_client_id req.client_id client e)
                        (resolve_scope-Within req.scope client.scopes scope
                          (directory.scopes req.client_id client e) found)
                        t table)
              ]
            ]
      ]

  handle_token-IsScoped :
      (req : TokenRequest) (t : Table)
      → TableIsScoped env t
      → IsScoped env (handle_token env now random req t)
  unfolding handle_token client_credentials
  handle_token-IsScoped req t table =
      elim (Bool-cases (eq_text req.grant_type (codes "client_credentials"))) [
        | inl e ↦
            rw e (credentials_of-IsScoped req t (env.client_by_client_id req.client_id) refl table)
        | inr e ↦ elim (Bool-cases (eq_text req.grant_type (codes "refresh_token"))) [
          | inl e' ↦ rw (e, e') (refresh-IsScoped req.refresh_token t table)
          | inr e' ↦ rw (e, e') (table, tt)
        ]
      ]

handle_revoke-IsScoped :
    (env : Env) (req : TokenRequest) (t : Table)
    → TableIsScoped env t
    → IsScoped env (handle_revoke env req t)
unfolding handle_revoke
handle_revoke-IsScoped env req t table =
    elim (Bool-cases (is_empty (token_or req.token req.refresh_token))) [
      | inl e ↦ rw e (table, tt)
      | inr e ↦
          rw e (
            revoke-IsScoped env (env.hash_token (token_or req.token req.refresh_token)) t table,
            tt,
          )
    ]

-- Where the directory of clients stays the same and none of their scopes is empty or has a space: every
-- request, revocation and purge keeps the scope of each refresh token within the scopes of its client,
-- and an access token is granted only to an active client, signed for that client, with a scope
-- within its scopes.
pub step-IsScoped :
    (env : Env) (now : ℕ) (e : Event) (t : Table)
    → IsDirectory env
    → TableIsScoped env t
    → IsScoped env (step env now e t)
unfolding step revoke_client_refresh_tokens delete_expired_refresh_tokens
step-IsScoped env now (Event.token random req) t directory table =
    handle_token-IsScoped env directory now random req t table
step-IsScoped env now (Event.refreshing random req) t directory table =
    refresh-IsScoped env directory now random req.refresh_token t table
step-IsScoped env now (Event.revoking req) t directory table =
    handle_revoke-IsScoped env req t table
step-IsScoped env now (Event.revoking_client client_id) t directory table =
    (λ hash. revoked_for-IsScoped env client_id (t hash) (table hash), tt)
step-IsScoped env now (Event.purging retention) t directory table =
    (λ hash. kept_since-IsScoped env _ (t hash) (table hash), tt)
