-- ===== src/Tokens/Refresh.antt =====
-- internal/authservice/service.go: how one request changes the row of a refresh token.
use ddag.Base.{
  arith, ℕ, ◌≡◌, refl, sym, subst, Bool, true, false, ◌&&◌, Bool-cases, Option-cases, inl, inr,
  Option, none, some, [], ◌∷◌, Text, codes, eq_text, eq_text→eq,
}
use ddag.Models.{Client, RefreshToken}
use ddag.Tokens
use ddag.Tokens.{
  persisted, issue_with, refresh_client, issue_resolved, credentials_of, refresh_consumed, Table,
  TokenRequest, Env, Response, Event, set_row, create_refresh_token, live, consumed,
  consume_refresh_token, revoke_refresh_token, revoke_client_refresh_tokens,
  delete_expired_refresh_tokens, issue_tokens, client_credentials, refresh, handle_token,
  handle_revoke, step,
}

-- No refresh with this hash can succeed: there is no row, or it is revoked.
abbrev pub is_dead : Option RefreshToken → Bool
is_dead none = true
is_dead (some r) = r.revoked

-- A change of the table that brings no dead hash to life.
abbrev pub Buries : Text → Table → Table → Type 0
Buries hash t after = is_dead (t hash) ≡ true → is_dead (after hash) ≡ true

abbrev pub is_granted : Response → Bool
is_granted (Tokens.granted access token ttl scope) = true
is_granted _ = false

-- The random tokens that the event draws have other hashes.
abbrev pub DrawsOther : Env → Text → Option Text → Type 0
DrawsOther env hash none = Unit
DrawsOther env hash (some drawn) = eq_text (env.hash_token drawn) hash ≡ false

abbrev pub EventDrawsOther : Env → Text → Event → Type 0
EventDrawsOther env hash (Event.token random req) = DrawsOther env hash random
EventDrawsOther env hash (Event.refreshing random req) = DrawsOther env hash random
EventDrawsOther env hash _ = Unit

-- The event is a request to refresh with a token of this hash.
abbrev pub presents : Env → Text → Event → Bool
presents env hash (Event.token random req) =
    eq_text req.grant_type (codes "refresh_token")
    && eq_text (env.hash_token req.refresh_token) hash
presents env hash (Event.refreshing random req) = eq_text (env.hash_token req.refresh_token) hash
presents env hash _ = false

pub set_row-Buries :
    (hash k : Text) (r : RefreshToken) (t : Table)
    → r.revoked ≡ true
    → Buries hash t (set_row k r t)
unfolding set_row
set_row-Buries hash k r t h dead = ground (arith, h, dead)

module _ (env : Env) (now : ℕ) (random : Option Text) (hash : Text)
    (other : DrawsOther env hash random) where
  persisted-same :
      (t : Table) (access drawn : Text) (ttl : ℕ) (scope k client_id : Text) (expires_at : ℕ)
      → eq_text k hash ≡ false
      → (persisted env now random t access drawn ttl scope
            (create_refresh_token k client_id scope expires_at t)).0
          hash
        ≡ t hash
  unfolding persisted create_refresh_token set_row
  persisted-same t access drawn ttl scope k client_id expires_at h = elim (Option-cases (t k)) [
    | inl e ↦ rw (e, persisted, create_refresh_token, h) refl
    | inr (r, e) ↦ rw (e, persisted, create_refresh_token) refl
  ]

module _ (env : Env) (now : ℕ) (hash : Text) where
  issue_with-same :
      (client : Client) (scope : Text) (ttl : ℕ) (t : Table) (access random : Option Text)
      → DrawsOther env hash random
      → (issue_with env now random client scope ttl t access random).0 hash ≡ t hash
  unfolding issue_with
  issue_with-same client scope ttl t none random other = refl
  issue_with-same client scope ttl t (some access) none other = refl
  issue_with-same client scope ttl t (some access) (some drawn) other =
      persisted-same env now (some drawn) hash other t access drawn ttl scope (env.hash_token drawn)
        client.id _ other

module _ (env : Env) (now : ℕ) (random : Option Text) (hash : Text)
    (other : DrawsOther env hash random) where
  issue_tokens-same :
      (client : Client) (scope : Text) (t : Table)
      → (issue_tokens env now random client scope t).0 hash ≡ t hash
  unfolding issue_tokens
  issue_tokens-same client scope t = issue_with-same env now hash client scope _ t _ random other

  refresh_client-same :
      (scope : Text) (t : Table) (o : Option Client)
      → (refresh_client env now random scope t o).0 hash ≡ t hash
  unfolding refresh_client
  refresh_client-same scope t none = refl
  refresh_client-same scope t (some client) =
      elim (Bool-cases (eq_text client.status (codes "active"))) [
        | inl e ↦ rw e (issue_tokens-same client scope t)
        | inr e ↦ rw e refl
      ]

  issue_resolved-same :
      (client : Client) (t : Table) (o : Option Text)
      → (issue_resolved env now random client t o).0 hash ≡ t hash
  unfolding issue_resolved
  issue_resolved-same client t none = refl
  issue_resolved-same client t (some scope) = issue_tokens-same client scope t

  credentials_of-same :
      (req : TokenRequest) (t : Table) (o : Option Client)
      → (credentials_of env now random req t o).0 hash ≡ t hash
  unfolding credentials_of
  credentials_of-same req t none = refl
  credentials_of-same req t (some client) =
      elim (Bool-cases (eq_text client.status (codes "active"))) [
        | inr e ↦ rw e refl
        | inl e ↦
            elim (Bool-cases (env.check_password client.client_secret_hash req.client_secret)) [
              | inr e' ↦ rw (e, e') refl
              | inl e' ↦ rw (e, e') (issue_resolved-same client t _)
            ]
      ]

  pub client_credentials-same :
      (req : TokenRequest) (t : Table) → (client_credentials env now random req t).0 hash ≡ t hash
  unfolding client_credentials
  client_credentials-same req t = credentials_of-same req t (env.client_by_client_id req.client_id)

  refresh_consumed-same :
      (p : Table × Option RefreshToken) → (refresh_consumed env now random p).0 hash ≡ p.0 hash
  unfolding refresh_consumed
  refresh_consumed-same (t, none) = refl
  refresh_consumed-same (t, some r) = refresh_client-same r.scope t _

  consumed-Buries :
      (k : Text) (t : Table) (o : Option RefreshToken) → Buries hash t (consumed k t o).0
  consumed-Buries k t none dead = dead
  consumed-Buries k t (some r) dead =
      set_row-Buries hash k (record r { revoked = true }) t refl dead

  pub refresh-Buries : (token : Text) (t : Table) → Buries hash t (refresh env now random token t).0
  unfolding refresh consume_refresh_token
  refresh-Buries [] t dead = dead
  refresh-Buries (c ∷ token) t dead =
      let k = env.hash_token (c ∷ token) in
      rw (refresh_consumed-same (consumed k t (live now (t k))))
        (consumed-Buries k t (live now (t k)) dead)

  live-dead : (o : Option RefreshToken) → is_dead o ≡ true → live now o ≡ none
  live-dead none dead = refl
  live-dead (some r) dead = rw dead refl

  -- A dead hash is granted nothing, and a hash that was granted something is dead.
  pub refresh-dead :
      (token : Text) (t : Table)
      → eq_text (env.hash_token token) hash ≡ true
      → is_dead (t hash) ≡ true
      → is_granted (refresh env now random token t).1 ≡ false
  unfolding refresh consume_refresh_token
  refresh-dead [] t same dead = refl
  refresh-dead (c ∷ token) t same dead =
      let k = env.hash_token (c ∷ token) in
      let here : is_dead (t k) ≡ true =
        subst (λ j. is_dead (t j) ≡ true) (sym (eq_text→eq k hash same)) dead in
      rw (live-dead (t k) here, refresh_consumed) refl

  pub refresh-granted :
      (token : Text) (t : Table)
      → eq_text (env.hash_token token) hash ≡ true
      → is_granted (refresh env now random token t).1 ≡ true
      → is_dead ((refresh env now random token t).0 hash) ≡ true
  unfolding refresh consume_refresh_token
  refresh-granted [] t same h = ground (arith, h)
  refresh-granted (c ∷ token) t same h =
      let k = env.hash_token (c ∷ token) in
      elim (Option-cases (live now (t k))) [
        | inl e ↦
            let no : is_granted (refresh env now random (c ∷ token) t).1 ≡ false =
              rw (e, refresh_consumed) refl in
            ground (arith, h, no)
        | inr (r, e) ↦ rw (e, refresh_consumed-same (consumed k t (some r))) (rw same refl)
      ]
