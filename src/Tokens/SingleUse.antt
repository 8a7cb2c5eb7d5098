-- ===== src/Tokens/SingleUse.antt =====
-- internal/authservice/service.go: a refresh token buys one pair of tokens.
use ddag.Base.{
  arith, ℕ, suc, ◌≤◌, ◌≡◌, refl, true, false, ◌&&◌, Bool-cases, Option-cases, inl, inr, &&-true,
  Option, none, some, List, [], ◌∷◌, All, Text, codes, eq_text, eq_text→eq, if◌then◌else◌,
}
use ddag.Models.{RefreshToken, is_empty}
use ddag.Tokens.{
  Table, TokenRequest, Env, Event, token_or, revoke_refresh_token, revoke_client_refresh_tokens,
  delete_expired_refresh_tokens, refresh, handle_token, handle_revoke, step, revoked_for,
  kept_since,
}
use ddag.Tokens.Refresh.{
  is_dead, Buries, is_granted, DrawsOther, EventDrawsOther, presents, set_row-Buries,
  client_credentials-same, refresh-Buries, refresh-dead, refresh-granted,
}

-- How many pairs of tokens a history grants for refresh tokens of a hash.
unfoldable pub pairs_for : Env → Text → List (ℕ × Event) → Table → ℕ
pairs_for env hash [] t = 0
pairs_for env hash ((now, e) ∷ es) t =
    let (after, response) = step env now e t in
    let later = pairs_for env hash es after in
    if presents env hash e && is_granted response then suc later else later

module _ (env : Env) (hash : Text) where
  handle_token-Buries :
      (now : ℕ) (random : Option Text) (req : TokenRequest) (t : Table)
      → DrawsOther env hash random
      → Buries hash t (handle_token env now random req t).0
  unfolding handle_token
  handle_token-Buries now random req t other dead =
      elim (Bool-cases (eq_text req.grant_type (codes "client_credentials"))) [
        | inl e ↦ rw (e, client_credentials-same env now random hash other req t) dead
        | inr e ↦ elim (Bool-cases (eq_text req.grant_type (codes "refresh_token"))) [
          | inl e' ↦ rw (e, e') (refresh-Buries env now random hash other req.refresh_token t dead)
          | inr e' ↦ rw (e, e') dead
        ]
      ]

  revoke-Buries : (k : Text) (t : Table) → Buries hash t (revoke_refresh_token k t).0
  unfolding revoke_refresh_token
  revoke-Buries k t dead = elim (Option-cases (t k)) [
    | inl e ↦ rw e dead
    | inr (r, e) ↦ rw e (set_row-Buries hash k (record r { revoked = true }) t refl dead)
  ]

  handle_revoke-Buries :
      (req : TokenRequest) (t : Table) → Buries hash t (handle_revoke env req t).0
  unfolding handle_revoke
  handle_revoke-Buries req t dead =
      elim (Bool-cases (is_empty (token_or req.token req.refresh_token))) [
        | inl e ↦ rw e dead
        | inr e ↦
            rw e (revoke-Buries (env.hash_token (token_or req.token req.refresh_token)) t dead)
      ]

  revoked_for-dead :
      (client_id : Text) (o : Option RefreshToken)
      → is_dead o ≡ true
      → is_dead (revoked_for client_id o) ≡ true
  revoked_for-dead client_id none dead = refl
  revoked_for-dead client_id (some r) dead = ground (arith, dead)

  kept_since-dead :
      (cutoff : ℕ) (o : Option RefreshToken)
      → is_dead o ≡ true
      → is_dead (kept_since cutoff o) ≡ true
  kept_since-dead cutoff none dead = refl
  kept_since-dead cutoff (some r) dead = ground (arith, dead)

  step-Buries :
      (now : ℕ) (e : Event) (t : Table)
      → EventDrawsOther env hash e
      → Buries hash t (step env now e t).0
  unfolding step revoke_client_refresh_tokens delete_expired_refresh_tokens
  step-Buries now (Event.token random req) t other dead =
      handle_token-Buries now random req t other dead
  step-Buries now (Event.refreshing random req) t other dead =
      refresh-Buries env now random hash other req.refresh_token t dead
  step-Buries now (Event.revoking req) t other dead = handle_revoke-Buries req t dead
  step-Buries now (Event.revoking_client client_id) t other dead =
      revoked_for-dead client_id (t hash) dead
  step-Buries now (Event.purging retention) t other dead = kept_since-dead _ (t hash) dead

  handle_token-refresh :
      (now : ℕ) (random : Option Text) (req : TokenRequest) (t : Table)
      → eq_text req.grant_type (codes "refresh_token") ≡ true
      → handle_token env now random req t ≡ refresh env now random req.refresh_token t
  unfolding handle_token eq_text
  handle_token-refresh now random req t h =
      rw (eq_text→eq req.grant_type (codes "refresh_token") h) refl

  step-dead :
      (now : ℕ) (e : Event) (t : Table)
      → EventDrawsOther env hash e
      → presents env hash e ≡ true
      → is_dead (t hash) ≡ true
      → is_granted (step env now e t).1 ≡ false
  unfolding step
  step-dead now (Event.token random req) t other h dead =
      let (grant, same) =
        &&-true (eq_text req.grant_type (codes "refresh_token"))
          (eq_text (env.hash_token req.refresh_token) hash) h in
      rw (handle_token-refresh now random req t grant)
        (refresh-dead env now random hash other req.refresh_token t same dead)
  step-dead now (Event.refreshing random req) t other h dead =
      refresh-dead env now random hash other req.refresh_token t h dead
  step-dead now (Event.revoking req) t other h dead = cc
  step-dead now (Event.revoking_client client_id) t other h dead = cc
  step-dead now (Event.purging retention) t other h dead = cc

  step-granted :
      (now : ℕ) (e : Event) (t : Table)
      → EventDrawsOther env hash e
      → presents env hash e ≡ true
      → is_granted (step env now e t).1 ≡ true
      → is_dead ((step env now e t).0 hash) ≡ true
  unfolding step
  step-granted now (Event.token random req) t other h g =
      let (grant, same) =
        &&-true (eq_text req.grant_type (codes "refresh_token"))
          (eq_text (env.hash_token req.refresh_token) hash) h in
      let e = handle_token-refresh now random req t grant in
      rw e (refresh-granted env now random hash other req.refresh_token t same (rw e at g))
  step-granted now (Event.refreshing random req) t other h g =
      refresh-granted env now random hash other req.refresh_token t h g
  step-granted now (Event.revoking req) t other h g = cc
  step-granted now (Event.revoking_client client_id) t other h g = cc
  step-granted now (Event.purging retention) t other h g = cc

  pub pairs_for-dead :
      (es : List (ℕ × Event)) (t : Table)
      → All (λ e. EventDrawsOther env hash e.1) es
      → is_dead (t hash) ≡ true
      → pairs_for env hash es t ≡ 0
  unfolding pairs_for
  pairs_for-dead [] t other dead = refl
  pairs_for-dead ((now, e) ∷ es) t other dead =
      let later =
        pairs_for-dead es (step env now e t).0 other.1 (step-Buries now e t other.0 dead) in
      elim (Bool-cases (presents env hash e)) [
        | inl p ↦ rw (p, step-dead now e t other.0 p dead) later
        | inr p ↦ rw p later
      ]

-- In any history of requests, revocations and purges, at any times, the refresh tokens of one hash are
-- granted at most one pair of tokens in all, through either of the two endpoints, if no token that is
-- drawn in that history has this hash too.
pub pairs_for-le :
    (env : Env) (hash : Text) (es : List (ℕ × Event)) (t : Table)
    → All (λ e. EventDrawsOther env hash e.1) es
    → pairs_for env hash es t ≤ 1
unfolding pairs_for
pairs_for-le env hash [] t other = omega arith
pairs_for-le env hash ((now, e) ∷ es) t other =
    elim (Bool-cases (presents env hash e && is_granted (step env now e t).1)) [
      | inl p ↦
          let (shown, given) = &&-true (presents env hash e) (is_granted (step env now e t).1) p in
          let after =
            pairs_for-dead env hash es (step env now e t).0 other.1
              (step-granted env hash now e t other.0 shown given) in
          rw p (omega (arith, after))
      | inr p ↦ rw p (pairs_for-le env hash es (step env now e t).0 other.1)
    ]
