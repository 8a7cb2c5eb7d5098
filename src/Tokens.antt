-- ===== src/Tokens.antt =====
-- internal/authservice/service.go: the tokens that clients are given, with the table of refresh tokens of
-- internal/store/clients.go. The table is a function from the hash of a token, which is unique there, to
-- its row. Parameters of the model: hashing, signing, the random tokens and the table of clients, which
-- an administrator changes. Metrics, the audit log and failures of the database are left out, apart
-- from the insertion that the table refuses. Times are in seconds.
pub mod Refresh
pub mod SingleUse
pub mod Scopes
pub mod Rows
pub mod Grants
mod Tests
use ddag.Base.{
  ℕ, ◌+◌, ◌-◌, Bool, true, false, ◌&&◌, ◌||◌, not, Option, none, some, List, [], ◌∷◌, ltb,
  if◌then◌else◌, positive_or, Text, codes, eq_text, all, join,
}
use ddag.Models.{Client, RefreshToken, is_space, is_empty, trim_space, trim_left, trim_right}
use ddag.Policy.Scope.{fields_from, contains}

abbrev pub Table : Type 0
Table = Text → Option RefreshToken

abbrev pub revoked_row : RefreshToken → RefreshToken
revoked_row r = record r { revoked = true }

unfoldable pub set_row : Text → RefreshToken → Table → Table
set_row hash r t h = if eq_text hash h then some r else t h

-- `CreateRefreshToken`: none is a hash that is there already.
unfoldable pub create_refresh_token : Text → Text → Text → ℕ → Table → Option Table
unfolding set_row
create_refresh_token hash client_id scope expires_at t = elim (t hash) [
  | none ↦ some (
      set_row hash
        record { client_id = client_id; scope = scope; expires_at = expires_at; revoked = false } t)
  | some r ↦ none
]

-- The row that `consumeRefreshTokenSQL` updates.
abbrev pub live : ℕ → Option RefreshToken → Option RefreshToken
live now none = none
live now (some r) = if not r.revoked && ltb now r.expires_at then some r else none

abbrev pub consumed : Text → Table → Option RefreshToken → Table × Option RefreshToken
consumed hash t none = (t, none)
consumed hash t (some r) = (set_row hash (revoked_row r) t, some r)

unfoldable pub consume_refresh_token : ℕ → Text → Table → Table × Option RefreshToken
unfolding set_row
consume_refresh_token now hash t = consumed hash t (live now (t hash))

abbrev pub revoked_in : Text → Table → Option RefreshToken → Table × Bool
revoked_in hash t none = (t, false)
revoked_in hash t (some r) = (set_row hash (revoked_row r) t, true)

unfoldable pub revoke_refresh_token : Text → Table → Table × Bool
unfolding set_row
revoke_refresh_token hash t = revoked_in hash t (t hash)

abbrev pub revoked_for : Text → Option RefreshToken → Option RefreshToken
revoked_for client_id none = none
revoked_for client_id (some r) =
    if eq_text r.client_id client_id then some (revoked_row r) else some r

unfoldable pub revoke_client_refresh_tokens : Text → Table → Table
revoke_client_refresh_tokens client_id t h = revoked_for client_id (t h)

abbrev pub kept_since : ℕ → Option RefreshToken → Option RefreshToken
kept_since cutoff none = none
kept_since cutoff (some r) = if ltb r.expires_at cutoff then none else some r

unfoldable pub delete_expired_refresh_tokens : ℕ → ℕ → Table → Table
delete_expired_refresh_tokens now retention t h = kept_since (now - retention) (t h)

pub data OauthError : Type 0 where
  unsupported_grant_type invalid_request invalid_client invalid_scope invalid_grant server_error :
      OauthError

pub data Response : Type 0 where
  -- access_token, refresh_token, expires_in, scope
  granted : Text → Text → ℕ → Text → Response
  refused : OauthError → Response
  revoked : Bool → Response
  done : Response

pub record TokenRequest : Type 0 where
  pub grant_type : Text
  pub client_id : Text
  pub client_secret : Text
  pub scope : Text
  pub refresh_token : Text
  pub token : Text

pub record Env : Type 0 where
  pub hash_token : Text → Text
  pub check_password : Text → Text → Bool
  pub client_by_client_id : Text → Option Client
  pub client_by_pk : Text → Option Client
  pub issue_access_token : Text → Text → ℕ → Option Text
  pub access_token_ttl : ℕ
  pub refresh_token_ttl : ℕ

abbrev pub fields : Text → List Text
fields s = fields_from [] s

-- `resolveScope`; none is a scope that the client is not granted.
unfoldable pub resolve_scope : Text → List Text → Option Text
unfolding trim_left trim_right fields_from contains join
resolve_scope requested allowed =
    if is_empty (trim_space requested)
    then some (join (codes " ") allowed)
    else if all (contains allowed) (fields requested)
    then some (join (codes " ") (fields requested))
    else none

-- The random token is none where the generator fails.
module _ (env : Env) (now : ℕ) (random : Option Text) where
  persisted : Table → Text → Text → ℕ → Text → Option Table → Table × Response
  persisted t access token ttl scope none = (t, refused server_error)
  persisted t access token ttl scope (some after) = (after, granted access token ttl scope)

  issue_with : Client → Text → ℕ → Table → Option Text → Option Text → Table × Response
  unfolding create_refresh_token persisted
  issue_with client scope ttl t none token = (t, refused server_error)
  issue_with client scope ttl t (some access) none = (t, refused server_error)
  issue_with client scope ttl t (some access) (some token) = persisted t access token ttl scope (
      create_refresh_token (env.hash_token token) client.id scope
        (now + positive_or env.refresh_token_ttl client.refresh_token_ttl_seconds) t)

  unfoldable pub issue_tokens : Client → Text → Table → Table × Response
  unfolding issue_with
  issue_tokens client scope t =
      let ttl = positive_or env.access_token_ttl client.access_token_ttl_seconds in
      issue_with client scope ttl t (env.issue_access_token client.client_id scope ttl) random

  issue_resolved : Client → Table → Option Text → Table × Response
  unfolding issue_tokens
  issue_resolved client t none = (t, refused invalid_scope)
  issue_resolved client t (some scope) = issue_tokens client scope t

  credentials_of : TokenRequest → Table → Option Client → Table × Response
  unfolding issue_resolved resolve_scope
  credentials_of req t none = (t, refused invalid_client)
  credentials_of req t (some client) =
      if not (eq_text client.status (codes "active"))
      then (t, refused invalid_client)
      else if not (env.check_password client.client_secret_hash req.client_secret)
      then (t, refused invalid_client)
      else issue_resolved client t (resolve_scope req.scope client.scopes)

  unfoldable pub client_credentials : TokenRequest → Table → Table × Response
  unfolding credentials_of
  client_credentials req t = credentials_of req t (env.client_by_client_id req.client_id)

  refresh_client : Text → Table → Option Client → Table × Response
  unfolding issue_tokens
  refresh_client scope t none = (t, refused invalid_grant)
  refresh_client scope t (some client) =
      if not (eq_text client.status (codes "active"))
      then (t, refused invalid_grant)
      else issue_tokens client scope t

  refresh_consumed : Table × Option RefreshToken → Table × Response
  unfolding refresh_client
  refresh_consumed (t, none) = (t, refused invalid_grant)
  refresh_consumed (t, some r) = refresh_client r.scope t (env.client_by_pk r.client_id)

  unfoldable pub refresh : Text → Table → Table × Response
  unfolding refresh_consumed consume_refresh_token
  refresh [] t = (t, refused invalid_request)
  refresh (c ∷ token) t =
      refresh_consumed (consume_refresh_token now (env.hash_token (c ∷ token)) t)

  unfoldable pub handle_token : TokenRequest → Table → Table × Response
  unfolding client_credentials refresh
  handle_token req t =
      if eq_text req.grant_type (codes "client_credentials")
      then client_credentials req t
      else if eq_text req.grant_type (codes "refresh_token")
      then refresh req.refresh_token t
      else (t, refused unsupported_grant_type)

abbrev pub token_or : Text → Text → Text
token_or [] refresh_token = refresh_token
token_or (c ∷ token) refresh_token = c ∷ token

abbrev pub revoke_answer : Table × Bool → Table × Response
revoke_answer (t, found) = (t, revoked found)

unfoldable pub handle_revoke : Env → TokenRequest → Table → Table × Response
unfolding revoke_refresh_token
handle_revoke env req t =
    let token = token_or req.token req.refresh_token in
    if is_empty token
    then (t, refused invalid_request)
    else revoke_answer (revoke_refresh_token (env.hash_token token) t)

-- What happens to the table: a request of one of the handlers, an administrator's revocation of a
-- client's tokens, or the worker's purge.
pub data Event : Type 0 where
  token : Option Text → TokenRequest → Event
  refreshing : Option Text → TokenRequest → Event
  revoking : TokenRequest → Event
  revoking_client : Text → Event
  purging : ℕ → Event

unfoldable pub step : Env → ℕ → Event → Table → Table × Response
unfolding handle_token refresh handle_revoke revoke_client_refresh_tokens
    delete_expired_refresh_tokens
step env now (token random req) t = handle_token env now random req t
step env now (refreshing random req) t = refresh env now random req.refresh_token t
step env now (revoking req) t = handle_revoke env req t
step env now (revoking_client client_id) t = (revoke_client_refresh_tokens client_id t, done)
step env now (purging retention) t = (delete_expired_refresh_tokens now retention t, done)
