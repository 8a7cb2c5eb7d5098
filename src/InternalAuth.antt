-- ===== src/InternalAuth.antt =====
-- internal/internalauth/auth.go: the check of signed requests between the services, and the store of
-- used nonces. Times and durations are in nanoseconds; a skew of zero stands for every skew that is
-- not positive. The store is Redis, whose keys expire by its own clock: `stored_at` is the time there when
-- it sets the nonce, and `now` the service's when it checks the signature. Its failures and signing are
-- left out.
-- Parameters of the model: the hash of the body and the HMAC, both in hexadecimal.
pub mod Replay
mod Tests
use ddag.Base.{
  ℕ, ◌+◌, ◌*◌, Bool, true, false, ◌&&◌, ◌||◌, not, Option, none, some, List, [], ◌∷◌, ltb,
  if◌then◌else◌, ℤ, pos, negsuc, suc, Text, codes, eq_text, join,
}
use ddag.Models.{is_empty, trim_space, trim_left, trim_right}
use ddag.Gateway.Limits.{atoi}

pub record SignedRequest : Type 0 where
  pub method : Text
  pub escaped_path : Text
  pub request_id : Text
  pub timestamp : Text
  pub nonce : Text
  pub signature : Text
  pub body : Text

pub record Crypto : Type 0 where
  pub sha256_hex : Text → Text
  pub hmac_hex : Text → Text → Text

pub data VerifyError : Type 0 where
  secret_required missing_headers invalid_timestamp outside_skew invalid_signature ttl_not_positive
        nonce_replayed :
      VerifyError

abbrev pub second : ℕ
second = 1000000000

abbrev pub path_or_root : Text → Text
path_or_root [] = codes "/"
path_or_root (c ∷ path) = c ∷ path

-- `signedAt.Before(now.Add(-maxSkew))`
abbrev pub before_window : ℤ → ℕ → ℕ → Bool
before_window (pos sec) now skew = ltb (sec * second + skew) now
before_window (negsuc sec) now skew = ltb skew (now + suc sec * second)

-- `signedAt.After(now.Add(maxSkew))`
abbrev pub after_window : ℤ → ℕ → ℕ → Bool
after_window (pos sec) now skew = ltb (now + skew) (sec * second)
after_window (negsuc sec) now skew = false

module _ (crypto : Crypto) (secret : Text) where
  unfoldable pub signature : SignedRequest → Text
  unfolding join
  signature q = crypto.hmac_hex secret (
      join (codes "\n") (
        q.method
        ∷ path_or_root q.escaped_path
        ∷ q.request_id
        ∷ q.timestamp
        ∷ q.nonce
        ∷ crypto.sha256_hex q.body
        ∷ []))

  check_mac : SignedRequest → Option VerifyError
  unfolding signature
  check_mac q = if eq_text q.signature (signature q) then none else some invalid_signature

  unfoldable pub check_time : SignedRequest → ℕ → ℕ → Option ℤ → Option VerifyError
  unfolding check_mac
  check_time q now skew none = some invalid_timestamp
  check_time q now skew (some sec) =
      if ltb 0 skew && (before_window sec now skew || after_window sec now skew)
      then some outside_skew
      else check_mac q

  -- The error, if any.
  unfoldable pub verify_signature : SignedRequest → ℕ → ℕ → Option VerifyError
  unfolding check_time atoi trim_left trim_right
  verify_signature q now skew =
      if is_empty (trim_space secret)
      then some secret_required
      else if is_empty q.timestamp || is_empty q.signature || is_empty q.nonce
      then some missing_headers
      else check_time q now skew (atoi q.timestamp)

-- When each nonce expires.
abbrev pub Nonces : Type 0
Nonces = Text → Option ℕ

abbrev pub is_used : ℕ → Option ℕ → Bool
is_used now none = false
is_used now (some expires_at) = ltb now expires_at

abbrev pub set_nonce : Text → ℕ → Nonces → Nonces
set_nonce nonce expires_at nonces other =
    if eq_text nonce other then some expires_at else nonces other

-- `UseNonce`, at a time of Redis.
unfoldable pub use_nonce : ℕ → Text → ℕ → Nonces → Nonces × Option VerifyError
use_nonce stored_at nonce ttl nonces =
    if not (ltb 0 ttl)
    then (nonces, some ttl_not_positive)
    else if is_used stored_at (nonces nonce)
    then (nonces, some nonce_replayed)
    else (set_nonce nonce (stored_at + ttl) nonces, none)

module _ (crypto : Crypto) (secret : Text) (skew : ℕ) where
  consumed : SignedRequest → ℕ → Nonces → Option VerifyError → Nonces × Option VerifyError
  unfolding use_nonce
  consumed q stored_at nonces (some error) = (nonces, some error)
  consumed q stored_at nonces none = use_nonce stored_at q.nonce (skew * 2) nonces

  unfoldable pub verify_headers_with_replay_store :
      SignedRequest → ℕ → ℕ → Nonces → Nonces × Option VerifyError
  unfolding consumed verify_signature
  verify_headers_with_replay_store q now stored_at nonces =
      consumed q stored_at nonces (verify_signature crypto secret q now skew)

  -- The nonces after requests, each with its time at the service and at the store, in the order of the
  -- store.
  unfoldable pub nonces_after : List (ℕ × ℕ × SignedRequest) → Nonces → Nonces
  unfolding verify_headers_with_replay_store
  nonces_after [] nonces = nonces
  nonces_after ((now, stored_at, q) ∷ qs) nonces =
      nonces_after qs (verify_headers_with_replay_store q now stored_at nonces).0
