-- ===== src/InternalAuth/Tests.antt =====
-- A signed request that is sent twice.
use ddag.Base.{ℕ, ◌+◌, ◌*◌, ◌≡◌, ◌≤◌, refl, none, [], ◌++◌, codes, eq_text, some}
use ddag.InternalAuth.{
  SignedRequest, Crypto, Nonces, verify_headers_with_replay_store, nonces_after, nonce_replayed,
  second,
}
use ddag.InternalAuth.Replay.{replayed_only_late}

abbrev crypto : Crypto
crypto = record { sha256_hex = λ s. s; hmac_hex = λ key s. key ++ s }

abbrev query : SignedRequest
query = record {
  method = codes "POST";
  escaped_path = codes "/query";
  request_id = codes "r";
  timestamp = codes "1300";
  nonce = codes "n";
  signature = codes "keyPOST\n/query\nr\n1300\nn\n{}";
  body = codes "{}";
}

abbrev empty : Nonces
empty nonce = none

abbrev skew : ℕ
skew = 300 * second

abbrev now : ℕ
now = 1000 * second

accepted : (verify_headers_with_replay_store crypto (codes "key") skew query now 5 empty).1 ≡ none
unfolding verify_headers_with_replay_store eq_text
accepted = refl

replayed :
    (verify_headers_with_replay_store crypto
      (codes "key")
      skew
      query
      (now + second)
      (5 + second)
      (verify_headers_with_replay_store crypto (codes "key") skew query now 5 empty).0).1
    ≡ some nonce_replayed
unfolding verify_headers_with_replay_store eq_text
replayed = refl

-- Signed 300 seconds ahead, and sent again 599 seconds later: the store sets the second nonce a second
-- after the check, when the first has expired.
replayed_only_late_example : (1599 * second ≤ now + skew * 2) × (5 + skew * 2 ≤ 5 + 600 * second)
unfolding verify_headers_with_replay_store nonces_after eq_text
replayed_only_late_example =
    replayed_only_late crypto (codes "key") skew now 5 (1599 * second) (5 + 600 * second) query
      query [] empty refl refl refl accepted refl
