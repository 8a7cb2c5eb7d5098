-- ===== src/InternalAuth/Replay.antt =====
-- internal/internalauth/auth.go: a signed request that is sent again.
use mathlib.Core.Option.{some-injective}
use ddag.Base.{
  arith, ℕ, ◌+◌, ◌*◌, ◌≤◌, ◌≡◌, refl, sym, ap, ◌∙◌, subst, true, false, ◌||◌, Bool-cases, inl, inr,
  Option, none, some, List, [], ◌∷◌, ltb, ℤ, pos, negsuc, Text, eq_text, eq_text→eq, eq_text_refl,
}
use ddag.Models.{is_empty, trim_space}
use ddag.Gateway.Limits.{atoi}
use ddag.InternalAuth.{
  SignedRequest, Crypto, VerifyError, secret_required, missing_headers, outside_skew,
  ttl_not_positive, nonce_replayed, before_window, after_window, check_time, verify_signature,
  Nonces, is_used, use_nonce, consumed, verify_headers_with_replay_store, nonces_after,
}

-- The nonce is kept until a time, or longer.
abbrev KeptUntil : ℕ → Option ℕ → Type 0
KeptUntil t o = (e : ℕ) × (o ≡ some e) × (t ≤ e)

use_nonce-accepted :
    (now : ℕ) (nonce : Text) (ttl : ℕ) (nonces : Nonces)
    → (use_nonce now nonce ttl nonces).1 ≡ none
    → (is_used now (nonces nonce) ≡ false)
      × KeptUntil (now + ttl) ((use_nonce now nonce ttl nonces).0 nonce)
unfolding use_nonce
use_nonce-accepted now nonce ttl nonces h = elim (Bool-cases (ltb 0 ttl)) [
  | inr e ↦ let bad : some ttl_not_positive ≡ none = rw e at h in cc
  | inl e ↦ elim (Bool-cases (is_used now (nonces nonce))) [
    | inl u ↦ let bad : some nonce_replayed ≡ none = rw (e, u) at h in cc
    | inr u ↦ (u, rw (e, u) (now + ttl, rw (eq_text_refl nonce) refl, omega arith))
  ]
]

-- No request shortens the time that a nonce is kept.
use_nonce-keeps :
    (now : ℕ) (nonce : Text) (ttl : ℕ) (nonces : Nonces) (t : ℕ) (other : Text)
    → KeptUntil t (nonces other)
    → KeptUntil t ((use_nonce now nonce ttl nonces).0 other)
unfolding use_nonce
use_nonce-keeps now nonce ttl nonces t other (e, found, le) = elim (Bool-cases (ltb 0 ttl)) [
  | inr h ↦ rw h (e, found, le)
  | inl h ↦ elim (Bool-cases (is_used now (nonces nonce))) [
    | inl u ↦ rw (h, u) (e, found, le)
    | inr u ↦ elim (Bool-cases (eq_text nonce other)) [
      | inr differ ↦ rw (h, u) (e, rw differ found, le)
      | inl same ↦
          let past : is_used now (some e) ≡ false =
            subst (λ o. is_used now o ≡ false) found
              (subst (λ x. is_used now (nonces x) ≡ false) (eq_text→eq nonce other same) u) in
          rw (h, u) (now + ttl, rw same refl, ground (arith, past, le))
    ]
  ]
]

-- The moment lies in the window around the time of the signature.
abbrev InWindow : ℤ → ℕ → ℕ → Type 0
InWindow sec now skew = (before_window sec now skew ≡ false) × (after_window sec now skew ≡ false)

check_time-accepted :
    (crypto : Crypto) (secret : Text) (q : SignedRequest) (now skew : ℕ) (o : Option ℤ)
    → ltb 0 skew ≡ true
    → check_time crypto secret q now skew o ≡ none
    → (sec : ℤ) × (o ≡ some sec) × InWindow sec now skew
unfolding check_time
check_time-accepted crypto secret q now skew none h e = ground (arith, e)
check_time-accepted crypto secret q now skew (some sec) h e =
    elim (Bool-cases (before_window sec now skew || after_window sec now skew)) [
      | inl out ↦ let bad : some outside_skew ≡ none = rw (h, out) at e in cc
      | inr within ↦ (sec, refl, ground (arith, within))
    ]

verify_signature-accepted :
    (crypto : Crypto) (secret : Text) (q : SignedRequest) (now skew : ℕ)
    → ltb 0 skew ≡ true
    → verify_signature crypto secret q now skew ≡ none
    → (sec : ℤ) × (atoi q.timestamp ≡ some sec) × InWindow sec now skew
unfolding verify_signature
verify_signature-accepted crypto secret q now skew h e =
    elim (Bool-cases (is_empty (trim_space secret))) [
      | inl x ↦ let bad : some secret_required ≡ none = rw x at e in cc
      | inr x ↦
          elim (Bool-cases (is_empty q.timestamp || is_empty q.signature || is_empty q.nonce)) [
            | inl y ↦ let bad : some missing_headers ≡ none = rw (x, y) at e in cc
            | inr y ↦
                check_time-accepted crypto secret q now skew (atoi q.timestamp) h (rw (x, y) at e)
          ]
    ]

windows_meet :
    (sec : ℤ) (now later skew : ℕ)
    → InWindow sec now skew
    → InWindow sec later skew
    → later ≤ now + skew * 2
windows_meet (pos n) now later skew h k = ground (arith, h.1, k.0)
windows_meet (negsuc n) now later skew h k = ground (arith, h.0, k.0)

module _ (crypto : Crypto) (secret : Text) (skew : ℕ) where
  consumed-accepted :
      (q : SignedRequest) (now : ℕ) (nonces : Nonces) (o : Option VerifyError)
      → (consumed crypto secret skew q now nonces o).1 ≡ none
      → (o ≡ none)
        × ((use_nonce now q.nonce (skew * 2) nonces).1 ≡ none)
        × (consumed crypto secret skew q now nonces o ≡ use_nonce now q.nonce (skew * 2) nonces)
  unfolding consumed
  consumed-accepted q now nonces none h = (refl, h, refl)
  consumed-accepted q now nonces (some error) h = cc

  consumed-keeps :
      (q : SignedRequest) (now : ℕ) (nonces : Nonces) (o : Option VerifyError) (t : ℕ)
      (nonce : Text)
      → KeptUntil t (nonces nonce)
      → KeptUntil t ((consumed crypto secret skew q now nonces o).0 nonce)
  unfolding consumed
  consumed-keeps q now nonces (some error) t nonce k = k
  consumed-keeps q now nonces none t nonce k =
      use_nonce-keeps now q.nonce (skew * 2) nonces t nonce k

  nonces_after-keeps :
      (qs : List (ℕ × ℕ × SignedRequest)) (nonces : Nonces) (t : ℕ) (nonce : Text)
      → KeptUntil t (nonces nonce)
      → KeptUntil t (nonces_after crypto secret skew qs nonces nonce)
  unfolding nonces_after verify_headers_with_replay_store
  nonces_after-keeps [] nonces t nonce k = k
  nonces_after-keeps ((now, stored_at, q) ∷ qs) nonces t nonce k =
      nonces_after-keeps qs _ t nonce
        (consumed-keeps q stored_at nonces (verify_signature crypto secret q now skew) t nonce k)

-- With a positive skew: where a signed request was accepted, and one with the same nonce and timestamp
-- is accepted after any other requests, the second is checked at most twice the skew later by the clock
-- of the service, and sets its nonce at least twice the skew later by the clock of Redis.
pub replayed_only_late :
    (crypto : Crypto) (secret : Text) (skew now stored_at later stored_later : ℕ)
    (q again : SignedRequest) (qs : List (ℕ × ℕ × SignedRequest)) (nonces : Nonces)
    → ltb 0 skew ≡ true
    → again.nonce ≡ q.nonce
    → again.timestamp ≡ q.timestamp
    → (verify_headers_with_replay_store crypto secret skew q now stored_at nonces).1 ≡ none
    → (verify_headers_with_replay_store crypto secret skew again later stored_later (
        nonces_after crypto secret skew qs
          (verify_headers_with_replay_store crypto secret skew q now stored_at nonces).0)).1
      ≡ none
    → (later ≤ now + skew * 2) × (stored_at + skew * 2 ≤ stored_later)
unfolding verify_headers_with_replay_store
replayed_only_late crypto secret skew now stored_at later stored_later q again qs nonces positive
      nonce timestamp first then_ =
    let (v1, u1, e1) =
      consumed-accepted crypto secret skew q stored_at nonces
        (verify_signature crypto secret q now skew) first in
    let used = verify_headers_with_replay_store crypto secret skew q now stored_at nonces in
    let kept : KeptUntil (stored_at + skew * 2) (used.0 q.nonce) =
      rw e1 ((use_nonce-accepted stored_at q.nonce (skew * 2) nonces u1).1) in
    let rest = nonces_after crypto secret skew qs used.0 in
    let (e, found, le) =
      nonces_after-keeps crypto secret skew qs used.0 (stored_at + skew * 2) q.nonce kept in
    let (v2, u2, e2) =
      consumed-accepted crypto secret skew again stored_later rest
        (verify_signature crypto secret again later skew) then_ in
    let free = (use_nonce-accepted stored_later again.nonce (skew * 2) rest u2).0 in
    let expired : is_used stored_later (some e) ≡ false =
      subst (λ o. is_used stored_later o ≡ false) found
        (subst (λ x. is_used stored_later (rest x) ≡ false) nonce free) in
    let (sec, read, window) = verify_signature-accepted crypto secret q now skew positive v1 in
    let (sec', read', window') =
      verify_signature-accepted crypto secret again later skew positive v2 in
    let same : sec' ≡ sec = some-injective _ _ (sym read' ∙ (ap atoi timestamp ∙ read)) in
    (
      windows_meet sec now later skew window (subst (λ x. InWindow x later skew) same window'),
      ground (arith, le, expired),
    )
