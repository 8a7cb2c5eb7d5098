-- ===== src/Gateway/Caching.antt =====
-- internal/gatewaysvc/service.go: the cache and connector steps of `serve`.
use ddag.Base.{
  arith, ◌≡◌, refl, sym, ap, subst, ◌∙◌, ◌⊎◌, inl, inr, Bool, true, false, ◌&&◌, Bool-cases, Option,
  none, some, ◌∷◌, Text, ℤ, lookup, codes, ◌++◌, lookup-delete,
}
use ddag.Models.{ApiDefinition, Client, is_cacheable, operation_from_method}
use ddag.Gateway.Limits.{Page}
use ddag.Gateway.Env.{Built, Env, State, Stored, Query, Result, result, failed}
use ddag.Gateway.Service.{
  is_enabled, load, load_from, store_result, resolve_payload, reply, cached_or, key_of, decoded,
  evict, fetch, ttl_of, alive,
}

module _ {P : Type 0} (env : Env P) (api : ApiDefinition) (client : Client) (built : Built)
    (page : Page) where
  -- At most one query is sent: of this statement and this page, behind the queries of before.
  abbrev pub SendsOne : State → State → Type 0
  SendsOne s t =
      (t.queries ≡ s.queries)
      ⊎ ((q : Query) × (t.queries ≡ q ∷ s.queries)
          × (q.built ≡ built)
          × (q.limit ≡ page.limit)
          × (q.offset ≡ page.offset))

  load_from-SendsOne :
      (connection : Option Text) (s : State)
      → SendsOne s (load_from env connection api built page s).0
        × ((load_from env connection api built page s).0.cache ≡ s.cache)
  unfolding load_from
  load_from-SendsOne none s = (inl refl, refl)
  load_from-SendsOne (some connection) s =
      elim (Bool-cases (env.slot_free (api.id ++ (codes ":" ++ api.connector_type)))) [
        | inl free ↦ rw free (inr (_, refl, refl, refl, refl), refl)
        | inr busy ↦ rw busy (inl refl, refl)
      ]

  store_result-queries :
      (key : Text) (ttl : ℤ) (done : State × Result P)
      → (store_result env key ttl done).0.queries ≡ done.0.queries
  unfolding store_result
  store_result-queries key ttl (s, failed code) = refl
  store_result-queries key ttl (s, result p) = refl

  reply-state : (done : State × Result P) → (reply env done).0 ≡ done.0
  unfolding reply
  reply-state (s, failed code) = refl
  reply-state (s, result p) = refl

  resolve_payload-SendsOne :
      (enabled : Bool) (key : Text) (s : State)
      → SendsOne s (resolve_payload env api built page enabled key s).0
  unfolding resolve_payload load
  resolve_payload-SendsOne enabled key s =
      let done = load_from env api.database_connection_id api built page s in
      let sent = (load_from-SendsOne api.database_connection_id s).0 in
      elim (Bool-cases (enabled && is_cacheable (operation_from_method api.method))) [
        | inl stores ↦
            rw (stores, store_result-queries key (ttl_of (env.lookups.cache_rule_for api.id)) done)
              sent
        | inr passes ↦ rw passes sent
      ]

  -- Nothing is stored but what stood there before.
  abbrev pub OnlyLoses : State → State → Type 0
  OnlyLoses s t = (k : Text) (v : Stored) → lookup k t.cache ≡ some v → lookup k s.cache ≡ some v

  resolve_payload-cache :
      (enabled : Bool) (key : Text) (s : State)
      → is_cacheable (operation_from_method api.method) ≡ false
      → (resolve_payload env api built page enabled key s).0.cache ≡ s.cache
  unfolding resolve_payload load
  resolve_payload-cache enabled key s write =
      let same = (load_from-SendsOne api.database_connection_id s).1 in
      elim (Bool-cases enabled) [ inl on ↦ rw (write, on) same | inr off ↦ rw (write, off) same ]

  evict-OnlyLoses :
      (entry : Option Text) (key : Text) (s : State) → OnlyLoses s (evict env entry key s)
  evict-OnlyLoses none key s k v e = e
  evict-OnlyLoses (some b) key s k v e = ground (arith, e, lookup-delete key k s.cache)

  evict-queries :
      (entry : Option Text) (key : Text) (s : State) → (evict env entry key s).queries ≡ s.queries
  evict-queries none key s = refl
  evict-queries (some b) key s = refl

  cached_or-SendsOne :
      (hit : Option P) (entry : Option Text) (key : Text) (s : State)
      → SendsOne s (cached_or env hit entry api built page key s).0
  unfolding cached_or
  cached_or-SendsOne (some p) entry key s = inl refl
  cached_or-SendsOne none entry key s =
      rw (reply-state (resolve_payload env api built page true key (evict env entry key s))) (
        subst
          (λ queries.
            SendsOne (record s { queries = queries })
              (resolve_payload env api built page true key (evict env entry key s)).0)
          (evict-queries entry key s) (resolve_payload-SendsOne true key (evict env entry key s)))

  cached_or-OnlyLoses :
      (hit : Option P) (entry : Option Text) (key : Text) (s : State)
      → is_cacheable (operation_from_method api.method) ≡ false
      → OnlyLoses s (cached_or env hit entry api built page key s).0
  unfolding cached_or
  cached_or-OnlyLoses (some p) entry key s write k v e = e
  cached_or-OnlyLoses none entry key s write k v e =
      let t = evict env entry key s in
      let same =
        ap (λ u. lookup k u.cache) (reply-state (resolve_payload env api built page true key t)) in
      evict-OnlyLoses entry key s k v
        (sym (ap (lookup k) (resolve_payload-cache true key t write)) ∙ sym same ∙ e)

  pub fetch-SendsOne : (s : State) → SendsOne s (fetch env api client built page s).0
  unfolding fetch
  fetch-SendsOne s =
      let key = key_of env api client built page in
      elim (Bool-cases (is_enabled (env.lookups.cache_rule_for api.id))) [
        | inl on ↦ rw on (
            cached_or-SendsOne (decoded env (alive env.read_at (lookup key s.cache)))
              (alive env.read_at (lookup key s.cache)) key s)
        | inr off ↦
            rw (off, reply-state (resolve_payload env api built page false key s))
              (resolve_payload-SendsOne false key s)
      ]

  pub fetch-OnlyLoses :
      (s : State)
      → is_cacheable (operation_from_method api.method) ≡ false
      → OnlyLoses s (fetch env api client built page s).0
  unfolding fetch
  fetch-OnlyLoses s write =
      let key = key_of env api client built page in
      elim (Bool-cases (is_enabled (env.lookups.cache_rule_for api.id))) [
        | inl on ↦ rw on (
            cached_or-OnlyLoses (decoded env (alive env.read_at (lookup key s.cache)))
              (alive env.read_at (lookup key s.cache)) key s write)
        | inr off ↦
            rw
              (
                off,
                reply-state (resolve_payload env api built page false key s),
                resolve_payload-cache false key s write,
              )
              (λ k v e. e)
      ]
