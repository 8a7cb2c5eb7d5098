-- ===== src/Gateway/Served.antt =====
-- internal/gatewaysvc/service.go: what `serve` as a whole does to the cache and the connectors.
use ddag.Base.{
  arith, ℕ, zero, suc, ◌+◌, ltb, ℤ, pos, negsuc, ◌≤◌, ◌<◌, ◌≡◌, refl, sym, ap, subst, ◌∙◌, ◌⊎◌, inl,
  inr, true, false, Option, none, some, ◌∷◌, if◌then◌else◌, nonneg, Text, eq_text_refl, Dict,
  lookup, lookup-insert,
}
use ddag.Models.{ApiDefinition, Client, is_cacheable, operation_from_method}
use ddag.Router.{Route, match_route}
use ddag.Gateway.Limits.{Page, atoi, pagination-limit, effective_limit, effective_limit-le}
use ddag.Gateway.Env.{
  Request, Built, Env, State, Stored, Query, Reply, refused, limited, from_cache, answered, Result,
  result, failed,
}
use ddag.Gateway.Service.{
  is_enabled, load, store_result, resolve_payload, reply, cached_or, decoded, evict, key_of, fetch,
  ttl_of, expiry, unexpired, alive, entry_of, page_of, check_rate_limit, serve,
}
use ddag.Gateway.Guards.{Refused, serve-cases}
use ddag.Gateway.Caching.{fetch-SendsOne, fetch-OnlyLoses}

module _ {P : Type 0} (env : Env P) (r : Request) (s : State) (route : Route)
    (path_params : Dict Text) where
  -- The routed request was refused, or did the last steps of the pipeline for some client.
  same_route :
      match_route env.routes r.method r.path ≡ some (route, path_params)
      → Refused env s (serve env r s)
        ⊎ ((client : Client) × (built : Built) × (t : State) × (t.cache ≡ s.cache)
            × (t.queries ≡ s.queries)
            × ((serve env r s) ≡ fetch env route.api client built (page_of env route.api r) t))
  same_route m = elim (serve-cases env r s) [
    | inl refusal ↦ inl refusal
    | inr (found, params, claims, client, matched, permitted, within, (built, b, done)) ↦
        let same : found ≡ route =
          ap (λ f. elim f [ none ↦ route | some x ↦ x.0 ]) (sym matched ∙ m) in
        let t = record s { counters = (check_rate_limit env s.counters client found.api).0 } in
        inr (
          client,
          built,
          t,
          refl,
          refl,
          subst (λ x. serve env r s ≡ fetch env x.api client built (page_of env x.api r) t) same
              done,
        )
  ]

-- A write never stores its response: after a request to a route whose method is neither GET nor
-- QUERY, the cache holds no entry that it did not hold before.
pub serve-OnlyLoses :
    {P : Type 0} (env : Env P) (r : Request) (s : State) (route : Route) (path_params : Dict Text)
    → match_route env.routes r.method r.path ≡ some (route, path_params)
    → is_cacheable (operation_from_method route.api.method) ≡ false
    → (k : Text) (v : Stored) → lookup k (serve env r s).0.cache ≡ some v
    → lookup k s.cache ≡ some v
serve-OnlyLoses env r s route path_params m write k v e =
    elim (same_route env r s route path_params m) [
      | inl ((cache, queries), refusal) ↦ ap (lookup k) (sym cache) ∙ e
      | inr (client, built, t, cache, queries, done) ↦
          ap (lookup k) (sym cache)
          ∙ fetch-OnlyLoses env route.api client built (page_of env route.api r) t write k v
              (ap (λ d. lookup k d.0.cache) (sym done) ∙ e)
    ]

-- For a routed request whose API's default limit and maximum and whose gateway's maximum are positive:
-- at most one query is handed to the connector client, and it asks for at least one row, and for no
-- more than either maximum.
pub serve-one_bounded_query :
    {P : Type 0} (env : Env P) (r : Request) (s : State) (route : Route) (path_params : Dict Text)
    → match_route env.routes r.method r.path ≡ some (route, path_params)
    → 0 < nonneg route.api.default_limit
    → 0 < nonneg route.api.max_limit
    → 0 < nonneg env.max_limit
    → ((serve env r s).0.queries ≡ s.queries)
      ⊎ ((q : Query) × ((serve env r s).0.queries ≡ q ∷ s.queries)
          × (0 < q.limit)
          × (q.limit ≤ nonneg route.api.max_limit)
          × (q.limit ≤ nonneg env.max_limit))
serve-one_bounded_query env r s route path_params m hd ha hg =
    let page = page_of env route.api r in
    let limit =
      effective_limit route.api.default_limit route.api.max_limit env.max_limit env.default_limit
        (atoi r.limit) in
    let (some_row, in_api, in_gateway) =
      effective_limit-le route.api.default_limit route.api.max_limit env.max_limit env.default_limit
        (atoi r.limit) hd ha hg in
    let same : page.limit ≡ limit = pagination-limit limit r.page r.offset in
    elim (same_route env r s route path_params m) [
      | inl ((cache, queries), refusal) ↦ inl queries
      | inr (client, built, t, cache, queries, done) ↦
          elim (fetch-SendsOne env route.api client built page t) [
            | inl none_sent ↦ inl (ap (λ d. d.0.queries) done ∙ none_sent ∙ queries)
            | inr (q, sent, b, l, o) ↦ inr (
              q,
              ap (λ d. d.0.queries) done ∙ sent ∙ ap (λ qs. q ∷ qs) queries,
              omega (arith, some_row, l, same),
              omega (arith, in_api, l, same),
              omega (arith, in_gateway, l, same),
            )
          ]
    ]

module _ {P : Type 0} (env : Env P) where
  payload_or : P → Reply P → P
  payload_or p (answered q) = q
  payload_or p (refused code) = p
  payload_or p (limited d) = p
  payload_or p (from_cache q) = p

  -- A response that was stored under a key and answered can be looked up there.
  stored :
      (key : Text) (ttl : ℤ) (done : State × Result P) (t : State) (p : P)
      → reply env (store_result env key ttl done) ≡ (t, answered p)
      → lookup key t.cache ≡ some (entry_of env p ttl)
  unfolding reply store_result payload_or
  stored key ttl (s, failed code) t p e = ground (arith, ap (λ x. x.1) e)
  stored key ttl (s, result q) t p e =
      let same : q ≡ p = ap (λ x. payload_or p x.1) e in
      ap (λ x. lookup key x.0.cache) (sym e)
      ∙ lookup-insert key key (entry_of env q ttl) s.cache
      ∙ rw (eq_text_refl key) (ap (λ x. some (entry_of env x ttl)) same)

  unexpired-expiry :
      (later : ℕ) (bytes : Text) (ttl : ℤ)
      → (0 < nonneg ttl → later < env.stored_at + nonneg ttl)
      → unexpired later bytes (expiry env.stored_at ttl) ≡ some bytes
  unexpired-expiry later bytes (pos zero) h = refl
  unexpired-expiry later bytes (pos (suc n)) h =
      let early : ltb later (env.stored_at + suc n) ≡ true = ground (arith, h (omega arith)) in
      rw early refl
  unexpired-expiry later bytes (negsuc n) h = refl

  module _ (api : ApiDefinition) (client : Client) (built : Built) (page : Page) where
    -- The time to live of the API's entries.
    abbrev pub api_ttl : ℤ
    api_ttl = ttl_of (env.lookups.cache_rule_for api.id)

    cached_or-stored :
        (hit : Option P) (entry : Option Text) (key : Text) (s t : State) (p : P)
        → is_cacheable (operation_from_method api.method) ≡ true
        → cached_or env hit entry api built page key s ≡ (t, answered p)
        → lookup key t.cache ≡ some (entry_of env p api_ttl)
    unfolding cached_or resolve_payload
    cached_or-stored (some q) entry key s t p read e = ground (arith, ap (λ x. x.1) e)
    cached_or-stored none entry key s t p read e =
        let done = load env api built page (evict env entry key s) in
        stored key api_ttl done t p (
          subst
            (λ b.
              reply env (if b then store_result env key api_ttl done else done) ≡ (t, answered p))
            read e)

    -- A response that a read has stored is what the same cache and connector steps give until its time
    -- to live is over: where the API's cache rule is enabled and its method is a read, and the response
    -- is answered by the connector and comes back from its JSON text, the steps 7 to 9 of `serve` done
    -- again on the state that they leave, before the time to live has passed since the response was
    -- stored (at any time, if the time to live is not positive), answer with that response from the
    -- cache, send no query and change neither the cache nor the counters.
    pub fetch-fetch :
        (later : ℕ) (s t : State) (p : P)
        → is_enabled (env.lookups.cache_rule_for api.id) ≡ true
        → is_cacheable (operation_from_method api.method) ≡ true
        → env.decode (env.encode p) ≡ some p
        → (0 < nonneg api_ttl → later < env.stored_at + nonneg api_ttl)
        → fetch env api client built page s ≡ (t, answered p)
        → fetch (record env { read_at = later }) api client built page t ≡ (t, from_cache p)
    unfolding fetch cached_or
    fetch-fetch later s t p on read whole early e =
        let key = key_of env api client built page in
        let entry = alive env.read_at (lookup key s.cache) in
        let first =
          subst
            (λ b.
              (if b
                then cached_or env (decoded env entry) entry api built page key s
                else reply env (resolve_payload env api built page false key s))
              ≡ (t, answered p))
            on e in
        let there = cached_or-stored (decoded env entry) entry key s t p read first in
        rw (on, there, unexpired-expiry later (env.encode p) api_ttl early, whole) refl
