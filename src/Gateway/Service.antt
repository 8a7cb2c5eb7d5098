-- ===== src/Gateway/Service.antt =====
-- internal/gatewaysvc/service.go: the handler `serve` of the data plane, on the State and the `Env` of
-- Gateway/Env. Logging, metrics, audit events and response headers are left out, as are the
-- preflight and catalog routes before the pipeline.
use ddag.Base.{
  ℕ, suc, ◌+◌, ltb, Bool, true, false, ◌&&◌, not, Option, none, some, List, [], ◌∷◌, map,
  if◌then◌else◌, ℤ, pos, Text, codes, eq_text, Dict, lookup, insert, delete, ◌==◌, ◌++◌,
}
use ddag.Models.{
  ApiDefinition, Client, CacheRule, RateLimitRule, IpWhitelist, is_cacheable, operation_from_method,
  trim_space, trim_left, trim_right,
}
use ddag.Errors.{
  unauthorized, forbidden, scope_forbidden, not_found, source_db_unavailable, backpressure_limit,
  internal,
}
use ddag.Router.{Found, match_route}
use ddag.Policy.Scope.{has_scope}
use ddag.Policy.Addresses.{ip_allowed}
use ddag.Policy.RateLimit.{
  Counters, Decision, allow, windows_from_rule, rate_limit_failure_decision,
}
use ddag.Gateway.Limits.{Page, atoi, effective_limit, pagination}
use ddag.Gateway.Env.{
  Claims, Request, Built, Query, Reply, refused, limited, from_cache, answered, Result, result,
  failed, Env, State, Stored,
}

-- `strings.HasPrefix(h, "Bearer ")`, with what stands behind it.
unfoldable pub after_prefix : Text → Text → Option Text
after_prefix [] s = some s
after_prefix (c ∷ p) [] = none
after_prefix (c ∷ p) (d ∷ s) = if c == d then after_prefix p s else none

abbrev pub is_list : ℤ → Bool
is_list (pos n) = not (n == 1)
is_list _ = true

abbrev pub is_enabled : Option CacheRule → Bool
is_enabled none = false
is_enabled (some rule) = rule.enabled

abbrev pub ttl_of : Option CacheRule → ℤ
ttl_of none = pos 0
ttl_of (some rule) = rule.ttl_seconds

-- Redis drops no entry that is set with a time to live that is not positive.
abbrev pub expiry : ℕ → ℤ → Option ℕ
expiry now (pos (suc n)) = some (now + suc n)
expiry now _ = none

abbrev pub unexpired : ℕ → Text → Option ℕ → Option Text
unexpired now bytes none = some bytes
unexpired now bytes (some time) = if ltb now time then some bytes else none

-- What Redis gives for a key.
abbrev pub alive : ℕ → Option Stored → Option Text
alive now none = none
alive now (some e) = unexpired now e.bytes e.expires_at

abbrev pub varies : Option CacheRule → Bool
varies none = false
varies (some rule) = rule.vary_by_client

module _ {P : Type 0} (env : Env P) where
  token_claims : Option Text → Option Claims
  unfolding trim_left trim_right
  token_claims none = none
  token_claims (some token) = env.parse_token (trim_space token)

  unfoldable pub authenticate : Request → Option Claims
  unfolding token_claims after_prefix
  authenticate r = token_claims (after_prefix (codes "Bearer ") r.authorization)

  unfoldable pub blocked_by : Option (List IpWhitelist) → Text → Bool
  blocked_by none ip = true
  blocked_by (some []) ip = true
  blocked_by (some (e ∷ entries)) ip =
      not (ip_allowed env.net ip (map (λ x. x.ip_cidr) (e ∷ entries)))

  -- `checkIP`: whether the address is blocked.
  unfoldable pub check_ip : Request → Text → Text → Bool
  unfolding blocked_by
  check_ip r client_id api_id =
      blocked_by (env.lookups.ip_whitelists_for client_id api_id) r.client_ip

  abbrev unlimited : Counters → Counters × Decision × Bool
  unlimited redis = (
    redis,
    record { allowed = true; limit = 0; remaining = 0; reset_seconds = 0; exceeded_scope = [] },
    false,
  )

  limited_by : Option (List RateLimitRule) → Counters → Text → Counters × Decision × Bool
  limited_by none redis base = unlimited redis
  limited_by (some []) redis base = unlimited redis
  limited_by (some (rule ∷ rules)) redis base =
      if env.redis_ok
      then (let (after, decision) = allow env.ttl redis base (
            windows_from_rule rule.requests_per_second rule.requests_per_minute
              rule.requests_per_hour rule.requests_per_day) in
          (after, decision, not decision.allowed))
      else (let (decision, closed) = rate_limit_failure_decision env.fail_mode in
          (redis, decision, closed))

  -- `checkRateLimit`, with the counters after it.
  unfoldable pub check_rate_limit : Counters → Client → ApiDefinition → Counters × Decision × Bool
  unfolding limited_by
  check_rate_limit redis client api =
      limited_by (env.lookups.rate_limit_rules_for client.id api.id) redis
        (client.client_id ++ (codes ":" ++ api.id))

  -- The steps 3 and 4 of `serve`, for the client that the claims name.
  unfoldable pub check_client : ApiDefinition → Request → Option Client → Result Client
  check_client api r none = failed forbidden
  check_client api r (some client) =
      if not (eq_text client.status (codes "active"))
      then failed forbidden
      else if not (env.lookups.client_has_api_access client.id api.id)
      then failed forbidden
      else if check_ip r client.id api.id
      then failed forbidden
      else result client

  unfoldable pub check_claims : ApiDefinition → Request → Option Claims → Result Client
  check_claims api r none = failed unauthorized
  check_claims api r (some claims) =
      if not (has_scope claims.scope api.required_scope)
      then failed scope_forbidden
      else check_client api r (env.lookups.client_by_client_id claims.client_id)

  -- The steps 1 to 4 of `serve`.
  unfoldable pub check_caller : ApiDefinition → Request → Result Client
  unfolding check_claims check_client
  check_caller api r = check_claims api r (authenticate r)

  -- `load`: one query to the connector, where the API has a connection and a queue slot is free.
  unfoldable pub load_from : Option Text → ApiDefinition → Built → Page → State → State × Result P
  load_from none api built page s = (s, failed internal)
  load_from (some connection) api built page s =
      let q : Query = record {
        connector_type = api.connector_type;
        connection_id = connection;
        built = built;
        limit = page.limit;
        offset = page.offset;
      } in
      if not (env.slot_free (api.id ++ (codes ":" ++ api.connector_type)))
      then (s, failed backpressure_limit)
      else (record s { queries = q ∷ s.queries }, env.query q page (is_list api.max_limit))

  unfoldable pub load : ApiDefinition → Built → Page → State → State × Result P
  unfolding load_from
  load api built page s = load_from api.database_connection_id api built page s

  abbrev pub entry_of : P → ℤ → Stored
  entry_of p ttl = record { bytes = env.encode p; expires_at = expiry env.stored_at ttl }

  unfoldable pub store_result : Text → ℤ → State × Result P → State × Result P
  store_result key ttl (s, failed code) = (s, failed code)
  store_result key ttl (s, result p) =
      (record s { cache = insert key (entry_of p ttl) s.cache }, result p)

  -- `resolvePayload`: a single caller of the flight group runs the function itself.
  unfoldable pub resolve_payload :
      ApiDefinition → Built → Page → Bool → Text → State → State × Result P
  unfolding load store_result
  resolve_payload api built page cache_enabled key s =
      if cache_enabled && is_cacheable (operation_from_method api.method)
      then store_result key (ttl_of (env.lookups.cache_rule_for api.id)) (load api built page s)
      else load api built page s

  unfoldable pub reply : State × Result P → State × Reply P
  reply (s, failed code) = (s, refused code)
  reply (s, result p) = (s, answered p)

  abbrev pub decoded : Option Text → Option P
  decoded none = none
  decoded (some b) = env.decode b

  -- A cache entry that is no valid JSON is evicted.
  abbrev pub evict : Option Text → Text → State → State
  evict none key s = s
  evict (some b) key s = record s { cache = delete key s.cache }

  unfoldable pub cached_or :
      Option P → Option Text → ApiDefinition → Built → Page → Text → State → State × Reply P
  unfolding reply
  cached_or (some p) entry api built page key s = (s, from_cache p)
  cached_or none entry api built page key s =
      reply (resolve_payload api built page true key (evict entry key s))

  abbrev pub key_of : ApiDefinition → Client → Built → Page → Text
  key_of api client built page =
      env.cache_key api.id client.client_id (varies (env.lookups.cache_rule_for api.id)) built
        page.limit page.offset

  -- The steps 7 to 9 of `serve`.
  unfoldable pub fetch : ApiDefinition → Client → Built → Page → State → State × Reply P
  unfolding cached_or reply
  fetch api client built page s =
      let key = key_of api client built page in
      let entry = alive env.read_at (lookup key s.cache) in
      if is_enabled (env.lookups.cache_rule_for api.id)
      then cached_or (decoded entry) entry api built page key s
      else reply (resolve_payload api built page false key s)

  abbrev pub page_of : ApiDefinition → Request → Page
  page_of api r =
      pagination
        (effective_limit api.default_limit api.max_limit env.max_limit env.default_limit
          (atoi r.limit))
        r.page r.offset

  unfoldable pub fetch_built :
      ApiDefinition → Client → Request → Result Built → State → State × Reply P
  fetch_built api client r (failed code) s = (s, refused code)
  fetch_built api client r (result built) s = fetch api client built (page_of api r) s

  unfoldable pub refuse_limited : Decision → Reply P
  refuse_limited d =
      if eq_text d.exceeded_scope (codes "fail_closed")
      then refused source_db_unavailable
      else limited d

  -- The steps 5 to 9 of `serve`.
  unfoldable pub serve_client :
      ApiDefinition → Dict Text → Request → Result Client → State → State × Reply P
  serve_client api path_params r (failed code) s = (s, refused code)
  serve_client api path_params r (result client) s =
      let (counters, decision, is_limited) = check_rate_limit s.counters client api in
      let t = record s { counters = counters } in
      if is_limited
      then (t, refuse_limited decision)
      else fetch_built api client r (env.build_query api path_params r) t

  unfoldable pub serve_route : Found → Request → State → State × Reply P
  serve_route none r s = (s, refused not_found)
  serve_route (some (route, path_params)) r s =
      serve_client route.api path_params r (check_caller route.api r) s

  unfoldable pub serve : Request → State → State × Reply P
  unfolding serve_route
  serve r s = serve_route (match_route env.routes r.method r.path) r s
