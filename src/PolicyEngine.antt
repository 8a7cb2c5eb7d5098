-- ===== src/PolicyEngine.antt =====
-- internal/policyengine/service.go: the policy decision service, on the routes and the limiter that the
-- gateway's own checks use (Gateway/Env.antt), and on the lookups of its store, which it asks for each
-- request. They are an argument apart from the gateway's, which may come from a snapshot: the two order
-- rate limit rules differently. A failed lookup of a client's access denies it, as in the source. Left out: decoding the body, and the refresh of the routes.
pub mod Agreement
use ddag.Base.{
  Bool, true, false, not, Option, none, some, List, [], ◌∷◌, ◌++◌, map, if◌then◌else◌, ℤ, pos,
  negsuc, ℕ, Text, codes, eq_text,
}
use ddag.Models.{ApiDefinition, Client, RateLimitRule, IpWhitelist}
use ddag.Router.{Found, match_route}
use ddag.Policy.Scope.{has_scope}
use ddag.Policy.Addresses.{ip_allowed}
use ddag.Policy.RateLimit.{Counters, Decision, allow, windows_from_rule}
use ddag.Gateway.Env.{Env, Lookups}

pub record CheckRequest : Type 0 where
  pub client_id : Text
  pub method : Text
  pub path : Text
  pub scope : Text
  pub ip_address : Text

pub data Reason : Type 0 where
  api_not_found client_inactive scope_denied access_denied ip_blocked rate_limited : Reason

pub data CheckResponse : Type 0 where
  denied : Reason → CheckResponse
  -- remaining, reset_seconds
  allowed : ℤ → ℕ → CheckResponse

module _ {P : Type 0} (env : Env P) (store : Lookups) where
  unfoldable pub is_blocked : Text → Option (List IpWhitelist) → Bool
  is_blocked ip none = true
  is_blocked ip (some []) = true
  is_blocked ip (some (e ∷ entries)) =
      not (ip_allowed env.net ip (map (λ x. x.ip_cidr) (e ∷ entries)))

  abbrev pub decided : Counters × Decision → Counters × CheckResponse
  decided (after, d) =
      if not d.allowed
      then (after, denied rate_limited)
      else (after, allowed (pos d.remaining) d.reset_seconds)

  -- The limiter is asked for the first rule; its failure allows.
  unfoldable pub rate_check :
      Text → Option (List RateLimitRule) → Counters → Counters × CheckResponse
  rate_check base none redis = (redis, allowed (negsuc 0) 0)
  rate_check base (some []) redis = (redis, allowed (negsuc 0) 0)
  rate_check base (some (rule ∷ rules)) redis =
      if env.redis_ok
      then decided (
          allow env.ttl redis base (
            windows_from_rule rule.requests_per_second rule.requests_per_minute
              rule.requests_per_hour rule.requests_per_day))
      else (redis, allowed (negsuc 0) 0)

  unfoldable pub check_found :
      CheckRequest → ApiDefinition → Option Client → Counters → Counters × CheckResponse
  unfolding is_blocked rate_check
  check_found req api none redis = (redis, denied client_inactive)
  check_found req api (some client) redis =
      if not (eq_text client.status (codes "active"))
      then (redis, denied client_inactive)
      else if not (has_scope req.scope api.required_scope)
      then (redis, denied scope_denied)
      else if not (store.client_has_api_access client.id api.id)
      then (redis, denied access_denied)
      else if is_blocked req.ip_address (store.ip_whitelists_for client.id api.id)
      then (redis, denied ip_blocked)
      else rate_check (client.client_id ++ (codes ":" ++ api.id))
          (store.rate_limit_rules_for client.id api.id) redis

  unfoldable pub check_route : CheckRequest → Found → Counters → Counters × CheckResponse
  unfolding check_found
  check_route req none redis = (redis, denied api_not_found)
  check_route req (some (route, path_params)) redis =
      check_found req route.api (store.client_by_client_id req.client_id) redis

  unfoldable pub handle_check : CheckRequest → Counters → Counters × CheckResponse
  unfolding check_route
  handle_check req redis = check_route req (match_route env.routes req.method req.path) redis
