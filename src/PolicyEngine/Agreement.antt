-- ===== src/PolicyEngine/Agreement.antt =====
-- internal/policyengine/service.go against the gateway's own checks (internal/gatewaysvc/service.go).
use ddag.Base.{
  ◌≡◌, refl, ap, sym, ◌∙◌, negsuc, Bool, true, false, not, Bool-cases, inl, inr, Option, none, some,
  List, [], ◌∷◌, ◌++◌, Text, codes, eq_text,
}
use ddag.Models.{ApiDefinition, Client, RateLimitRule, IpWhitelist}
use ddag.Errors.{Result, result, failed}
use ddag.Router.{Found, match_route}
use ddag.Policy.Scope.{has_scope}
use ddag.Policy.RateLimit.{Counters, Decision, allow, windows_from_rule}
use ddag.Gateway.Env.{Env, Request, Claims, Lookups}
use ddag.Gateway.Service.{
  authenticate, check_ip, blocked_by, check_rate_limit, check_client, check_claims, check_caller,
}
use ddag.PolicyEngine.{
  CheckRequest, CheckResponse, denied, allowed, is_blocked, decided, rate_check, check_found,
  check_route, handle_check,
}

-- The request that stands for a call of the gateway with these claims.
abbrev pub check_of : Claims → Request → CheckRequest
check_of claims r = record {
  client_id = claims.client_id;
  method = r.method;
  path = r.path;
  scope = claims.scope;
  ip_address = r.client_ip;
}

abbrev pub is_allowed : CheckResponse → Bool
is_allowed (denied reason) = false
is_allowed (allowed remaining reset) = true

module _ {P : Type 0} (env : Env P) where
  -- Whether the gateway lets a caller pass its checks and its rate limits, with the counters after.
  abbrev pub admits_client : ApiDefinition → Result Client → Counters → Counters × Bool
  admits_client api (failed code) redis = (redis, false)
  admits_client api (result client) redis =
      let (after, decision, is_limited) = check_rate_limit env redis client api in
      (after, not is_limited)

  abbrev pub admits_route : Request → Found → Counters → Counters × Bool
  admits_route r none redis = (redis, false)
  admits_route r (some (route, path_params)) redis =
      admits_client route.api (check_caller env route.api r) redis

  abbrev pub admits : Request → Counters → Counters × Bool
  admits r redis = admits_route r (match_route env.routes r.method r.path) redis

  abbrev verdict : Counters × CheckResponse → Counters × Bool
  verdict (redis, response) = (redis, is_allowed response)

  same_block :
      (ip : Text) (o : Option (List IpWhitelist))
      → is_blocked env env.lookups ip o ≡ blocked_by env o ip
  unfolding is_blocked blocked_by
  same_block ip none = refl
  same_block ip (some []) = refl
  same_block ip (some (e ∷ es)) = refl

  verdict-decided :
      (p : Counters × Decision) → verdict (decided env env.lookups p) ≡ (p.0, not (not p.1.allowed))
  verdict-decided p = elim (Bool-cases p.1.allowed) [ inl e ↦ rw e refl | inr e ↦ rw e refl ]

  same_limit :
      (client : Client) (api : ApiDefinition) (o : Option (List RateLimitRule)) (redis : Counters)
      → env.redis_ok ≡ true
      → env.lookups.rate_limit_rules_for client.id api.id ≡ o
      → verdict (rate_check env env.lookups (client.client_id ++ (codes ":" ++ api.id)) o redis)
        ≡ admits_client api (result client) redis
  unfolding rate_check check_rate_limit
  same_limit client api none redis up e = rw e refl
  same_limit client api (some []) redis up e = rw e refl
  same_limit client api (some (rule ∷ rules)) redis up e =
      rw (e, up)
        (verdict-decided (
          allow env.ttl redis (client.client_id ++ (codes ":" ++ api.id)) (
            windows_from_rule rule.requests_per_second rule.requests_per_minute
              rule.requests_per_hour rule.requests_per_day)))

  same_client :
      (claims : Claims) (r : Request) (api : ApiDefinition) (o : Option Client) (redis : Counters)
      → env.redis_ok ≡ true
      → authenticate env r ≡ some claims
      → env.lookups.client_by_client_id claims.client_id ≡ o
      → verdict (check_found env env.lookups (check_of claims r) api o redis)
        ≡ admits_client api (check_caller env api r) redis
  unfolding check_found check_caller check_claims check_client check_ip
  same_client claims r api none redis up auth e =
      elim (Bool-cases (has_scope claims.scope api.required_scope)) [
        | inl h ↦ rw (auth, check_claims, h, e) refl
        | inr h ↦ rw (auth, check_claims, h) refl
      ]
  same_client claims r api (some client) redis up auth e =
      elim (Bool-cases (has_scope claims.scope api.required_scope)) [
        | inr h ↦ elim (Bool-cases (eq_text client.status (codes "active"))) [
          | inl a ↦ rw (auth, check_claims, h, a) refl
          | inr a ↦ rw (auth, check_claims, h, a) refl
        ]
        | inl h ↦ elim (Bool-cases (eq_text client.status (codes "active"))) [
          | inr a ↦ rw (auth, check_claims, h, e, a) refl
          | inl a ↦ elim (Bool-cases (env.lookups.client_has_api_access client.id api.id)) [
            | inr g ↦ rw (auth, check_claims, h, e, a, g) refl
            | inl g ↦
                elim (Bool-cases
                  (blocked_by env (env.lookups.ip_whitelists_for client.id api.id) r.client_ip)) [
                    | inl b ↦
                        rw
                          (
                            auth,
                            check_claims,
                            h,
                            e,
                            a,
                            g,
                            same_block r.client_ip (env.lookups.ip_whitelists_for client.id api.id),
                            b,
                          )
                          refl
                    | inr b ↦
                        rw
                          (
                            auth,
                            check_claims,
                            h,
                            e,
                            a,
                            g,
                            same_block r.client_ip (env.lookups.ip_whitelists_for client.id api.id),
                            b,
                          )
                          (same_limit client api (env.lookups.rate_limit_rules_for client.id api.id)
                            redis up refl)
                  ]
          ]
        ]
      ]

  same_route :
      (claims : Claims) (r : Request) (found : Found) (redis : Counters)
      → env.redis_ok ≡ true
      → authenticate env r ≡ some claims
      → verdict (check_route env env.lookups (check_of claims r) found redis)
        ≡ admits_route r found redis
  unfolding check_route
  same_route claims r none redis up auth = refl
  same_route claims r (some (route, path_params)) redis up auth =
      same_client claims r route.api (env.lookups.client_by_client_id claims.client_id) redis up
        auth refl

abbrev pub first_rule : Option (List RateLimitRule) → Option RateLimitRule
first_rule none = none
first_rule (some []) = none
first_rule (some (rule ∷ rules)) = some rule

-- Two sources of the metadata give the same answers, of the rate limit rules only the first one, which
-- is the one that is applied.
abbrev pub SameAnswers : Lookups → Lookups → Type 0
SameAnswers l m =
    ((client_id : Text) → l.client_by_client_id client_id ≡ m.client_by_client_id client_id)
    × ((client api : Text)
        → l.client_has_api_access client api ≡ m.client_has_api_access client api)
    × ((client api : Text) → l.ip_whitelists_for client api ≡ m.ip_whitelists_for client api)
    × ((client api : Text)
        → first_rule (l.rate_limit_rules_for client api)
          ≡ first_rule (m.rate_limit_rules_for client api))

module _ {P : Type 0} (env : Env P) (l m : Lookups) where
  abbrev rate_check_first : Text → Option RateLimitRule → Counters → Counters × CheckResponse
  rate_check_first base none redis = (redis, allowed (negsuc 0) 0)
  rate_check_first base (some rule) redis = rate_check env l base (some (rule ∷ [])) redis

  rate_check-first :
      (base : Text) (o : Option (List RateLimitRule)) (redis : Counters)
      → rate_check env l base o redis ≡ rate_check_first base (first_rule o) redis
  unfolding rate_check
  rate_check-first base none redis = refl
  rate_check-first base (some []) redis = refl
  rate_check-first base (some (rule ∷ rules)) redis = refl

  same_rates :
      (base : Text) (o o' : Option (List RateLimitRule)) (redis : Counters)
      → first_rule o ≡ first_rule o'
      → rate_check env l base o redis ≡ rate_check env l base o' redis
  same_rates base o o' redis e =
      rate_check-first base o redis
      ∙ ap (λ x. rate_check_first base x redis) e
      ∙ sym (rate_check-first base o' redis)

  same_found :
      (req : CheckRequest) (api : ApiDefinition) (o : Option Client) (redis : Counters)
      → SameAnswers l m
      → check_found env l req api o redis ≡ check_found env m req api o redis
  unfolding check_found rate_check is_blocked
  same_found req api none redis same = refl
  same_found req api (some client) redis (clients, access, addresses, rules) =
      rw
        (
          access client.id api.id,
          addresses client.id api.id,
          same_rates (client.client_id ++ (codes ":" ++ api.id))
              (l.rate_limit_rules_for client.id api.id) (m.rate_limit_rules_for client.id api.id)
              redis (rules client.id api.id),
        )
        refl

  same_check_route :
      (req : CheckRequest) (found : Found) (redis : Counters)
      → SameAnswers l m
      → check_route env l req found redis ≡ check_route env m req found redis
  unfolding check_route
  same_check_route req none redis same = refl
  same_check_route req (some (route, path_params)) redis same =
      ap (λ o. check_found env l req route.api o redis) (same.0 req.client_id)
      ∙ same_found req route.api (m.client_by_client_id req.client_id) redis same

-- While the limiter answers, with the same routes, and where the store and the gateway's metadata know the
-- same clients, access and addresses and put the same rate limit rule first: for a request with a valid token the decision
-- service allows exactly what the gateway's own checks admit (route, scope, client, access, address and
-- rate limits), and leaves the same counters.
pub handle_check-admits :
    {P : Type 0} (env : Env P) (store : Lookups) (claims : Claims) (r : Request) (redis : Counters)
    → SameAnswers store env.lookups
    → env.redis_ok ≡ true
    → authenticate env r ≡ some claims
    → (
      (handle_check env store (check_of claims r) redis).0,
      is_allowed (handle_check env store (check_of claims r) redis).1,
    )
      ≡ admits env r redis
unfolding handle_check
handle_check-admits env store claims r redis same up auth =
    let found = match_route env.routes r.method r.path in
    ap (λ p. (p.0, is_allowed p.1))
      (same_check_route env store env.lookups (check_of claims r) found redis same)
    ∙ same_route env claims r found redis up auth
