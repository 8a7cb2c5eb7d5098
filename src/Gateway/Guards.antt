-- ===== src/Gateway/Guards.antt =====
-- internal/gatewaysvc/service.go: what a request must pass before it reaches the cache or a connector.
use ddag.Base.{
  arith, ◌≡◌, refl, ◌⊎◌, inl, inr, true, false, Bool-cases, Option, none, some, Text, codes,
  eq_text, Dict,
}
use ddag.Models.{ApiDefinition, Client}
use ddag.Errors.{Code, not_found, source_db_unavailable}
use ddag.Router.{Route, Found, match_route}
use ddag.Policy.Scope.{has_scope}
use ddag.Policy.RateLimit.{Decision}
use ddag.Gateway.Env.{
  Claims, Request, Built, Env, State, Reply, refused, limited, Result, result, failed,
}
use ddag.Gateway.Service.{
  authenticate, check_ip, check_rate_limit, check_client, check_claims, check_caller, fetch,
  fetch_built, page_of, refuse_limited, serve_client, serve_route, serve,
}

module _ {P : Type 0} (env : Env P) where
  -- The token is valid with these claims and has the API's scope; the client of the token is active,
  -- has been granted the API, and calls from an address that is allowed.
  abbrev pub Permitted : ApiDefinition → Request → Claims → Client → Type 0
  Permitted api r claims client =
      (authenticate env r ≡ some claims)
      × (has_scope claims.scope api.required_scope ≡ true)
      × (env.lookups.client_by_client_id claims.client_id ≡ some client)
      × (eq_text client.status (codes "active") ≡ true)
      × (env.lookups.client_has_api_access client.id api.id ≡ true)
      × (check_ip env r client.id api.id ≡ false)

  check_client-result :
      (api : ApiDefinition) (r : Request) (found : Option Client) (client : Client)
      → check_client env api r found ≡ result client
      → (found ≡ some client)
        × (eq_text client.status (codes "active") ≡ true)
        × (env.lookups.client_has_api_access client.id api.id ≡ true)
        × (check_ip env r client.id api.id ≡ false)
  unfolding check_client
  check_client-result api r none client e = ground arith
  check_client-result api r (some c) client e = ground arith

  check_claims-result :
      (api : ApiDefinition) (r : Request) (found : Option Claims) (client : Client)
      → authenticate env r ≡ found
      → check_claims env api r found ≡ result client
      → (claims : Claims) × Permitted api r claims client
  unfolding check_claims
  check_claims-result api r none client a e = ground arith
  check_claims-result api r (some claims) client a e =
      let (named, active, granted, inside) =
        check_client-result api r (env.lookups.client_by_client_id claims.client_id) client
          (ground arith) in
      (claims, (a, ground arith, named, active, granted, inside))

  -- What a request did: it was refused and touched neither the cache nor a connector, or it got to
  -- the cache and the connector with every check passed.
  abbrev pub Untouched : State → State → Type 0
  Untouched s t = (t.cache ≡ s.cache) × (t.queries ≡ s.queries)

  abbrev pub IsRefusal : Reply P → Type 0
  IsRefusal x = ((code : Code) × (x ≡ refused code)) ⊎ ((d : Decision) × (x ≡ limited d))

  -- A request that passed the checks, and did what the steps 7 to 9 do.
  abbrev pub Fetched :
      ApiDefinition → Dict Text → Request → Client → State → State × Reply P → Type 0
  Fetched api path_params r client s done =
      (built : Built) × (env.build_query api path_params r ≡ result built)
      × (done
          ≡ fetch env api client built (page_of env api r)
              (record s { counters = (check_rate_limit env s.counters client api).0 }))

  abbrev pub Passed : Request → State → State × Reply P → Type 0
  Passed r s done =
      (route : Route) × (path_params : Dict Text) × (claims : Claims) × (client : Client)
      × (match_route env.routes r.method r.path ≡ some (route, path_params))
      × Permitted route.api r claims client
      × ((check_rate_limit env s.counters client route.api).2 ≡ false)
      × Fetched route.api path_params r client s done

  abbrev pub Refused : State → State × Reply P → Type 0
  Refused s done = Untouched s done.0 × IsRefusal done.1

  refuse_limited-IsRefusal : (d : Decision) → IsRefusal (refuse_limited env d)
  unfolding refuse_limited
  refuse_limited-IsRefusal d = elim (Bool-cases (eq_text d.exceeded_scope (codes "fail_closed"))) [
    | inl closed ↦ inl (source_db_unavailable, rw closed refl)
    | inr over ↦ inr (d, rw over refl)
  ]

  fetch_built-cases :
      (api : ApiDefinition) (path_params : Dict Text) (client : Client) (r : Request)
      (built : Result Built) (s : State)
      → env.build_query api path_params r ≡ built
      → let done =
          fetch_built env api client r built
            (record s { counters = (check_rate_limit env s.counters client api).0 }) in
        Refused s done ⊎ Fetched api path_params r client s done
  unfolding fetch_built
  fetch_built-cases api path_params client r (failed code) s e =
      inl ((refl, refl), inl (code, refl))
  fetch_built-cases api path_params client r (result built) s e = inr (built, e, refl)

  serve_client-cases :
      (api : ApiDefinition) (path_params : Dict Text) (client : Client) (r : Request) (s : State)
      → let done = serve_client env api path_params r (result client) s in
        Refused s done
        ⊎ (((check_rate_limit env s.counters client api).2 ≡ false)
            × Fetched api path_params r client s done)
  unfolding serve_client
  serve_client-cases api path_params client r s =
      elim (Bool-cases (check_rate_limit env s.counters client api).2) [
        | inl over ↦ rw over (
            inl (
              (refl, refl),
              refuse_limited-IsRefusal (check_rate_limit env s.counters client api).1,
            ))
        | inr within ↦
            rw within
              (elim (fetch_built-cases api path_params client r (env.build_query api path_params r)
                s refl) [ inl refusal ↦ inl refusal | inr fetched ↦ inr (refl, fetched) ])
      ]

  serve_caller-cases :
      (route : Route) (path_params : Dict Text) (caller : Result Client) (r : Request) (s : State)
      → match_route env.routes r.method r.path ≡ some (route, path_params)
      → check_caller env route.api r ≡ caller
      → let done = serve_client env route.api path_params r caller s in
        Refused s done ⊎ Passed r s done
  unfolding serve_client check_caller
  serve_caller-cases route path_params (failed code) r s m c = inl ((refl, refl), inl (code, refl))
  serve_caller-cases route path_params (result client) r s m c =
      let (claims, permitted) =
        check_claims-result route.api r (authenticate env r) client refl c in
      elim (serve_client-cases route.api path_params client r s) [
        | inl refusal ↦ inl refusal
        | inr (within, fetched) ↦
            inr (route, path_params, claims, client, m, permitted, within, fetched)
      ]

  serve_route-cases :
      (found : Found) (r : Request) (s : State)
      → match_route env.routes r.method r.path ≡ found
      → let done = serve_route env found r s in Refused s done ⊎ Passed r s done
  unfolding serve_route
  serve_route-cases none r s m = inl ((refl, refl), inl (not_found, refl))
  serve_route-cases (some (route, path_params)) r s m =
      serve_caller-cases route path_params (check_caller env route.api r) r s m refl

-- A request either is refused, and then neither the cache changes nor a query is sent, or it passed
-- every check: its method and path have a route, its token is valid and has the API's scope, the
-- client is active and has been granted the API, the address is allowed, the rate limiter does not
-- limit it, and its query was built. What it then does is exactly the cache and connector steps.
pub serve-cases :
    {P : Type 0} (env : Env P) (r : Request) (s : State)
    → Refused env s (serve env r s) ⊎ Passed env r s (serve env r s)
unfolding serve
serve-cases env r s = serve_route-cases env (match_route env.routes r.method r.path) r s refl
