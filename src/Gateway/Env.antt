-- ===== src/Gateway/Env.antt =====
-- internal/gatewaysvc/service.go: what the pipeline of the gateway works on. What a request leaves behind
-- is a State: the limiter's counters, the response cache as Redis keeps it (internal/cache/cache.go),
-- with the time at which each entry is dropped, and the queries that were handed to the connector
-- client, the last one first; the dispatcher may send one of them again over HTTP where gRPC fails
-- (Dispatch.antt). What comes from outside is in `Env`: the token library with its keys, the `net`
-- package, JSON and hashing, the connector's answer, whether a queue slot came free, the clock of
-- Redis, and the parameter and query builders of internal/gateway, on which nothing here depends.
use ddag.Base.{ℕ, Bool, Option, List, ℤ, Text, Dict}
use ddag.Models.{ApiDefinition, Client, CacheRule, RateLimitRule, IpWhitelist}
use ddag.Errors.{Code, Result}
pub use ddag.Errors.{Result, result, failed}
use ddag.Router.{Route}
use ddag.Policy.Addresses.{Net}
use ddag.Policy.RateLimit.{Counters, Decision}
use ddag.Gateway.Limits.{Page}

pub record Claims : Type 0 where
  pub client_id : Text
  pub scope : Text

pub record Request : Type 0 where
  pub method : Text
  pub path : Text
  pub client_ip : Text
  pub authorization : Text
  pub limit : Text
  pub page : Text
  pub offset : Text
  pub body : Text

-- What `BuildDynamicQuery` gives, with the identity of the parameters that the cache key depends on.
pub record Built : Type 0 where
  pub sql : Text
  pub params : Text

-- A query for the connector.
pub record Query : Type 0 where
  pub connector_type : Text
  pub connection_id : Text
  pub built : Built
  pub limit : ℕ
  pub offset : ℤ

pub data Reply (P : Type 0) : Type 0 where
  refused : Code → Reply P
  limited : Decision → Reply P
  from_cache : P → Reply P
  answered : P → Reply P

-- The metadata lookups of the service: from the snapshot, or from the store.
pub record Lookups : Type 0 where
  pub client_by_client_id : Text → Option Client
  pub client_has_api_access : Text → Text → Bool
  pub ip_whitelists_for : Text → Text → Option (List IpWhitelist)
  pub rate_limit_rules_for : Text → Text → Option (List RateLimitRule)
  pub cache_rule_for : Text → Option CacheRule

pub record Env (P : Type 0) : Type 1 where
  pub net : Net
  pub routes : List Route
  pub lookups : Lookups
  pub parse_token : Text → Option Claims
  pub build_query : ApiDefinition → Dict Text → Request → Result Built
  pub cache_key : Text → Text → Bool → Built → ℕ → ℤ → Text
  pub encode : P → Text
  pub decode : Text → Option P
  pub query : Query → Page → Bool → Result P
  pub slot_free : Text → Bool
  -- Whether `Allow` gives no error.
  pub redis_ok : Bool
  -- The times, in seconds, at which Redis looks up the cache entry and stores the response.
  pub read_at : ℕ
  pub stored_at : ℕ
  pub ttl : Text → ℕ
  pub fail_mode : Text
  pub max_limit : ℤ
  pub default_limit : ℤ

-- An entry of the cache, with the time at which Redis drops it, if it does.
pub record Stored : Type 0 where
  pub bytes : Text
  pub expires_at : Option ℕ

pub record State : Type 0 where
  pub counters : Counters
  pub cache : Dict Stored
  pub queries : List Query
