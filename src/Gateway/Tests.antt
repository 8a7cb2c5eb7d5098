-- ===== src/Gateway/Tests.antt =====
-- Runs of the gateway pipeline on a concrete service, with one client and one route for reads and one
-- for writes.
use ddag.Base.{
  delete, arith, ◌≡◌, ◌≤◌, ◌<◌, ◌⊎◌, refl, true, false, Option, none, some, List, [], ◌∷◌, ◌++◌,
  pos, negsuc, ℤ, Text, codes, eq_text, lookup, insert, if◌then◌else◌,
}
use ddag.Models.{
  equal_fold, trim_left, trim_right, ApiDefinition, Client, CacheRule, RateLimitRule, IpWhitelist,
  operation_from_method,
}
use ddag.Router.{
  match_loop, try_route, parse_path, split_path, split, bind_segments, segment, closed_by_brace,
  Route, build, match_route,
}
use ddag.Policy.Addresses.{entries_allow, entry_allows, ip_allowed}
use ddag.Policy.Scope.{has_scope, contains, fields_from}
use ddag.Policy.RateLimit.{
  active_windows, allow, decide_loop, multi_window_script, rate_limit_failure_decision,
  windows_from_rule,
}
use ddag.Gateway.Limits.{atoi, digits, int64, unsigned, Page, pagination, effective_limit}
use ddag.Gateway.Metadata.{
  grants, Snapshot, applies, filter, rate_limit_rules_for, client_by_client_id,
  client_has_api_access, ip_whitelists_for, cache_rule_for,
}
use ddag.Gateway.Rules.{Leads, rate_limit_rules_for-Leads}
use ddag.PolicyEngine.{handle_check}
use ddag.PolicyEngine.Agreement.{check_of, is_allowed, admits, handle_check-admits}
use ddag.Gateway.Env.{
  Claims, Request, Built, Env, State, Stored, Query, from_cache, answered, result,
}
use ddag.Gateway.Service.{
  after_prefix, blocked_by, cached_or, check_claims, check_client, check_ip, check_rate_limit,
  fetch_built, load, load_from, refuse_limited, reply, resolve_payload, serve_route, store_result,
  serve_client, check_caller, authenticate, fetch, serve,
}
use ddag.Gateway.Guards.{Refused, Passed, serve-cases}
use ddag.Gateway.Served.{serve-OnlyLoses, serve-one_bounded_query, fetch-fetch}

-- An API without a default limit gets the gateway's, above its own maximum.
default_over_max : effective_limit (pos 0) (pos 10) (pos 1000) (pos 100) none ≡ 100
unfolding effective_limit
default_over_max = refl

-- A page number that is too large wraps the offset round to a negative one.
negative_offset : (pagination 1000 (codes "9223372036854775807") []).offset ≡ negsuc 1999
unfolding pagination
negative_offset = refl

abbrev client : Client
client = record {
  id = codes "1";
  client_id = codes "app";
  client_secret_hash = codes "hash";
  status = codes "active";
  access_token_ttl_seconds = pos 0;
  refresh_token_ttl_seconds = pos 0;
  scopes = codes "read" ∷ [];
  apis = codes "r" ∷ codes "w" ∷ [];
}

abbrev rule_for : Option Text → Option Text → ℤ → RateLimitRule
rule_for client_id api_id n = record {
  client_id = client_id;
  api_definition_id = api_id;
  requests_per_second = n;
  requests_per_minute = pos 0;
  requests_per_hour = pos 0;
  requests_per_day = pos 0;
}

abbrev rules : List RateLimitRule
rules =
    rule_for none none (pos 100)
    ∷ rule_for (some (codes "1")) none (pos 50)
    ∷ rule_for (some (codes "1")) (some (codes "r")) (pos 2)
    ∷ rule_for (some (codes "2")) (some (codes "r")) (pos 9)
    ∷ []

abbrev everywhere : IpWhitelist
everywhere = record {
  scope_level = codes "global";
  client_id = none;
  api_definition_id = none;
  ip_cidr = codes "10.0.0.1";
  status = codes "active";
}

abbrev cached_rule : Text → CacheRule
cached_rule id = record {
  api_definition_id = id;
  enabled = true;
  ttl_seconds = pos 60;
  vary_by_client = true;
}

abbrev snapshot : Snapshot
snapshot = record {
  clients_by_client_id = (codes "app", client) ∷ [];
  clients_by_id = (codes "1", client) ∷ [];
  cache_rules = (codes "r", cached_rule (codes "r")) ∷ (codes "w", cached_rule (codes "w")) ∷ [];
  rate_rules = rules;
  ip_whitelists = everywhere ∷ [];
}

rate_limit_rules_for-Leads_example :
    Leads
      (rule_for (some (codes "1")) (some (codes "r")) (pos 2))
      (filter (applies (codes "1") (codes "r")) rules)
unfolding rate_limit_rules_for eq_text
rate_limit_rules_for-Leads_example =
    rate_limit_rules_for-Leads snapshot (codes "1") (codes "r")
      (rule_for (some (codes "1")) (some (codes "r")) (pos 2)) refl

abbrev api : Text → Text → Text → ApiDefinition
api id method path = record {
  id = id;
  method = method;
  path = path;
  required_scope = codes "users";
  database_connection_id = some (codes "db");
  connector_type = codes "postgres";
  default_limit = pos 50;
  max_limit = pos 100;
  query_template = codes "select 1";
  response_mapping = [];
  is_write = false;
}

abbrev read_api : ApiDefinition
read_api = api (codes "r") (codes "GET") (codes "/users")

abbrev write_api : ApiDefinition
write_api = api (codes "w") (codes "POST") (codes "/users")

abbrev routes : List Route
routes = build (read_api ∷ write_api ∷ [])

abbrev env : Env Text
env = record {
  net = record { Ip = Text; parse_ip = λ s. some s; equal = eq_text; parse_cidr = λ s. none };
  routes = routes;
  lookups = record {
    client_by_client_id = client_by_client_id snapshot;
    client_has_api_access = client_has_api_access snapshot;
    ip_whitelists_for = λ c a. some (ip_whitelists_for snapshot c a);
    rate_limit_rules_for = λ c a. some (rate_limit_rules_for snapshot c a);
    cache_rule_for = cache_rule_for snapshot;
  };
  parse_token = λ t.
      if eq_text t (codes "good")
      then some (record { client_id = codes "app"; scope = codes "orders users" })
      else none;
  build_query = λ a p r. result (record { sql = codes "select 1"; params = [] });
  cache_key = λ a c v b l o. a ++ c;
  encode = λ p. p;
  decode = λ b. some b;
  query = λ q page many. result (codes "rows");
  slot_free = λ key. true;
  redis_ok = true;
  read_at = 1000;
  stored_at = 1001;
  ttl = λ key. 900;
  fail_mode = codes "open";
  max_limit = pos 1000;
  default_limit = pos 100;
}

abbrev request : Text → Text → Request
request method token = record {
  method = method;
  path = codes "/users";
  client_ip = codes "10.0.0.1";
  authorization = codes "Bearer " ++ token;
  limit = codes "7";
  page = [];
  offset = [];
  body = [];
}

abbrev start : State
start = record { counters = []; cache = []; queries = [] }

abbrev read : Request
read = request (codes "GET") (codes "good")

abbrev write : Request
write = request (codes "POST") (codes "good")

serve-cases_example :
    Refused env start (serve env read start) ⊎ Passed env read start (serve env read start)
serve-cases_example = serve-cases env read start

abbrev read_claims : Claims
read_claims = record { client_id = codes "app"; scope = codes "orders users" }

read_claims_found : authenticate env read ≡ some read_claims
unfolding authenticate eq_text
read_claims_found = refl

handle_check-admits_example :
    (
      (handle_check env env.lookups (check_of read_claims read) []).0,
      is_allowed (handle_check env env.lookups (check_of read_claims read) []).1,
    )
    ≡ admits env read []
handle_check-admits_example =
    handle_check-admits env env.lookups read_claims read []
      ((λ c. refl), (λ c a. refl), (λ c a. refl), (λ c a. refl)) refl read_claims_found

-- The read is answered, and the same request again comes from the cache.
answered_then_cached : (serve env read start).1 ≡ answered (codes "rows")
unfolding serve match_route match_loop build try_route equal_fold eq_text parse_path split_path
    bind_segments segment serve_client check_caller authenticate has_scope client_by_client_id
    lookup client_has_api_access delete insert atoi digits effective_limit int64 pagination unsigned
    grants after_prefix blocked_by cached_or check_claims check_client check_ip check_rate_limit
    fetch fetch_built load load_from refuse_limited reply resolve_payload serve_route store_result
    operation_from_method trim_left trim_right entries_allow entry_allows ip_allowed active_windows
    allow decide_loop multi_window_script rate_limit_failure_decision windows_from_rule contains
    fields_from closed_by_brace split ip_whitelists_for cache_rule_for filter rate_limit_rules_for
answered_then_cached = refl

cached_next : (serve env read (serve env read start).0).1 ≡ from_cache (codes "rows")
unfolding serve match_route match_loop build try_route equal_fold eq_text parse_path split_path
    bind_segments segment serve_client check_caller authenticate has_scope client_by_client_id
    lookup client_has_api_access delete insert atoi digits effective_limit int64 pagination unsigned
    grants after_prefix blocked_by cached_or check_claims check_client check_ip check_rate_limit
    fetch fetch_built load load_from refuse_limited reply resolve_payload serve_route store_result
    operation_from_method trim_left trim_right entries_allow entry_allows ip_allowed active_windows
    allow decide_loop multi_window_script rate_limit_failure_decision windows_from_rule contains
    fields_from closed_by_brace split ip_whitelists_for cache_rule_for filter rate_limit_rules_for
cached_next = refl

abbrev read_route : Route
read_route = record {
  api = read_api;
  segments = record { literal = codes "users"; param = [] } ∷ [];
}

abbrev write_route : Route
write_route = record {
  api = write_api;
  segments = record { literal = codes "users"; param = [] } ∷ [];
}

abbrev kept : Stored
kept = record { bytes = codes "v"; expires_at = none }

abbrev warm : State
warm = record { counters = []; cache = (codes "k", kept) ∷ []; queries = [] }

serve-OnlyLoses_example : lookup (codes "k") warm.cache ≡ some kept
unfolding serve match_route match_loop build try_route equal_fold eq_text parse_path split_path
    bind_segments segment serve_client check_caller authenticate has_scope client_by_client_id
    lookup client_has_api_access delete insert atoi digits effective_limit int64 pagination unsigned
    grants after_prefix blocked_by cached_or check_claims check_client check_ip check_rate_limit
    fetch fetch_built load load_from refuse_limited reply resolve_payload serve_route store_result
    operation_from_method trim_left trim_right entries_allow entry_allows ip_allowed active_windows
    allow decide_loop multi_window_script rate_limit_failure_decision windows_from_rule contains
    fields_from closed_by_brace split ip_whitelists_for cache_rule_for filter rate_limit_rules_for
serve-OnlyLoses_example =
    serve-OnlyLoses env write warm write_route [] refl refl (codes "k") kept refl

serve-one_bounded_query_example :
    ((serve env read start).0.queries ≡ [])
    ⊎ ((q : Query) × ((serve env read start).0.queries ≡ q ∷ [])
        × (0 < q.limit)
        × (q.limit ≤ 100)
        × (q.limit ≤ 1000))
unfolding match_route match_loop build try_route equal_fold eq_text parse_path split_path
    bind_segments segment split trim_left trim_right closed_by_brace
serve-one_bounded_query_example =
    serve-one_bounded_query env read start read_route [] refl (omega arith) (omega arith)
      (omega arith)

abbrev built : Built
built = record { sql = codes "select 1"; params = [] }

abbrev first_page : Page
first_page = record { limit = 7; offset = pos 0; page = pos 1 }

abbrev after_read : State
after_read = (fetch env read_api client built first_page start).0

fetch-fetch_example :
    fetch (record env { read_at = 1060 }) read_api client built first_page after_read
    ≡ (after_read, from_cache (codes "rows"))
unfolding fetch cached_or reply resolve_payload load load_from store_result cache_rule_for lookup
    eq_text operation_from_method trim_left trim_right insert delete
fetch-fetch_example =
    fetch-fetch env read_api client built first_page 1060 start after_read (codes "rows") refl refl
      refl (λ h. omega arith) refl

expired :
    (fetch (record env { read_at = 1061 }) read_api client built first_page after_read).1
    ≡ answered (codes "rows")
unfolding fetch cached_or reply resolve_payload load load_from store_result cache_rule_for lookup
    eq_text operation_from_method trim_left trim_right insert delete
expired = refl
