-- ===== src/Gateway/Metadata.antt =====
-- internal/gatewaysvc/metadata.go: the metadata that the gateway keeps in memory, and its lookups.
-- The nil snapshot does not arise, as the service asks for a snapshot only where it has one.
use ddag.Base.{
  ℕ, ◌+◌, Bool, true, false, ◌&&◌, ◌||◌, Option, none, some, List, [], ◌∷◌, if◌then◌else◌, ltb,
  Text, codes, eq_text, Dict, lookup, insert,
}
use ddag.Models.{Client, CacheRule, RateLimitRule, IpWhitelist}

pub record Snapshot : Type 0 where
  pub clients_by_client_id : Dict Client
  pub clients_by_id : Dict Client
  pub cache_rules : Dict CacheRule
  pub rate_rules : List RateLimitRule
  pub ip_whitelists : List IpWhitelist

-- The loops that fill the maps: a later item replaces an earlier one with its key.
unfoldable pub index {ℓ} : {A : Type ℓ} → (A → Text) → List A → Dict A → Dict A
index key [] m = m
index key (x ∷ xs) m = index key xs (insert (key x) x m)

unfoldable pub new_metadata_snapshot :
    List Client → List CacheRule → List RateLimitRule → List IpWhitelist → Snapshot
unfolding index
new_metadata_snapshot clients cache_rules rate_rules ips = record {
  clients_by_client_id = index (λ c. c.client_id) clients [];
  clients_by_id = index (λ c. c.id) clients [];
  cache_rules = index (λ r. r.api_definition_id) cache_rules [];
  rate_rules = rate_rules;
  ip_whitelists = ips;
}

unfoldable pub client_by_client_id : Snapshot → Text → Option Client
client_by_client_id s client_id = lookup client_id s.clients_by_client_id

unfoldable pub grants : List Text → Text → Bool
grants [] api_id = false
grants (id ∷ ids) api_id = eq_text id api_id || grants ids api_id

abbrev pub granted_to : Option Client → Text → Bool
granted_to none api_id = false
granted_to (some c) api_id = grants c.apis api_id

unfoldable pub client_has_api_access : Snapshot → Text → Text → Bool
unfolding grants
client_has_api_access s client_id api_id = granted_to (lookup client_id s.clients_by_id) api_id

unfoldable pub cache_rule_for : Snapshot → Text → Option CacheRule
cache_rule_for s api_id = lookup api_id s.cache_rules

-- An identifier that a rule leaves open applies to every one.
abbrev pub open_or_same : Option Text → Text → Bool
open_or_same none id = true
open_or_same (some x) id = eq_text x id

abbrev pub is_same : Option Text → Text → Bool
is_same none id = false
is_same (some x) id = eq_text x id

unfoldable pub filter {ℓ} : {A : Type ℓ} → (A → Bool) → List A → List A
filter p [] = []
filter p (x ∷ xs) = if p x then x ∷ filter p xs else filter p xs

abbrev pub is_given : Option Text → ℕ
is_given none = 0
is_given (some x) = 1

abbrev pub specificity : RateLimitRule → ℕ
specificity r = is_given r.client_id + is_given r.api_definition_id

-- `sort.SliceStable` by falling specificity, as a stable insertion sort.
unfoldable pub insert_rule : RateLimitRule → List RateLimitRule → List RateLimitRule
insert_rule r [] = r ∷ []
insert_rule r (q ∷ qs) =
    if ltb (specificity r) (specificity q) then q ∷ insert_rule r qs else r ∷ q ∷ qs

unfoldable pub sort_rules : List RateLimitRule → List RateLimitRule
unfolding insert_rule
sort_rules [] = []
sort_rules (r ∷ rs) = insert_rule r (sort_rules rs)

abbrev pub applies : Text → Text → RateLimitRule → Bool
applies client_id api_id r =
    open_or_same r.client_id client_id && open_or_same r.api_definition_id api_id

unfoldable pub rate_limit_rules_for : Snapshot → Text → Text → List RateLimitRule
unfolding sort_rules filter
rate_limit_rules_for s client_id api_id =
    sort_rules (filter (applies client_id api_id) s.rate_rules)

abbrev pub covers : Text → Text → IpWhitelist → Bool
covers client_id api_id ip =
    eq_text ip.status (codes "active")
    && (eq_text ip.scope_level (codes "global")
        || is_same ip.client_id client_id
        || is_same ip.api_definition_id api_id)

unfoldable pub ip_whitelists_for : Snapshot → Text → Text → List IpWhitelist
unfolding filter
ip_whitelists_for s client_id api_id = filter (covers client_id api_id) s.ip_whitelists
