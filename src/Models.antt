-- ===== src/Models.antt =====
-- internal/models/models.go and internal/models/operation.go: the records that the gateway reads, with the fields
-- that it uses, and the operation that a method stands for. An identifier is a text. HTTP methods are
-- ASCII tokens, so upper-casing and case folding are those of the ASCII letters.
use ddag.Base.{
  ℕ, ◌-◌, Bool, true, false, ◌&&◌, ◌||◌, Option, List, [], ◌∷◌, ℤ, leb, ◌==◌, if◌then◌else◌, Text,
  codes, eq_text, map,
}

-- `unicode.IsSpace` on ASCII.
abbrev pub is_space : ℕ → Bool
is_space c = c == b' ' || leb 9 c && leb c 13

unfoldable pub trim_left : (ℕ → Bool) → Text → Text
trim_left cut [] = []
trim_left cut (c ∷ s) = if cut c then trim_left cut s else c ∷ s

abbrev pub is_empty : Text → Bool
is_empty [] = true
is_empty (c ∷ s) = false

unfoldable pub trim_right : (ℕ → Bool) → Text → Text
trim_right cut [] = []
trim_right cut (c ∷ s) =
    let rest = trim_right cut s in if is_empty rest && cut c then [] else c ∷ rest

abbrev pub trim_space : Text → Text
trim_space s = trim_right is_space (trim_left is_space s)

abbrev pub upper : ℕ → ℕ
upper c = if leb b'a' c && leb c b'z' then c - 32 else c

abbrev pub to_upper : Text → Text
to_upper = map upper

-- `strings.EqualFold` on ASCII.
unfoldable pub equal_fold : Text → Text → Bool
equal_fold s t = eq_text (to_upper s) (to_upper t)

pub data OperationType : Type 0 where
  operation_read operation_create operation_update operation_delete operation_unknown :
      OperationType

abbrev pub is_write_operation : OperationType → Bool
is_write_operation operation_create = true
is_write_operation operation_update = true
is_write_operation operation_delete = true
is_write_operation _ = false

abbrev pub is_cacheable : OperationType → Bool
is_cacheable operation_read = true
is_cacheable _ = false

operation_named : Text → OperationType
operation_named m =
    if eq_text m (codes "GET") || eq_text m (codes "QUERY")
    then operation_read
    else if eq_text m (codes "POST")
    then operation_create
    else if eq_text m (codes "PUT") || eq_text m (codes "PATCH")
    then operation_update
    else if eq_text m (codes "DELETE")
    then operation_delete
    else operation_unknown

unfoldable pub operation_from_method : Text → OperationType
unfolding operation_named
operation_from_method method = operation_named (to_upper (trim_space method))

pub record ApiDefinition : Type 0 where
  pub id : Text
  pub method : Text
  pub path : Text
  pub required_scope : Text
  pub database_connection_id : Option Text
  pub connector_type : Text
  pub default_limit : ℤ
  pub max_limit : ℤ
  pub query_template : Text
  pub response_mapping : Text
  pub is_write : Bool

pub record Client : Type 0 where
  pub id : Text
  pub client_id : Text
  pub client_secret_hash : Text
  pub status : Text
  pub access_token_ttl_seconds : ℤ
  pub refresh_token_ttl_seconds : ℤ
  pub scopes : List Text
  pub apis : List Text

pub record CacheRule : Type 0 where
  pub api_definition_id : Text
  pub enabled : Bool
  pub ttl_seconds : ℤ
  pub vary_by_client : Bool

pub record RateLimitRule : Type 0 where
  pub client_id : Option Text
  pub api_definition_id : Option Text
  pub requests_per_second : ℤ
  pub requests_per_minute : ℤ
  pub requests_per_hour : ℤ
  pub requests_per_day : ℤ

pub record IpWhitelist : Type 0 where
  pub scope_level : Text
  pub client_id : Option Text
  pub api_definition_id : Option Text
  pub ip_cidr : Text
  pub status : Text

pub record ApiParameter : Type 0 where
  pub name : Text
  pub source : Text
  pub param_type : Text
  pub required : Bool
  pub default_value : Option Text
  pub max_length : Option ℤ
  pub validation_rule : Option Text

pub record RefreshToken : Type 0 where
  pub client_id : Text
  pub scope : Text
  pub expires_at : ℕ
  pub revoked : Bool
