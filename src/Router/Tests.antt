-- ===== src/Router/Tests.antt =====
-- Runs of the route table on concrete requests.
use ddag.Base.{
  ◌≡◌, refl, List, [], ◌∷◌, ◌++◌, map, none, some, pos, Text, codes, true, false, eq_text, insert,
}
use ddag.Models.{ApiDefinition, equal_fold}
use ddag.Router.{
  Route, build, match_route, parse_path, split_path, match_loop, try_route, bind_segments, segment,
}
use ddag.Router.Order.{match_route-first, first, fits, fits_literally, or_else}
use ddag.Router.Bindings.{match_route-fill, fill, fresh, distinct_params}

abbrev api : Text → ApiDefinition
api path = record {
  id = codes "a1";
  method = codes "GET";
  path = path;
  required_scope = [];
  database_connection_id = none;
  connector_type = codes "postgres";
  default_limit = pos 50;
  max_limit = pos 100;
  query_template = codes "select 1";
  response_mapping = [];
  is_write = false;
}

abbrev user_by_id : Route
user_by_id = record { api = api (codes "/users/{id}"); segments = parse_path (codes "/users/{id}") }

abbrev table : List Route
table = build (api (codes "/users/{id}") ∷ api (codes "/users/me") ∷ [])

-- A literal route wins over an earlier one with a parameter.
literal_wins :
    map
      (λ p. p.0.api.path)
      (elim (match_route table (codes "get") (codes "/users/me/")) [ none ↦ [] | some x ↦ x ∷ [] ])
    ≡ codes "/users/me" ∷ []
unfolding match_route match_loop build try_route equal_fold eq_text parse_path split_path
    bind_segments segment
literal_wins = refl

match_route-first_example :
    match_route table (codes "GET") (codes "/users/7")
    ≡ or_else
        (first (fits_literally (codes "GET") (split_path (codes "/users/7"))) table)
        (first (fits (codes "GET") (split_path (codes "/users/7"))) table)
match_route-first_example = match_route-first table (codes "GET") (codes "/users/7")

abbrev seven : List (Text × Text)
seven = (codes "id", codes "7") ∷ []

match_route-fill_example :
    ((before after : List Route) × (table ≡ before ++ (user_by_id ∷ after)))
    × (equal_fold (codes "GET") (codes "get") ≡ true)
    × (map (fill seven) user_by_id.segments ≡ map some (split_path (codes "/users/7")))
unfolding match_route match_loop build try_route equal_fold eq_text parse_path split_path
    bind_segments segment insert distinct_params fresh
match_route-fill_example =
    match_route-fill table (codes "get") (codes "/users/7") user_by_id seven refl refl
