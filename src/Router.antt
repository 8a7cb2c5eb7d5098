-- ===== src/Router.antt =====
-- internal/gateway/router.go: the route table. The table is a list, which `Build` replaces as a
-- whole under the lock; `Match` reads it. A route keeps the definition that it was compiled from.
pub mod Order
pub mod Bindings
pub mod Paths
mod Tests
use ddag.Base.{
  ℕ, suc, ◌-◌, Bool, true, false, ◌&&◌, ◌||◌, not, Option, none, some, List, [], ◌∷◌, map, leb,
  ◌==◌, if◌then◌else◌, length, Text, eq_text, Dict, insert,
}
use ddag.Models.{ApiDefinition, trim_left, trim_right, is_empty, equal_fold}

pub record Segment : Type 0 where
  pub literal : Text
  pub param : Text

pub record Route : Type 0 where
  pub api : ApiDefinition
  pub segments : List Segment

-- `strings.Split` on one separator.
abbrev pub onto_first : ℕ → List Text → List Text
onto_first c [] = (c ∷ []) ∷ []
onto_first c (p ∷ ps) = (c ∷ p) ∷ ps

unfoldable pub split : ℕ → Text → List Text
split sep [] = [] ∷ []
split sep (c ∷ s) = if c == sep then [] ∷ split sep s else onto_first c (split sep s)

abbrev pub is_slash : ℕ → Bool
is_slash c = c == b'/'

unfoldable pub split_path : Text → List Text
unfolding split trim_left trim_right
split_path path =
    let inner = trim_right is_slash (trim_left is_slash path) in
    if is_empty inner then [] else split b'/' inner

-- `p[1 : len(p)-1]` of a part that starts with a brace, if it ends with one too.
unfoldable pub closed_by_brace : Text → Option Text
closed_by_brace [] = none
closed_by_brace (c ∷ []) = if c == b'}' then some [] else none
closed_by_brace (c ∷ d ∷ s) = elim (closed_by_brace (d ∷ s)) [
  | none ↦ none
  | some name ↦ some (c ∷ name)
]

abbrev pub literal_segment : Text → Segment
literal_segment p = record { literal = p; param = [] }

abbrev param_or_literal : Text → Option Text → Segment
param_or_literal p none = literal_segment p
param_or_literal p (some name) = record { literal = []; param = name }

unfoldable pub segment : Text → Segment
unfolding closed_by_brace
segment [] = literal_segment []
segment (c ∷ s) =
    if c == b'{' then param_or_literal (c ∷ s) (closed_by_brace s) else literal_segment (c ∷ s)

unfoldable pub parse_path : Text → List Segment
parse_path path = map segment (split_path path)

unfoldable pub build : List ApiDefinition → List Route
build apis = map (λ a. record { api = a; segments = parse_path a.path }) apis

-- The loop over the segments: the parameters with `hasParam`, or nothing where `ok` turns false.
-- A route whose segments and the request's differ in number is refused before the loop.
unfoldable pub bind_segments :
    List Segment → List Text → Dict Text → Bool → Option (Dict Text × Bool)
bind_segments [] [] params has_param = some (params, has_param)
bind_segments [] (p ∷ ps) params has_param = none
bind_segments (seg ∷ segs) [] params has_param = none
bind_segments (seg ∷ segs) (p ∷ ps) params has_param =
    if not (is_empty seg.param)
    then bind_segments segs ps (insert seg.param p params) true
    else if eq_text seg.literal p
    then bind_segments segs ps params has_param
    else none

-- One turn of the loop over the routes: nothing where it continues with the next.
unfoldable pub try_route : Text → List Text → Route → Option (Dict Text × Bool)
try_route method req r =
    if not (equal_fold r.api.method method)
    then none
    else if not (length r.segments == length req)
    then none
    else bind_segments r.segments req [] false

abbrev pub Found : Type 0
Found = Option (Route × Dict Text)

-- `if paramMatch == nil`.
abbrev pub or_first : Found → Route → Dict Text → Found
or_first none r params = some (r, params)
or_first (some best) r params = some best

unfoldable pub match_loop : Text → List Text → Found → List Route → Found
match_loop method req param_match [] = param_match
match_loop method req param_match (r ∷ rs) = elim (try_route method req r) [
  | none ↦ match_loop method req param_match rs
  | some (params, has_param) ↦
      if not has_param
      then some (r, params)
      else match_loop method req (or_first param_match r params) rs
]

unfoldable pub match_route : List Route → Text → Text → Found
match_route routes method path = match_loop method (split_path path) none routes
