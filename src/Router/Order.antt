-- ===== src/Router/Order.antt =====
-- internal/gateway/router.go: which route `Match` picks.
use ddag.Base.{
  ◌≡◌, refl, Bool, true, false, Option, none, some, List, [], ◌∷◌, if◌then◌else◌, Text, Dict,
}
use ddag.Router.{Route, Found, try_route, match_loop, match_route, split_path}

-- The first route of a table that a test picks, with what the test gives.
unfoldable pub first : (Route → Option (Dict Text)) → List Route → Found
first test [] = none
first test (r ∷ rs) = elim (test r) [ some params ↦ some (r, params) | none ↦ first test rs ]

abbrev pub keep : Bool → Option (Dict Text × Bool) → Option (Dict Text)
keep any none = none
keep any (some (params, has_param)) =
    if any then some params else if has_param then none else some params

-- A route that fits the request, and one that fits it by literal segments alone.
abbrev pub fits : Text → List Text → Route → Option (Dict Text)
fits method req r = keep true (try_route method req r)

abbrev pub fits_literally : Text → List Text → Route → Option (Dict Text)
fits_literally method req r = keep false (try_route method req r)

abbrev pub or_else : Found → Found → Found
or_else none f = f
or_else (some x) f = some x

module _ (method : Text) (req : List Text) where
  -- The table's tail is done as stated, whatever was found before it.
  abbrev Picks : List Route → Type 0
  Picks rs =
      (best : Found)
      → match_loop method req best rs
        ≡ or_else (first (fits_literally method req) rs) (or_else best (first (fits method req) rs))

  match_loop-step :
      (t : Option (Dict Text × Bool)) (best : Found) (r : Route) (rs : List Route)
      → try_route method req r ≡ t
      → Picks rs
      → match_loop method req best (r ∷ rs)
        ≡ or_else
            (first (fits_literally method req) (r ∷ rs))
            (or_else best (first (fits method req) (r ∷ rs)))
  unfolding match_loop first
  match_loop-step none best r rs e tail_picks = rw (e, match_loop, first) (tail_picks best)
  match_loop-step (some (params, false)) best r rs e tail_picks = rw (e, match_loop, first) refl
  match_loop-step (some (params, true)) none r rs e tail_picks =
      rw (e, match_loop, first) (tail_picks (some (r, params)))
  match_loop-step (some (params, true)) (some b) r rs e tail_picks =
      rw (e, match_loop, first) (tail_picks (some b))

  match_loop-first : (rs : List Route) → Picks rs
  unfolding match_loop first
  match_loop-first [] none = refl
  match_loop-first [] (some b) = refl
  match_loop-first (r ∷ rs) best =
      match_loop-step (try_route method req r) best r rs refl (match_loop-first rs)

-- `Match` returns the first route of the table that fits the request by literal segments alone, with
-- its parameters; where none does, the first that fits it at all; and nothing where none fits.
pub match_route-first :
    (routes : List Route) (method path : Text)
    → match_route routes method path
      ≡ or_else
          (first (fits_literally method (split_path path)) routes)
          (first (fits method (split_path path)) routes)
unfolding match_route
match_route-first routes method path = match_loop-first method (split_path path) routes none
