-- ===== src/Router/Bindings.antt =====
-- internal/gateway/router.go: what the parameters that `Match` returns say of the request.
use ddag.Base.{
  arith, ◌≡◌, ◌⊎◌, inl, inr, refl, ap₂, Bool, true, false, ◌&&◌, ◌||◌, not, Option, none, some,
  List, [], ◌∷◌, ◌++◌, map, if◌then◌else◌, Text, eq_text, eq_text_iff, eq_text_refl, Dict, lookup,
  insert, lookup-insert,
}
use ddag.Models.{is_empty, equal_fold}
use ddag.Router.{
  Route, Segment, Found, bind_segments, try_route, or_first, match_loop, match_route, split_path,
}

-- Behind a parameter its name does not come again.
unfoldable pub fresh : Text → List Segment → Bool
fresh k [] = true
fresh k (seg ∷ segs) = not (eq_text seg.param k) && fresh k segs

unfoldable pub distinct_params : List Segment → Bool
distinct_params [] = true
distinct_params (seg ∷ segs) = (is_empty seg.param || fresh seg.param segs) && distinct_params segs

-- What a segment stands for under the parameters.
abbrev pub fill : Dict Text → Segment → Option Text
fill params seg = if not (is_empty seg.param) then lookup seg.param params else some seg.literal

bind_segments-lookup :
    (segs : List Segment) (ps : List Text) (acc out : Dict Text) (hp hp' : Bool) (k : Text)
    → bind_segments segs ps acc hp ≡ some (out, hp')
    → fresh k segs ≡ true
    → lookup k out ≡ lookup k acc
unfolding bind_segments fresh
bind_segments-lookup [] [] acc out hp hp' k e h = ground arith
bind_segments-lookup [] (p ∷ ps) acc out hp hp' k e h = ground arith
bind_segments-lookup (seg ∷ segs) [] acc out hp hp' k e h = ground arith
bind_segments-lookup (seg ∷ segs) (p ∷ ps) acc out hp hp' k e h = ground (
  arith,
  lookup-insert seg.param k p acc,
  bind_segments-lookup segs ps (insert seg.param p acc) out true hp' k,
  bind_segments-lookup segs ps acc out hp hp' k,
)

bind_segments-fill :
    (segs : List Segment) (ps : List Text) (acc out : Dict Text) (hp hp' : Bool)
    → bind_segments segs ps acc hp ≡ some (out, hp')
    → distinct_params segs ≡ true
    → map (fill out) segs ≡ map some ps
unfolding bind_segments distinct_params
bind_segments-fill [] [] acc out hp hp' e h = refl
bind_segments-fill [] (p ∷ ps) acc out hp hp' e h = ground arith
bind_segments-fill (seg ∷ segs) [] acc out hp hp' e h = ground arith
bind_segments-fill (seg ∷ segs) (p ∷ ps) acc out hp hp' e h =
    ap₂ ◌∷◌
      (ground (
        arith,
        eq_text_iff seg.literal p,
        eq_text_refl seg.param,
        lookup-insert seg.param seg.param p acc,
        bind_segments-lookup segs ps (insert seg.param p acc) out true hp' seg.param,
      ))
      (ground (
        arith,
        bind_segments-fill segs ps (insert seg.param p acc) out true hp',
        bind_segments-fill segs ps acc out hp hp',
      ))

abbrev found_at : Route → Dict Text → Found
found_at q found = some (q, found)

module _ (method : Text) (req : List Text) (r : Route) (params : Dict Text) where
  -- The route stands in the table, and its turn of the loop gives these parameters.
  abbrev Tried : List Route → Type 0
  Tried rs =
      (before after : List Route) × (hp : Bool) × (rs ≡ before ++ (r ∷ after))
      × (try_route method req r ≡ some (params, hp))

  Tried-later : (q : Route) (rs : List Route) → Tried rs → Tried (q ∷ rs)
  Tried-later q rs (before, after, hp, e, t) = (q ∷ before, after, hp, rw e refl, t)

  -- The tail of a table only gives what was found before it, or what a route of its own gives.
  abbrev Traced : List Route → Type 0
  Traced rs =
      (best : Found)
      → match_loop method req best rs ≡ some (r, params)
      → (best ≡ some (r, params)) ⊎ Tried rs

  Tried-here :
      (q : Route) (rs : List Route) (found : Dict Text) (hp : Bool)
      → try_route method req q ≡ some (found, hp)
      → found_at q found ≡ found_at r params
      → Tried (q ∷ rs)
  Tried-here q rs found hp t e = ([], rs, hp, cc, cc)

  traced_tail :
      (q : Route) (rs : List Route) (best : Found)
      → (best ≡ some (r, params)) ⊎ Tried rs
      → (best ≡ some (r, params)) ⊎ Tried (q ∷ rs)
  traced_tail q rs best (inl e) = inl e
  traced_tail q rs best (inr t) = inr (Tried-later q rs t)

  traced_first :
      (q : Route) (rs : List Route) (found : Dict Text) (hp : Bool) (best : Found)
      → try_route method req q ≡ some (found, hp)
      → (or_first best q found ≡ some (r, params)) ⊎ Tried rs
      → (best ≡ some (r, params)) ⊎ Tried (q ∷ rs)
  traced_first q rs found hp best t (inr later) = inr (Tried-later q rs later)
  traced_first q rs found hp none t (inl e) = inr (Tried-here q rs found hp t e)
  traced_first q rs found hp (some b) t (inl e) = inl e

  Traced-step :
      (t : Option (Dict Text × Bool)) (q : Route) (rs : List Route)
      → try_route method req q ≡ t
      → Traced rs
      → Traced (q ∷ rs)
  unfolding match_loop
  Traced-step none q rs t later best e = traced_tail q rs best (later best (ground (arith, t, e)))
  Traced-step (some (found, false)) q rs t later best e =
      inr (Tried-here q rs found false t (ground (arith, t, e)))
  Traced-step (some (found, true)) q rs t later best e =
      traced_first q rs found true best t (later (or_first best q found) (ground (arith, t, e)))

  match_loop-Traced : (rs : List Route) → Traced rs
  unfolding match_loop
  match_loop-Traced [] best e = inl e
  match_loop-Traced (q ∷ rs) best e =
      Traced-step (try_route method req q) q rs refl (match_loop-Traced rs) best e

  try_route-fill :
      (hp : Bool)
      → try_route method req r ≡ some (params, hp)
      → distinct_params r.segments ≡ true
      → (equal_fold r.api.method method ≡ true) × (map (fill params) r.segments ≡ map some req)
  unfolding try_route
  try_route-fill hp t h =
      (ground arith, bind_segments-fill r.segments req [] params false hp (ground arith) h)

-- A route that `Match` returns stands in the table, its method is the request's up to case, and its
-- segments with the parameters put in are exactly the segments of the request's path, provided that
-- no parameter of the route is named twice.
pub match_route-fill :
    (routes : List Route) (method path : Text) (r : Route) (params : Dict Text)
    → match_route routes method path ≡ some (r, params)
    → distinct_params r.segments ≡ true
    → ((before after : List Route) × (routes ≡ before ++ (r ∷ after)))
      × (equal_fold r.api.method method ≡ true)
      × (map (fill params) r.segments ≡ map some (split_path path))
unfolding match_route
match_route-fill routes method path r params e h =
    elim (match_loop-Traced method (split_path path) r params routes none e) [
      | inl none_found ↦ ground (arith, none_found)
      | inr (before, after, hp, whole, t) ↦
          let (same, filled) = try_route-fill method (split_path path) r params hp t h in
          ((before, after, whole), same, filled)
    ]
