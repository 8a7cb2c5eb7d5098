-- ===== src/Params/Complete.antt =====
-- internal/gateway/params.go: what resolved parameters hold.
use ddag.Base.{
  arith, ◌≡◌, true, Option, List, [], ◌∷◌, All, Text, Dict, lookup, insert, lookup-insert,
  eq_text_refl,
}
use ddag.Models.{ApiParameter}
use ddag.Errors.{result, >>=-eq-result}
use ddag.Params.{Libs, Value, raw_value, resolve_one, resolve_into, resolve_params}
use ddag.Sql.Bind.{is_some}

module _ (libs : Libs) (path_params : Dict Text) (query : Dict (List Text))
    (body : Dict (Option Text)) where
  abbrev Has : Dict (Value libs.Float) → Text → Type 0
  Has out name = is_some (lookup name out) ≡ true

  Has-insert :
      (k j : Text) (v : Value libs.Float) (out : Dict (Value libs.Float))
      → Has out j
      → Has (insert k v out) j
  Has-insert k j v out h = ground (arith, lookup-insert k j v out, h)

  Has-insert_same :
      (k : Text) (v : Value libs.Float) (out : Dict (Value libs.Float)) → Has (insert k v out) k
  Has-insert_same k v out = ground (arith, lookup-insert k k v out, eq_text_refl k)

  Has-resolve_into :
      (ps : List ApiParameter) (out final : Dict (Value libs.Float)) (name : Text)
      → resolve_into libs path_params query body out ps ≡ result final
      → Has out name
      → Has final name
  unfolding resolve_into
  Has-resolve_into [] out final name e h = ground (arith, e, h)
  Has-resolve_into (p ∷ ps) out final name e h =
      let (v, one, rest) =
        >>=-eq-result (resolve_one libs p (raw_value p path_params query body))
          (λ v. resolve_into libs path_params query body (insert p.name v out) ps) e in
      Has-resolve_into ps (insert p.name v out) final name rest (Has-insert p.name name v out h)

  All-resolve_into :
      (ps : List ApiParameter) (out final : Dict (Value libs.Float))
      → resolve_into libs path_params query body out ps ≡ result final
      → All (λ p. Has final p.name) ps
  unfolding resolve_into
  All-resolve_into [] out final e = tt
  All-resolve_into (p ∷ ps) out final e =
      let (v, one, rest) =
        >>=-eq-result (resolve_one libs p (raw_value p path_params query body))
          (λ v. resolve_into libs path_params query body (insert p.name v out) ps) e in
      (
        Has-resolve_into ps (insert p.name v out) final p.name rest (Has-insert_same p.name v out),
        All-resolve_into ps (insert p.name v out) final rest,
      )

  -- Every parameter that the API declares has a value after a successful resolution.
  pub resolve_params_complete :
      (ps : List ApiParameter) (final : Dict (Value libs.Float))
      → resolve_params libs ps path_params query body ≡ result final
      → All (λ p. is_some (lookup p.name final) ≡ true) ps
  unfolding resolve_params
  resolve_params_complete ps final e = All-resolve_into ps [] final e
