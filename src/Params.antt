-- ===== src/Params.antt =====
-- internal/gateway/params.go: the parameters of a request, read from the path, the query string and
-- the JSON body, checked and typed. Parameters of the model: floating point numbers, UUIDs (a library
-- of their own) and regular expressions. A body value stands for its `%v` text, and none for null.
-- Texts are ASCII, so `len` is the number of code points.
pub mod Complete
use ddag.Base.{
  ℕ, Bool, true, false, ◌&&◌, ◌||◌, not, Option, none, some, List, [], ◌∷◌, ℤ, pos, leb, ltb,
  if◌then◌else◌, Text, codes, eq_text, length, Dict, lookup, insert,
}
use ddag.Models.{ApiParameter, trim_space, trim_left, trim_right}
use ddag.Errors.{Code, validation, Result, result, failed, ◌>>=◌, ◌>>◌, guard}
use ddag.Gateway.Limits.{atoi}

pub record Libs : Type 1 where
  pub Float : Type 0
  pub parse_float : Text → Option Float
  pub is_uuid : Text → Bool
  -- A rule that compiles gives its test.
  pub compile : Text → Option (Text → Bool)

pub data Value (F : Type 0) : Type 0 where
  null : Value F
  int : ℤ → Value F
  number : F → Value F
  bool : Bool → Value F
  text : Text → Value F

first_value : Option (List Text) → Option Text
first_value none = none
first_value (some []) = none
first_value (some (v ∷ vs)) = some v

body_value : Option (Option Text) → Option Text
body_value none = none
body_value (some v) = v

unfoldable pub raw_value :
    ApiParameter → Dict Text → Dict (List Text) → Dict (Option Text) → Option Text
unfolding first_value body_value
raw_value p path_params query body =
    if eq_text p.source (codes "path")
    then lookup p.name path_params
    else if eq_text p.source (codes "query")
    then first_value (lookup p.name query)
    else if eq_text p.source (codes "body")
    then body_value (lookup p.name body)
    else none

-- `strconv.ParseBool`.
unfoldable pub parse_bool : Text → Option Bool
parse_bool s =
    if eq_text s (codes "1")
      || eq_text s (codes "t")
      || eq_text s (codes "T")
      || eq_text s (codes "TRUE")
      || eq_text s (codes "true")
      || eq_text s (codes "True")
    then some true
    else if eq_text s (codes "0")
        || eq_text s (codes "f")
        || eq_text s (codes "F")
        || eq_text s (codes "FALSE")
        || eq_text s (codes "false")
        || eq_text s (codes "False")
    then some false
    else none

abbrev or_invalid {ℓ} : {A : Type ℓ} → Option A → Result A
or_invalid none = failed validation
or_invalid (some a) = result a

abbrev pub within : Option ℤ → Text → Bool
within (some (pos n)) raw = not (ltb 0 n && ltb n (length raw))
within _ raw = true

module _ (libs : Libs) where
  unfoldable pub coerce : ApiParameter → Text → Result (Value libs.Float)
  unfolding parse_bool trim_left trim_right
  coerce p raw =
      if eq_text p.param_type (codes "int")
      then (do n ← or_invalid (atoi (trim_space raw)); result (int n))
      else if eq_text p.param_type (codes "number")
      then (do f ← or_invalid (libs.parse_float (trim_space raw)); result (number f))
      else if eq_text p.param_type (codes "bool")
      then (do b ← or_invalid (parse_bool (trim_space raw)); result (bool b))
      else if eq_text p.param_type (codes "uuid")
      then (do guard (libs.is_uuid (trim_space raw)) validation; result (text raw))
      else result (text raw)

  -- A rule that does not compile is not enforced.
  passes_compiled : Option (Text → Bool) → Text → Bool
  passes_compiled none raw = true
  passes_compiled (some test) raw = test raw

  unfoldable pub passes_rule : Option Text → Text → Bool
  unfolding passes_compiled
  passes_rule none raw = true
  passes_rule (some []) raw = true
  passes_rule (some (c ∷ rule)) raw = passes_compiled (libs.compile (c ∷ rule)) raw

  unfoldable pub checked : ApiParameter → Text → Result (Value libs.Float)
  unfolding coerce passes_rule
  checked p raw = do
    guard (within p.max_length raw) validation
    guard (passes_rule p.validation_rule raw) validation
    coerce p raw

  unfoldable pub absent : ApiParameter → Option Text → Result (Value libs.Float)
  unfolding checked
  absent p (some default) = checked p default
  absent p none = if p.required then failed validation else result null

  -- One turn of the loop: what is bound for a parameter.
  unfoldable pub resolve_one : ApiParameter → Option Text → Result (Value libs.Float)
  unfolding absent checked
  resolve_one p none = absent p p.default_value
  resolve_one p (some []) = absent p p.default_value
  resolve_one p (some (c ∷ raw)) = checked p (c ∷ raw)

  unfoldable pub resolve_into :
      Dict Text
      → Dict (List Text)
      → Dict (Option Text)
      → Dict (Value libs.Float)
      → List ApiParameter
      → Result (Dict (Value libs.Float))
  resolve_into path_params query body out [] = result out
  resolve_into path_params query body out (p ∷ ps) =
      resolve_one p (raw_value p path_params query body) >>= λ v.
      resolve_into path_params query body (insert p.name v out) ps

  unfoldable pub resolve_params :
      List ApiParameter
      → Dict Text
      → Dict (List Text)
      → Dict (Option Text)
      → Result (Dict (Value libs.Float))
  unfolding resolve_into raw_value
  resolve_params ps path_params query body = resolve_into path_params query body [] ps
