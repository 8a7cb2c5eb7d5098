-- ===== src/Sql/Extract/Plain.antt =====
-- The connectors bind by `Bind`, which scans with no dialect, while publishing extracts the names with
-- the dialect of the connection: where the two agree.
use ddag.Base.{
  ℕ, Bool, true, ◌||◌, not, ◌≡◌, sym, subst, Option, some, List, [], ◌∷◌, ◌++◌, arith, ◌==◌, Text,
  All, All-split,
}
use ddag.Sql.Scan.{
  Dialect, postgres, mysql, sqlserver, oracle, other, copy_delimited, skip_delimited,
}
use ddag.Sql.Bind.{bind_token, bound, bind}
use ddag.Sql.Bind.{is_some}
use ddag.Sql.Extract.{extract_token, extract_param_names}
use ddag.Sql.Extract.Agreement.{forget, IsBound-when_present, IsBound-witness}

-- Begins, in this dialect, no quote or comment that the scanner without a dialect does not know.
abbrev pub is_plain : Dialect → ℕ → Bool
is_plain postgres c = not (c == b'$')
is_plain mysql c = not (c == b'$' || c == b'`' || c == b'#')
is_plain sqlserver c = not (c == b'$' || c == b'[')
is_plain oracle c = not (c == b'$' || c == b'q')
is_plain other c = not (c == b'$')

abbrev pub IsPlain : Dialect → Text → Type 0
IsPlain d = All (λ c. is_plain d c ≡ true)

plain_token :
    (d : Dialect) (c : ℕ) (s : Text)
    → IsPlain d (c ∷ s)
    → extract_token d c s ≡ forget (bind_token other c s)
unfolding extract_token bind_token copy_delimited skip_delimited
plain_token postgres c s h = ground (arith, h.0)
plain_token mysql c s h = ground (arith, h.0)
plain_token sqlserver c s h = ground (arith, h.0)
plain_token oracle c s h = ground (arith, h.0)
plain_token other c s h = ground (arith, h.0)

rest-IsPlain : (d : Dialect) (out rest s : Text) → out ++ rest ≡ s → IsPlain d s → IsPlain d rest
rest-IsPlain d out rest s e h = (All-split _ out rest (subst (IsPlain d) (sym e) h)).1

-- On a template with no `$` and, for MySQL, no backquote and no `#`, for SQL Server no `[`, for Oracle
-- no `q`: if publishing extracts a list of names and each of them has a value, the connector's `Bind`
-- gives SQL and arguments; it reports no missing parameter.
pub plain_names_suffice :
    {A : Type 0} (d : Dialect) (fuel : ℕ) (t : Text) (names : List Text) (params : Text → Option A)
    (ph : ℕ → Text)
    → IsPlain d t
    → extract_param_names fuel t d ≡ some names
    → All (λ name. is_some (params name) ≡ true) names
    → (sql : Text) × (args : List A) × (bind fuel t params ph ≡ some (bound sql args))
unfolding extract_param_names bind
plain_names_suffice d fuel t names params ph plain found present = IsBound-witness _ (
    IsBound-when_present d other (IsPlain d) (plain_token d) (rest-IsPlain d) params ph names
      present fuel 0 [] t plain found)
