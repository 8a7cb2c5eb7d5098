-- ===== src/Sql/Tests.antt =====
-- The scanner on concrete templates.
use ddag.Base.{ℕ, ℤ, pos, negsuc, ◌≡◌, refl, Option, none, some, [], ◌∷◌, Text, codes, all-All}
use ddag.Sql.Scan.{sqlserver, postgres, mysql, dollar_quote, is_ident_part, is_ident_start}
use ddag.Sql.Scan.Ordinary.{is_ordinary}
use ddag.Sql.Bind.{bound, bind, missing, bind_dialect, bind_token}
use ddag.Sql.Bind.Pieces.{unparse, bind-fill}
use ddag.Sql.Extract.{extract_param_names, extract_token}
use ddag.Sql.Extract.Mismatch.{quoted_name-missing}
use ddag.Sql.Strip.{strip_dialect, strip_token}
use ddag.Sql.Pagination.{apply_pagination, base_query, trim_semicolon}
use ddag.Sql.Pagination.Swallowed.{is_unbroken, visible, commented, comment_swallows_page}
use ddag.Sql.Strip.Hidden.{dollar_block_hidden}
use ddag.Sql.Stall.{unclosed_dollar_never_returns}

abbrev template : Text
template = codes "a = ':x' and b = :id::int -- :no"

-- Every name has the value 7, or 8.
abbrev sevens : Text → Option ℕ
sevens name = some 7

abbrev eights : Text → Option ℕ
eights name = some 8

abbrev no_value : Text → Option ℕ
no_value name = none

abbrev question_mark : ℕ → Text
question_mark n = codes "?"

bound_postgres :
    bind_dialect 40 template sevens postgres
    ≡ some (bound (codes "a = ':x' and b = $1::int -- :no") (7 ∷ []))
unfolding bind_dialect bind_token
bound_postgres = refl

extracted_postgres : extract_param_names 40 template postgres ≡ some (codes "id" ∷ [])
unfolding extract_param_names extract_token
extracted_postgres = refl

stripped_mysql : strip_dialect 40 (codes "a `;` ';' # ;") mysql ≡ some (codes "a   ")
unfolding strip_dialect strip_token
stripped_mysql = refl

bind-fill_example : unparse (bind-fill template).0 ≡ template
bind-fill_example = (bind-fill template).1

quoted_name-missing_example :
    (extract_param_names 8 (codes "$$ :id$$") postgres ≡ some [])
    × (bind 8 (codes "$$ :id$$") no_value question_mark ≡ some (missing (codes "id")))
unfolding is_ident_part is_ident_start
quoted_name-missing_example =
    quoted_name-missing postgres (codes "id") no_value question_mark (refl, (refl, (refl, tt))) refl

no_quote : dollar_quote (codes "1") ≡ none
unfolding dollar_quote is_ident_part
no_quote = refl

unclosed_dollar_never_returns_example : strip_dialect 1000 (codes "select $1") mysql ≡ none
unclosed_dollar_never_returns_example =
    (unclosed_dollar_never_returns (codes "select ") (codes "1") sevens
        (all-All is_ordinary (codes "select ") refl) no_quote).2
      1000 mysql

dollar_block_hidden_example : strip_dialect 26 (codes "$$ as x; delete from t; $$") mysql ≡ some []
unfolding strip_dialect
dollar_block_hidden_example =
    (dollar_block_hidden mysql (codes "as x; delete from t; ") sevens question_mark
      (all-All is_ordinary (codes "as x; delete from t; ") refl)).1

abbrev as_given : ℤ → ℤ
as_given n = n

paged_postgres :
    apply_pagination as_given (codes " select 1;") (pos 7 ∷ []) postgres (pos 10) (negsuc 3)
    ≡ (codes "select 1 LIMIT $2 OFFSET $3", pos 7 ∷ pos 10 ∷ pos 0 ∷ [])
unfolding apply_pagination
paged_postgres = refl

paged_sqlserver :
    apply_pagination as_given (codes "select a from border by") [] sqlserver (pos 10) (pos 20) ≡ (
      codes "select a from border by ORDER BY (SELECT 1) OFFSET @p1 ROWS FETCH NEXT @p2 ROWS ONLY",
      pos 20 ∷ pos 10 ∷ [],
    )
unfolding apply_pagination
paged_sqlserver = refl

ordered_sqlserver :
    apply_pagination as_given (codes "select a from b ORDER  by a") [] sqlserver (pos 10) (pos 20)
    ≡ (
      codes "select a from b ORDER  by a OFFSET @p1 ROWS FETCH NEXT @p2 ROWS ONLY",
      pos 20 ∷ pos 10 ∷ [],
    )
unfolding apply_pagination
ordered_sqlserver = refl

one_row :
    base_query (commented (codes "select 1 ") (codes " one row")) ≡ codes "select 1 -- one row"
unfolding trim_semicolon ddag.Models.trim_right ddag.Models.trim_left
one_row = refl

comment_swallows_page_example :
    visible postgres
      (apply_pagination as_given (codes "select 1 -- one row") [] postgres (pos 10) (pos 0)).0
    ≡ some (codes "select 1 ")
comment_swallows_page_example =
    comment_swallows_page as_given [] postgres (codes "select 1 ") (codes " one row") (pos 10)
      (pos 0) (all-All is_ordinary (codes "select 1 ") refl)
      (all-All is_unbroken (codes " one row") refl) one_row
