-- ===== src/Sql/Pagination.antt =====
-- internal/connectors/pagination.go: the page that the connectors append to a bound query. Texts are
-- ASCII; a dialect stands for the database type in any case.
pub mod Swallowed
use ddag.Base.{
  ℕ, zero, suc, Bool, true, false, ◌&&◌, ◌||◌, not, ◌+◌, Option, none, some, List, [], ◌∷◌, ◌++◌,
  ◌==◌, if◌then◌else◌, Text, codes, length, ltb, ℤ, pos, negsuc,
}
use ddag.Models.{trim_left, trim_right, trim_space, is_empty}
use ddag.QueryBuilder.Names.{is_name_part}
use ddag.Publish.Statements.{is_blank, after_keyword, begins_with_word}
use ddag.Sql.Scan.{Dialect, postgres, mysql, sqlserver, oracle, other}
use ddag.Sql.Bind.{decimal}

-- `strings.TrimSuffix(s, ";")`.
unfoldable pub trim_semicolon : Text → Text
trim_semicolon [] = []
trim_semicolon (c ∷ s) =
    let rest = trim_semicolon s in if is_empty s && c == b';' then [] else c ∷ rest

-- `\s+by\b`, with a flag for a blank that was seen.
unfoldable pub then_by : Bool → Text → Bool
unfolding after_keyword
then_by blank [] = false
then_by blank (c ∷ s) =
    let later = then_by true s in
    if is_blank c then later else blank && begins_with_word (codes "by") (c ∷ s)

abbrev pub behind_order : Option Text → Bool
behind_order none = false
behind_order (some s) = then_by false s

-- `orderByRE` behind a character; the flag says that it is one of a word.
unfoldable pub order_by_behind : Bool → Text → Bool
unfolding after_keyword then_by
order_by_behind in_word [] = false
order_by_behind in_word (c ∷ s) =
    let later = order_by_behind (is_name_part c) s in
    not in_word && behind_order (after_keyword (codes "order") (c ∷ s)) || later

abbrev pub has_order_by : Text → Bool
has_order_by s = order_by_behind false s

-- The query that the page is appended to.
abbrev pub base_query : Text → Text
base_query query = trim_semicolon (trim_space query)

-- The text of the page, behind a query with so many arguments.
unfoldable pub page_text : Dialect → ℕ → Bool → Text
unfolding decimal
page_text postgres n ordered =
    codes " LIMIT $" ++ (decimal (n + 1) ++ (codes " OFFSET $" ++ decimal (n + 2)))
page_text mysql n ordered = codes " LIMIT ?, ?"
page_text sqlserver n ordered =
    let page =
      codes " OFFSET @p"
      ++ (decimal (n + 1)
          ++ (codes " ROWS FETCH NEXT @p" ++ (decimal (n + 2) ++ codes " ROWS ONLY"))) in
    if ordered then page else codes " ORDER BY (SELECT 1)" ++ page
page_text oracle n ordered =
    codes " OFFSET :"
    ++ (decimal (n + 1) ++ (codes " ROWS FETCH NEXT :" ++ (decimal (n + 2) ++ codes " ROWS ONLY")))
page_text other n ordered = []

abbrev pub page_args : {A : Type 0} → Dialect → A → A → List A
page_args postgres limit offset = limit ∷ offset ∷ []
page_args other limit offset = []
page_args _ limit offset = offset ∷ limit ∷ []

abbrev pub not_below_zero : ℤ → ℤ
not_below_zero (pos n) = pos n
not_below_zero (negsuc n) = pos 0

unfoldable pub with_page : {A : Type 0} → (ℤ → A) → Text → List A → Dialect → ℤ → ℤ → Text × List A
unfolding page_text trim_semicolon order_by_behind trim_left trim_right
with_page int query args d limit offset =
    let base = base_query query in
    (
      base ++ page_text d (length args) (has_order_by base),
      args ++ page_args d (int limit) (int (not_below_zero offset)),
    )

-- `ApplyPagination`: an integer argument is given as `int` makes it.
unfoldable pub apply_pagination :
    {A : Type 0} → (ℤ → A) → Text → List A → Dialect → ℤ → ℤ → Text × List A
unfolding with_page
apply_pagination int query args d (negsuc n) offset = (query, args)
apply_pagination int query args d (pos zero) offset = (query, args)
apply_pagination int query args d (pos (suc n)) offset =
    with_page int query args d (pos (suc n)) offset
