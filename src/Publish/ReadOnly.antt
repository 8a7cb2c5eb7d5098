-- ===== src/Publish/ReadOnly.antt =====
-- internal/gateway/validate.go: what the statement of a published API that must not write consists of.
use ddag.Base.{
  arith, ℕ, ◌≡◌, ◌≢◌, refl, ap, sym, subst, Bool, true, false, not, ◌&&◌, ◌||◌, Bool-cases, inl,
  inr, Option, none, some, List, [], ◌∷◌, ◌++◌, Text, eq_text, eq_text→eq, if◌then◌else◌,
}
use ddag.Models.{ApiDefinition, ApiParameter, trim_space}
use ddag.Errors.{result}
use ddag.Sql.Strip.{strip_dialect}
use ddag.QueryBuilder.{QueryBuilderConfig, query_builder_from_api}
use ddag.QueryBuilder.Names.{is_name_part, to_lower}
use ddag.Publish.{contains_param, dialect_of, must_not_write, writes, validate_for_publish}
use ddag.Publish.Agree.{validate_for_publish-passed}
use ddag.Publish.Statements.{
  word_ends, after_keyword, begins_with_word, write_keywords, begins_with_any, select_into,
  match_behind, has_write_statement,
}

after_keyword-append : (w post : Text) → after_keyword (to_lower w) (w ++ post) ≡ some post
unfolding after_keyword
after_keyword-append [] post = refl
after_keyword-append (c ∷ w) post = ground (arith, after_keyword-append w post)

or-first : (a b : Bool) → a ≡ true → (a || b) ≡ true
or-first a b h = ground (arith, h)

or-later : (a b : Bool) → b ≡ true → (a || b) ≡ true
or-later a b h = ground (arith, h)

clean_lem :
    (stripped : Text) (o : Option Text) (read : Bool)
    → read ≡ true
    → o ≡ some stripped
    → (if read then writes o else some false) ≡ some false
    → has_write_statement stripped ≡ false
clean_lem stripped none read hr ho h = ground (arith, ho)
clean_lem stripped (some s) read hr ho h = ground (arith, hr, ho, h)

begins_with_any-keyword :
    (ks : List Text) (k s : Text)
    → contains_param ks k ≡ true
    → begins_with_word k s ≡ true
    → begins_with_any ks s ≡ true
unfolding contains_param begins_with_any
begins_with_any-keyword [] k s e h = ground (arith, e)
begins_with_any-keyword (j ∷ ks) k s e h = elim (Bool-cases (eq_text j k)) [
  | inl same ↦
      let here : begins_with_word j s ≡ true =
        subst (λ i. begins_with_word i s ≡ true) (sym (eq_text→eq j k same)) h in
      or-first (begins_with_word j s) (begins_with_any ks s) here
  | inr other ↦
      or-later (begins_with_word j s) (begins_with_any ks s)
        (begins_with_any-keyword ks k s (ground (arith, e, other)) h)
]

-- Whether the character before the end of a text is one of a word.
abbrev pub ends_inside : Bool → Text → Bool
ends_inside in_word [] = in_word
ends_inside in_word (c ∷ pre) = ends_inside (is_name_part c) pre

match_behind-finds :
    (in_word : Bool) (pre s : Text)
    → ends_inside in_word pre ≡ false
    → begins_with_any write_keywords s ≡ true
    → match_behind in_word (pre ++ s) ≡ true
unfolding match_behind
match_behind-finds in_word [] [] e h = cc
match_behind-finds in_word [] (c ∷ s) e h =
    or-first (not in_word && (begins_with_any write_keywords (c ∷ s) || select_into (c ∷ s)))
      (match_behind (is_name_part c) s) (rw (e, h) refl)
match_behind-finds in_word (c ∷ pre) s e h =
    or-later _ (match_behind (is_name_part c) (pre ++ s))
      (match_behind-finds (is_name_part c) pre s e h)

-- An API whose method reads or that is not a write API, and that has no query builder: once it passed
-- the check before publishing, what StripDialect leaves of its SQL holds no keyword that writes as a
-- word of its own, in any case of letters. In every dialect, StripDialect leaves out dollar quotes.
pub published-IsReadOnly :
    (decode : Text → Option (Option QueryBuilderConfig)) (compiles : Text → Bool) (fuel : ℕ)
    (api : ApiDefinition) (params : List ApiParameter) (stripped pre word post : Text)
    → query_builder_from_api decode api ≡ result none
    → validate_for_publish decode compiles fuel api params ≡ some (result tt)
    → must_not_write api ≡ true
    → strip_dialect fuel (trim_space api.query_template) (dialect_of api.connector_type)
      ≡ some stripped
    → contains_param write_keywords (to_lower word) ≡ true
    → ends_inside false pre ≡ false
    → word_ends post ≡ true
    → stripped ≢ pre ++ (word ++ post)
unfolding has_write_statement
published-IsReadOnly decode compiles fuel api params stripped pre word post no_builder valid read
      strip key before after e =
    let (used, names, same, checked) =
      validate_for_publish-passed decode compiles fuel api params no_builder valid in
    let clean : has_write_statement stripped ≡ false =
      clean_lem stripped _ (must_not_write api) read strip checked.no_write in
    let found : has_write_statement (pre ++ (word ++ post)) ≡ true =
      match_behind-finds false pre (word ++ post) before (
        begins_with_any-keyword write_keywords (to_lower word) (word ++ post) key
          (rw (after_keyword-append word post) after)) in
    ground (arith, clean, found, ap has_write_statement e)
