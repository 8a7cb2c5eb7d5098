-- ===== src/Publish/Statements.antt =====
-- internal/gateway/validate.go: `writeStmt`, the expression for SQL that writes, as the scan that it
-- stands for, and the test for a semicolon. Texts are ASCII.
use ddag.Base.{
  ℕ, Bool, true, false, ◌&&◌, ◌||◌, not, Option, none, some, List, [], ◌∷◌, ◌==◌, if◌then◌else◌,
  Text, codes,
}
use ddag.QueryBuilder.Names.{is_name_part, lower}

-- `\s`.
abbrev pub is_blank : ℕ → Bool
is_blank c = c == 9 || c == 10 || c == 12 || c == 13 || c == b' '

-- `\b` behind a word character.
abbrev pub word_ends : Text → Bool
word_ends [] = true
word_ends (c ∷ s) = not (is_name_part c)

-- What follows a keyword that the text begins with, in any case.
unfoldable pub after_keyword : Text → Text → Option Text
after_keyword [] s = some s
after_keyword (k ∷ keyword) [] = none
after_keyword (k ∷ keyword) (c ∷ s) =
    let rest = after_keyword keyword s in if lower c == k then rest else none

abbrev pub ends_word : Option Text → Bool
ends_word none = false
ends_word (some s) = word_ends s

abbrev pub begins_with_word : Text → Text → Bool
begins_with_word keyword s = ends_word (after_keyword keyword s)

abbrev pub write_keywords : List Text
write_keywords =
    codes "insert"
    ∷ codes "update"
    ∷ codes "delete"
    ∷ codes "merge"
    ∷ codes "truncate"
    ∷ codes "drop"
    ∷ codes "alter"
    ∷ codes "create"
    ∷ codes "grant"
    ∷ codes "revoke"
    ∷ codes "call"
    ∷ codes "exec"
    ∷ codes "execute"
    ∷ codes "do"
    ∷ codes "copy"
    ∷ codes "vacuum"
    ∷ codes "reindex"
    ∷ codes "cluster"
    ∷ codes "restore"
    ∷ codes "backup"
    ∷ []

unfoldable pub begins_with_any : List Text → Text → Bool
unfolding after_keyword
begins_with_any [] s = false
begins_with_any (k ∷ ks) s = begins_with_word k s || begins_with_any ks s

-- `\s*.*\s+into\b`, with a flag for each of the three parts that the scan may stand in.
unfoldable pub then_into : Bool → Bool → Bool → Text → Bool
unfolding after_keyword
then_into blanks any last [] = false
then_into blanks any last (c ∷ s) =
    let blanks' = blanks && is_blank c in
    let any' = blanks' || any && not (c == b'\n') in
    let last' = (any || last) && is_blank c in
    let later = then_into blanks' any' last' s in
    last && begins_with_word (codes "into") (c ∷ s) || later

abbrev pub select_tail : Text → Bool
select_tail [] = false
select_tail (c ∷ s) = is_blank c && then_into true true false s

abbrev pub behind_select : Option Text → Bool
behind_select none = false
behind_select (some s) = select_tail s

-- `select\s+.*\s+into\b`.
unfoldable pub select_into : Text → Bool
unfolding after_keyword then_into
select_into s = behind_select (after_keyword (codes "select") s)

-- A match that begins behind a character; the flag says that it is one of a word.
unfoldable pub match_behind : Bool → Text → Bool
unfolding begins_with_any select_into
match_behind in_word [] = false
match_behind in_word (c ∷ s) =
    let later = match_behind (is_name_part c) s in
    not in_word && (begins_with_any write_keywords (c ∷ s) || select_into (c ∷ s)) || later

-- `writeStmt.MatchString`.
unfoldable pub has_write_statement : Text → Bool
unfolding match_behind
has_write_statement s = match_behind false s

unfoldable pub contains_semicolon : Text → Bool
contains_semicolon [] = false
contains_semicolon (c ∷ s) = c == b';' || contains_semicolon s
