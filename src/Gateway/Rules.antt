-- ===== src/Gateway/Rules.antt =====
-- internal/gatewaysvc/metadata.go: the rate limit rule that a request is checked against.
use ddag.Base.{
  arith, ◌≤◌, ◌<◌, ◌≡◌, refl, Option, none, some, List, [], ◌∷◌, ◌++◌, if◌then◌else◌, ltb, Text,
  All, All-map, All-append, Bool-cases, inl, inr, sym, ap, ap₂, subst, ◌∙◌,
}
use ddag.Models.{RateLimitRule}
use ddag.Gateway.Metadata.{
  Snapshot, specificity, filter, insert_rule, sort_rules, applies, rate_limit_rules_for,
}

-- The first of a list, if any.
abbrev pub first_rule : List RateLimitRule → Option RateLimitRule
first_rule [] = none
first_rule (r ∷ rs) = some r

-- The first rule of a list that no other one of it beats, and that beats every rule before it.
unfoldable pub most_specific : List RateLimitRule → Option RateLimitRule
most_specific [] = none
most_specific (r ∷ rs) = elim (most_specific rs) [
  | none ↦ some r
  | some q ↦ if ltb (specificity r) (specificity q) then some q else some r
]

first_rule-insert_rule :
    (r : RateLimitRule) (rs : List RateLimitRule)
    → first_rule (insert_rule r rs) ≡ elim (first_rule rs) [
      | none ↦ some r
      | some q ↦ if ltb (specificity r) (specificity q) then some q else some r
    ]
unfolding insert_rule
first_rule-insert_rule r [] = refl
first_rule-insert_rule r (q ∷ qs) = ground arith

first_rule-sort_rules : (rs : List RateLimitRule) → first_rule (sort_rules rs) ≡ most_specific rs
unfolding sort_rules most_specific
first_rule-sort_rules [] = refl
first_rule-sort_rules (r ∷ rs) =
    rw (first_rule-insert_rule r (sort_rules rs), first_rule-sort_rules rs) refl

-- Where a rule stands in a list: behind less specific rules only, before none that is more specific.
abbrev pub Leads : RateLimitRule → List RateLimitRule → Type 0
Leads r rs =
    (before after : List RateLimitRule) × (rs ≡ before ++ (r ∷ after))
    × All (λ q. specificity q < specificity r) before
    × All (λ q. specificity q ≤ specificity r) after

most_specific-none : (rs : List RateLimitRule) → most_specific rs ≡ none → rs ≡ []
unfolding most_specific
most_specific-none [] e = refl
most_specific-none (r ∷ rs) e = ground arith

Leads-later :
    (r q : RateLimitRule) (rs : List RateLimitRule)
    → specificity r < specificity q
    → Leads q rs
    → Leads q (r ∷ rs)
Leads-later r q rs lower (before, after, e, hb, ha) =
    (r ∷ before, after, ap (λ t. r ∷ t) e, (lower, hb), ha)

Leads-here :
    (r q : RateLimitRule) (rs : List RateLimitRule)
    → specificity q ≤ specificity r
    → Leads q rs
    → Leads r (r ∷ rs)
Leads-here r q rs lower (before, after, e, hb, ha) = (
  [],
  rs,
  refl,
  tt,
  subst (All (λ p. specificity p ≤ specificity r)) (sym e) (
      All-append (λ p. specificity p ≤ specificity r) before (q ∷ after)
        (All-map (λ p h. omega (arith, h, lower)) before hb)
        (lower, All-map (λ p h. omega (arith, h, lower)) after ha)),
)

most_specific-step :
    (found : Option RateLimitRule) (r0 r : RateLimitRule) (rs : List RateLimitRule)
    → most_specific rs ≡ found
    → ((q : RateLimitRule) → most_specific rs ≡ some q → Leads q rs)
    → most_specific (r0 ∷ rs) ≡ some r
    → Leads r (r0 ∷ rs)
unfolding most_specific
most_specific-step none r0 r rs found leads e =
    ([], [], ap₂ ◌∷◌ (ground (arith, found, e)) (most_specific-none rs found), tt, tt)
most_specific-step (some q) r0 r rs found leads e =
    elim (Bool-cases (ltb (specificity r0) (specificity q))) [
      | inl lower ↦
          let same : q ≡ r = ground (arith, found, e, lower) in
          subst (λ p. Leads p (r0 ∷ rs)) same
            (Leads-later r0 q rs (ground (arith, lower)) (leads q found))
      | inr higher ↦
          let same : r0 ≡ r = ground (arith, found, e, higher) in
          subst (λ p. Leads p (r0 ∷ rs)) same
            (Leads-here r0 q rs (ground (arith, higher)) (leads q found))
    ]

most_specific-Leads :
    (rs : List RateLimitRule) (r : RateLimitRule) → most_specific rs ≡ some r → Leads r rs
unfolding most_specific
most_specific-Leads [] r e = ground arith
most_specific-Leads (r0 ∷ rs) r e =
    most_specific-step (most_specific rs) r0 r rs refl (most_specific-Leads rs) e

-- The rule that the gateway applies, the first of the sorted list, is a rule of the snapshot that
-- applies to the client and the API; every other that applies names at most as many of the two, and
-- those that stand before it in the snapshot fewer.
pub rate_limit_rules_for-Leads :
    (s : Snapshot) (client_id api_id : Text) (r : RateLimitRule)
    → first_rule (rate_limit_rules_for s client_id api_id) ≡ some r
    → Leads r (filter (applies client_id api_id) s.rate_rules)
unfolding rate_limit_rules_for
rate_limit_rules_for-Leads s client_id api_id r e =
    let rules = filter (applies client_id api_id) s.rate_rules in
    most_specific-Leads rules r (sym (first_rule-sort_rules rules) ∙ e)
