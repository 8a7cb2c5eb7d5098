-- ===== src/Policy/Rules.antt =====
-- internal/policy/ratelimit.go: the decision on the windows of a rule, and where the script stops.
use ddag.Base.{
  arith, ℕ, suc, ◌+◌, ◌-◌, ◌/◌, ◌≤◌, ◌≡◌, refl, true, false, Option, none, some, List, [], ◌∷◌,
  ◌++◌, if◌then◌else◌, ℤ, pos, negsuc, zero, Text, codes, eq_text, insert,
}
use ddag.Policy.RateLimit.{
  Window, Active, Counters, count, with_limit, active_windows, multi_window_script, decide_loop,
  tighter, allow, windows_from_rule,
}
use ddag.Policy.Windows.{
  passes, decide_loop-passes, absent, distinct_keys, has_room, passes-has_room, eq_text-append,
}

abbrev key_of : Text → Text → Text
key_of base suffix = codes "ddag:rl:" ++ (base ++ (codes ":" ++ suffix))

key_of-eq_text : (base s t : Text) → eq_text (key_of base s) (key_of base t) ≡ eq_text s t
key_of-eq_text base s t =
    rw
      (
        eq_text-append (codes "ddag:rl:") (base ++ (codes ":" ++ s)) (base ++ (codes ":" ++ t)),
        eq_text-append base (codes ":" ++ s) (codes ":" ++ t),
      )
      (eq_text-append (codes ":") s t)

absent-with_limit :
    (k : Text) (l : ℤ) (base suffix : Text) (rest : List Active)
    → eq_text (key_of base suffix) k ≡ false
    → absent k rest ≡ true
    → absent k (with_limit l base suffix rest) ≡ true
unfolding absent
absent-with_limit k (pos zero) base suffix rest e h = h
absent-with_limit k (pos (suc n)) base suffix rest e h = rw (e, h) refl
absent-with_limit k (negsuc n) base suffix rest e h = h

distinct_keys-with_limit :
    (l : ℤ) (base suffix : Text) (rest : List Active)
    → absent (key_of base suffix) rest ≡ true
    → distinct_keys rest ≡ true
    → distinct_keys (with_limit l base suffix rest) ≡ true
unfolding distinct_keys
distinct_keys-with_limit (pos zero) base suffix rest e h = h
distinct_keys-with_limit (pos (suc n)) base suffix rest e h = rw (e, h) refl
distinct_keys-with_limit (negsuc n) base suffix rest e h = h

module _ (base : Text) (s m h d : ℤ) where
  abbrev day : List Active
  day = with_limit d base (codes "d") []

  abbrev hour : List Active
  hour = with_limit h base (codes "h") day

  abbrev minute : List Active
  minute = with_limit m base (codes "m") hour

  apart : (a b : Text) → eq_text a b ≡ false → eq_text (key_of base a) (key_of base b) ≡ false
  apart a b e = rw (key_of-eq_text base a b) e

  rule-distinct_keys : distinct_keys (active_windows base (windows_from_rule s m h d)) ≡ true
  unfolding active_windows windows_from_rule eq_text absent distinct_keys
  rule-distinct_keys =
      let dh =
        absent-with_limit (key_of base (codes "h")) d base (codes "d") []
          (apart (codes "d") (codes "h") refl) refl in
      let dm =
        absent-with_limit (key_of base (codes "m")) d base (codes "d") []
          (apart (codes "d") (codes "m") refl) refl in
      let ds =
        absent-with_limit (key_of base (codes "s")) d base (codes "d") []
          (apart (codes "d") (codes "s") refl) refl in
      let hm =
        absent-with_limit (key_of base (codes "m")) h base (codes "h") day
          (apart (codes "h") (codes "m") refl) dm in
      let hs =
        absent-with_limit (key_of base (codes "s")) h base (codes "h") day
          (apart (codes "h") (codes "s") refl) ds in
      let ms =
        absent-with_limit (key_of base (codes "s")) m base (codes "m") hour
          (apart (codes "m") (codes "s") refl) hs in
      distinct_keys-with_limit s base (codes "s") minute ms (
        distinct_keys-with_limit m base (codes "m") hour hm (
          distinct_keys-with_limit h base (codes "h") day dh
            (distinct_keys-with_limit d base (codes "d") [] refl refl)))

-- A request under a rule is allowed exactly when each window of the rule whose limit is positive has
-- counted fewer requests than its limit.
pub allow-has_room :
    (ttl : Text → ℕ) (redis : Counters) (base : Text) (s m h d : ℤ)
    → (allow ttl redis base (windows_from_rule s m h d)).1.allowed
      ≡ has_room redis (active_windows base (windows_from_rule s m h d))
unfolding allow
allow-has_room ttl redis base s m h d =
    let active = active_windows base (windows_from_rule s m h d) in
    rw (decide_loop-passes ttl none 0 0 redis active)
      (passes-has_room redis active (rule-distinct_keys base s m h d))

script-stops :
    (ttl : Text → ℕ) (redis : Counters) (before after : List Active) (w : Active)
    → passes redis before ≡ true
    → w.limit ≤ count (multi_window_script ttl redis before).0 w.key
    → multi_window_script ttl redis (before ++ (w ∷ after))
      ≡ multi_window_script ttl redis (before ++ (w ∷ []))
unfolding multi_window_script passes
script-stops ttl redis [] after w p full = ground arith
script-stops ttl redis (v ∷ before) after w p full =
    ground (arith, script-stops ttl (insert v.key (count redis v.key + 1) redis) before after w)

decide_loop-exceeded :
    (ttl : Text → ℕ) (remaining : Option ℕ) (limit reset : ℕ) (redis : Counters)
    (before after : List Active) (w : Active)
    → passes redis before ≡ true
    → w.limit ≤ count (multi_window_script ttl redis before).0 w.key
    → (decide_loop remaining limit reset
        (before ++ (w ∷ after))
        (multi_window_script ttl redis (before ++ (w ∷ after))).1).exceeded_scope
      ≡ w.suffix
unfolding multi_window_script passes decide_loop
decide_loop-exceeded ttl remaining limit reset redis [] after w p full = ground arith
decide_loop-exceeded ttl remaining limit reset redis (v ∷ before) after w p full =
    let left = v.limit - (count redis v.key + 1) in
    let tight = tighter remaining left in
    ground (
      arith,
      decide_loop-exceeded ttl (if tight then some left else remaining)
          (if tight then v.limit else limit) (if tight then ttl v.key / 1000 else reset)
          (insert v.key (count redis v.key + 1) redis) before after w,
    )

-- Where the windows before one have room and that one has none, the decision names that one, and the
-- windows behind it have no effect: the counters and the replies are as if they were not there.
pub exceeded_stops :
    (ttl : Text → ℕ) (redis : Counters) (base : Text) (windows : List Window)
    (before after : List Active) (w : Active)
    → active_windows base windows ≡ before ++ (w ∷ after)
    → passes redis before ≡ true
    → w.limit ≤ count (multi_window_script ttl redis before).0 w.key
    → ((allow ttl redis base windows).1.exceeded_scope ≡ w.suffix)
      × ((allow ttl redis base windows).0 ≡ (multi_window_script ttl redis (before ++ (w ∷ []))).0)
unfolding allow
exceeded_stops ttl redis base windows before after w e p full = rw e (
  decide_loop-exceeded ttl none 0 0 redis before after w p full,
  rw (script-stops ttl redis before after w p full) refl,
)
