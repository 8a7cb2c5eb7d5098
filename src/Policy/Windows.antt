-- ===== src/Policy/Windows.antt =====
-- internal/policy/ratelimit.go: what the windows count, and how many requests they let pass.
use ddag.Base.{
  arith, ℕ, suc, ◌+◌, ◌-◌, ◌/◌, ◌≤◌, ◌<◌, ◌≡◌, refl, Bool, true, false, ◌&&◌, ◌||◌, not, Option,
  none, some, List, [], ◌∷◌, ◌++◌, if◌then◌else◌, ltb, leb, Text, eq_text, eq_text_iff, insert,
  lookup-insert,
}
use ddag.Policy.RateLimit.{
  Window, Active, Counters, count, active_windows, multi_window_script, decide_loop, tighter, allow,
}

count-insert :
    (j k : Text) (n : ℕ) (redis : Counters)
    → count (insert j n redis) k ≡ (if eq_text j k then n else count redis k)
count-insert j k n redis = ground (arith, lookup-insert j k n redis)

-- Whether each window has room, as the script reaches them.
unfoldable pub passes : Counters → List Active → Bool
passes redis [] = true
passes redis (w ∷ ws) =
    ltb (count redis w.key) w.limit && passes (insert w.key (count redis w.key + 1) redis) ws

pub decide_loop-passes :
    (ttl : Text → ℕ) (remaining : Option ℕ) (limit reset : ℕ) (redis : Counters) (ws : List Active)
    → (decide_loop remaining limit reset ws (multi_window_script ttl redis ws).1).allowed
      ≡ passes redis ws
unfolding decide_loop multi_window_script passes
decide_loop-passes ttl remaining limit reset redis [] = refl
decide_loop-passes ttl remaining limit reset redis (w ∷ ws) =
    let left = w.limit - (count redis w.key + 1) in
    let tight = tighter remaining left in
    ground (
      arith,
      decide_loop-passes ttl (if tight then some left else remaining)
          (if tight then w.limit else limit) (if tight then ttl w.key / 1000 else reset)
          (insert w.key (count redis w.key + 1) redis) ws,
    )

script-count-le :
    (ttl : Text → ℕ) (redis : Counters) (ws : List Active) (k : Text)
    → count redis k ≤ count (multi_window_script ttl redis ws).0 k
unfolding multi_window_script
script-count-le ttl redis [] k = omega arith
script-count-le ttl redis (w ∷ ws) k = ground (
  arith,
  eq_text_iff w.key k,
  count-insert w.key k (count redis w.key + 1) redis,
  script-count-le ttl (insert w.key (count redis w.key + 1) redis) ws k,
)

-- Whether a window on this key, with this limit or a lower one, is enforced.
unfoldable pub enforces : Text → ℕ → List Active → Bool
enforces k l [] = false
enforces k l (w ∷ ws) = eq_text w.key k && leb w.limit l || enforces k l ws

pub passes-count :
    (ttl : Text → ℕ) (k : Text) (l : ℕ) (redis : Counters) (ws : List Active)
    → passes redis ws ≡ true
    → enforces k l ws ≡ true
    → (count redis k < l) × (count redis k < count (multi_window_script ttl redis ws).0 k)
unfolding passes enforces multi_window_script
passes-count ttl k l redis [] p h = ground arith
passes-count ttl k l redis (w ∷ ws) p h =
    let redis' = insert w.key (count redis w.key + 1) redis in
    ground (
      arith,
      eq_text_iff w.key k,
      count-insert w.key k (count redis w.key + 1) redis,
      script-count-le ttl redis' ws k,
      passes-count ttl k l redis' ws,
    )

-- One request of a history: the key base of its client and API, and the windows of its rule.
pub record Request : Type 0 where
  pub base : Text
  pub windows : List Window

-- How many requests of a history are allowed among those that enforce a window on key `k` with a
-- limit of at most `l`. No counter expires in the history.
unfoldable pub granted : (Text → ℕ) → Text → ℕ → Counters → List Request → ℕ
granted ttl k l redis [] = 0
granted ttl k l redis (r ∷ rs) =
    let rest = granted ttl k l (allow ttl redis r.base r.windows).0 rs in
    if enforces k l (active_windows r.base r.windows)
      && (allow ttl redis r.base r.windows).1.allowed
    then suc rest
    else rest

-- While no counter expires, whatever requests come in between, at most `l` requests are allowed
-- among those whose rule has an active window on key `k` with a limit of at most `l`: fewer by what
-- the counter stood at before.
pub granted-le :
    (ttl : Text → ℕ) (k : Text) (l : ℕ) (redis : Counters) (rs : List Request)
    → granted ttl k l redis rs ≤ l - count redis k
unfolding granted allow
granted-le ttl k l redis [] = omega arith
granted-le ttl k l redis (r ∷ rs) =
    let active = active_windows r.base r.windows in
    let after = (multi_window_script ttl redis active).0 in
    ground (
      arith,
      decide_loop-passes ttl none 0 0 redis active,
      script-count-le ttl redis active k,
      passes-count ttl k l redis active,
      granted-le ttl k l after rs,
    )

-- No two windows count on one key.
unfoldable pub absent : Text → List Active → Bool
absent k [] = true
absent k (w ∷ ws) = not (eq_text w.key k) && absent k ws

unfoldable pub distinct_keys : List Active → Bool
distinct_keys [] = true
distinct_keys (w ∷ ws) = absent w.key ws && distinct_keys ws

unfoldable pub has_room : Counters → List Active → Bool
has_room redis [] = true
has_room redis (w ∷ ws) = ltb (count redis w.key) w.limit && has_room redis ws

has_room-insert :
    (redis : Counters) (k : Text) (n : ℕ) (ws : List Active)
    → absent k ws ≡ true
    → has_room (insert k n redis) ws ≡ has_room redis ws
unfolding has_room absent
has_room-insert redis k n [] h = refl
has_room-insert redis k n (w ∷ ws) h = ground (
  arith,
  eq_text_iff w.key k,
  eq_text_iff k w.key,
  count-insert k w.key n redis,
  has_room-insert redis k n ws,
)

pub passes-has_room :
    (redis : Counters) (ws : List Active)
    → distinct_keys ws ≡ true
    → passes redis ws ≡ has_room redis ws
unfolding passes has_room distinct_keys
passes-has_room redis [] h = refl
passes-has_room redis (w ∷ ws) h =
    let redis' = insert w.key (count redis w.key + 1) redis in
    ground
      (arith, has_room-insert redis w.key (count redis w.key + 1) ws, passes-has_room redis' ws)

pub eq_text-append : (p s t : Text) → eq_text (p ++ s) (p ++ t) ≡ eq_text s t
unfolding eq_text
eq_text-append [] s t = refl
eq_text-append (c ∷ p) s t = ground (arith, eq_text-append p s t)
