-- ===== src/Policy/RateLimit.antt =====
-- internal/policy/ratelimit.go: fixed windows of requests, counted by Redis. The Redis keys are a
-- map from texts to counts; a window that expired is a key that is not there. `INCR` on it gives 1.
-- Suffixes are the texts of the source; durations are in milliseconds. The time to live that `PTTL`
-- reports is an argument, as it depends on the clock of the server; it is not negative, since the
-- script has given every key that it asks about an expiry.
use ddag.Base.{
  ℕ, suc, ◌+◌, ◌-◌, ◌/◌, Bool, true, false, Option, none, some, List, [], ◌∷◌, ◌++◌, if◌then◌else◌,
  ltb, ℤ, pos, Text, codes, Dict, lookup, insert,
}
use ddag.Models.{equal_fold, trim_space, trim_left, trim_right}

pub record Window : Type 0 where
  pub suffix : Text
  pub limit : ℤ
  pub duration : ℕ

pub record Decision : Type 0 where
  pub allowed : Bool
  pub limit : ℕ
  pub remaining : ℕ
  pub reset_seconds : ℕ
  pub exceeded_scope : Text

unfoldable pub windows_from_rule : ℤ → ℤ → ℤ → ℤ → List Window
windows_from_rule per_sec per_min per_hour per_day =
    record { suffix = codes "s"; limit = per_sec; duration = 1000 }
    ∷ record { suffix = codes "m"; limit = per_min; duration = 60000 }
    ∷ record { suffix = codes "h"; limit = per_hour; duration = 3600000 }
    ∷ record { suffix = codes "d"; limit = per_day; duration = 86400000 }
    ∷ []

-- A window that is enforced, with its key and its positive limit.
pub record Active : Type 0 where
  pub key : Text
  pub suffix : Text
  pub limit : ℕ

abbrev pub with_limit : ℤ → Text → Text → List Active → List Active
with_limit (pos (suc n)) base suffix rest =
    record {
      key = codes "ddag:rl:" ++ (base ++ (codes ":" ++ suffix));
      suffix = suffix;
      limit = suc n;
    }
    ∷ rest
with_limit _ base suffix rest = rest

-- The loop that builds `keys`, `argv` and `active`: a limit of 0 or less is no limit.
unfoldable pub active_windows : Text → List Window → List Active
active_windows base [] = []
active_windows base (w ∷ ws) = with_limit w.limit base w.suffix (active_windows base ws)

abbrev pub Counters : Type 0
Counters = Dict ℕ

abbrev pub count_or_zero : Option ℕ → ℕ
count_or_zero none = 0
count_or_zero (some n) = n

abbrev pub count : Counters → Text → ℕ
count redis key = count_or_zero (lookup key redis)

module _ (ttl : Text → ℕ) where
  -- The Lua script: the counters after it, and a count with its time to live for each window that it
  -- reached.
  unfoldable pub multi_window_script : Counters → List Active → Counters × List (ℕ × ℕ)
  multi_window_script redis [] = (redis, [])
  multi_window_script redis (w ∷ ws) =
      let current = count redis w.key + 1 in
      let rest = multi_window_script (insert w.key current redis) ws in
      if ltb w.limit current
      then (insert w.key current redis, (current, ttl w.key) ∷ [])
      else (rest.0, (current, ttl w.key) ∷ rest.1)

-- `d.Remaining < 0 || remaining < d.Remaining`, where none stands for -1.
abbrev pub tighter : Option ℕ → ℕ → Bool
tighter none r = true
tighter (some best) r = ltb r best

abbrev pub remaining_or_zero : Option ℕ → ℕ
remaining_or_zero none = 0
remaining_or_zero (some n) = n

-- The loop over the replies; the decision's `Remaining` is none while it is -1.
unfoldable pub decide_loop : Option ℕ → ℕ → ℕ → List Active → List (ℕ × ℕ) → Decision
decide_loop remaining limit reset [] replies = record {
  allowed = true;
  limit = limit;
  remaining = remaining_or_zero remaining;
  reset_seconds = reset;
  exceeded_scope = [];
}
decide_loop remaining limit reset (w ∷ ws) [] = record {
  allowed = true;
  limit = limit;
  remaining = remaining_or_zero remaining;
  reset_seconds = reset;
  exceeded_scope = [];
}
decide_loop remaining limit reset (w ∷ ws) ((current, ttl_ms) ∷ replies) =
    let left = w.limit - current in
    let tight = tighter remaining left in
    let next =
      decide_loop (if tight then some left else remaining) (if tight then w.limit else limit)
        (if tight then ttl_ms / 1000 else reset) ws replies in
    if ltb w.limit current
    then record {
      allowed = false;
      limit = w.limit;
      remaining = 0;
      reset_seconds = ttl_ms / 1000;
      exceeded_scope = w.suffix;
    }
    else next

-- `Allow` where Redis answers; without a window to enforce it is not asked.
unfoldable pub allow : (Text → ℕ) → Counters → Text → List Window → Counters × Decision
unfolding active_windows multi_window_script decide_loop
allow ttl redis base windows =
    let active = active_windows base windows in
    let (after, replies) = multi_window_script ttl redis active in
    (after, decide_loop none 0 0 active replies)

abbrev open_decision : Decision
open_decision = record {
  allowed = true;
  limit = 0;
  remaining = 0;
  reset_seconds = 0;
  exceeded_scope = [];
}

-- The decision where Redis fails, and whether it limits the request.
unfoldable pub rate_limit_failure_decision : Text → Decision × Bool
unfolding equal_fold trim_left trim_right
rate_limit_failure_decision mode =
    if equal_fold (trim_space mode) (codes "closed")
    then (
      record {
        allowed = false;
        limit = 0;
        remaining = 0;
        reset_seconds = 0;
        exceeded_scope = codes "fail_closed";
      },
      true,
    )
    else (open_decision, false)
