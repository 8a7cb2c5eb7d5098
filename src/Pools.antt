-- ===== src/Pools.antt =====
-- internal/connectorpool/registry.go: one live pool for each source database. `Acquire` gives up the
-- lock while a pool is built, so it is three steps here, which the steps of other goroutines come
-- between: the first look, the build, and the second look. A pool is a number, in the order of the
-- builds; the map of entries is a function. A `Close` is taken together with the unlocking before it.
-- Left out: the statistics and `CloseAll`, which runs when the process ends.
pub mod Sound
pub mod Steps
pub mod Open
pub mod Leak
mod Tests
use ddag.Base.{
  ℕ, suc, Bool, true, false, ◌||◌, [], Option, none, some, ◌==◌, if◌then◌else◌, Text, eq_text, ◌≡◌,
}

pub record Entry : Type 0 where
  pub conn : ℕ
  pub version : ℕ

-- A call of `Acquire` between its two looks, with the pool once it is built.
pub record Flight : Type 0 where
  pub connection_id : Text
  pub version : ℕ
  pub stale : Option Entry
  pub conn : Option ℕ

pub record Registry : Type 0 where
  pub entries : Text → Option Entry
  pub flights : ℕ → Option Flight
  -- The pools that were built, the connection of each, and whether it is closed.
  pub pools : ℕ
  pub built_for : ℕ → Text
  pub closed : ℕ → Bool

abbrev pub new : Registry
new = record {
  entries = λ id. none;
  flights = λ g. none;
  pools = 0;
  built_for = λ c. [];
  closed = λ c. false;
}

abbrev pub set_entry : Text → Option Entry → (Text → Option Entry) → Text → Option Entry
set_entry id e entries id' = if eq_text id id' then e else entries id'

abbrev pub set_flight : ℕ → Option Flight → (ℕ → Option Flight) → ℕ → Option Flight
set_flight g f flights g' = if g == g' then f else flights g'

abbrev pub close : ℕ → (ℕ → Bool) → ℕ → Bool
close c closed c' = c == c' || closed c'

abbrev pub close_stale : Option Entry → (ℕ → Bool) → ℕ → Bool
close_stale none closed = closed
close_stale (some e) closed = close e.conn closed

-- The pool of an entry with the version that is asked for.
abbrev pub current : ℕ → Option Entry → Option ℕ
current version none = none
current version (some e) = if e.version == version then some e.conn else none

unfoldable pub took_off : ℕ → Text → ℕ → Registry → Option ℕ → Registry × Option ℕ
took_off g id version r (some c) = (r, some c)
took_off g id version r none = (
  record r {
    flights =
        set_flight g
          (some record { connection_id = id; version = version; stale = r.entries id; conn = none })
          r.flights;
  },
  none,
)

-- The first look, with the pool that it returns, if it does.
unfoldable pub first_look : ℕ → Text → ℕ → Registry → Registry × Option ℕ
unfolding took_off
first_look g id version r = took_off g id version r (current version (r.entries id))

unfoldable pub built_flight : ℕ → Bool → Registry → Option Flight → Registry
built_flight g ok r none = r
built_flight g ok r (some f) =
    if ok
    then record r {
      flights = set_flight g (some (record f { conn = some r.pools })) r.flights;
      pools = suc r.pools;
      built_for = λ c. if r.pools == c then f.connection_id else r.built_for c;
    }
    else record r { flights = set_flight g none r.flights }

-- `connectors.BuildFor`, which fails or gives a new pool.
unfoldable pub build : ℕ → Bool → Registry → Registry
unfolding built_flight
build g ok r = built_flight g ok r (r.flights g)

unfoldable pub landed : ℕ → ℕ → Flight → Registry → Option ℕ → Registry × Option ℕ
landed g c f r (some other) =
    (record r { flights = set_flight g none r.flights; closed = close c r.closed }, some other)
landed g c f r none = (
  record r {
    entries = set_entry f.connection_id (some record { conn = c; version = f.version }) r.entries;
    flights = set_flight g none r.flights;
    closed = close_stale f.stale r.closed;
  },
  some c,
)

unfoldable pub landing : ℕ → Flight → Registry → Option ℕ → Registry × Option ℕ
unfolding landed
landing g f r none = (r, none)
landing g f r (some c) = landed g c f r (current f.version (r.entries f.connection_id))

unfoldable pub landing_of : ℕ → Registry → Option Flight → Registry × Option ℕ
unfolding landing
landing_of g r none = (r, none)
landing_of g r (some f) = landing g f r f.conn

-- The second look, with the pool that it returns.
unfoldable pub second_look : ℕ → Registry → Registry × Option ℕ
unfolding landing_of
second_look g r = landing_of g r (r.flights g)

unfoldable pub invalidate : Text → Registry → Registry
invalidate id r = record r {
  entries = set_entry id none r.entries;
  closed = close_stale (r.entries id) r.closed;
}

-- One step of one goroutine. A goroutine that is in a call of `Acquire` starts no other one, and builds
-- its pool once.
pub data Step (r : Registry) : Registry → Type 0 where
  looks :
      (g : ℕ) (id : Text) (version : ℕ) → r.flights g ≡ none → Step r (first_look g id version r).0
  builds :
      (g : ℕ) (ok : Bool) (f : Flight)
      → r.flights g ≡ some f
      → f.conn ≡ none
      → Step r (build g ok r)
  looks_again : (g : ℕ) → Step r (second_look g r).0
  invalidates : (id : Text) → Step r (invalidate id r)

pub data Reached : Registry → Type 0 where
  start : Reached new
  after : (r r' : Registry) → Reached r → Step r r' → Reached r'
