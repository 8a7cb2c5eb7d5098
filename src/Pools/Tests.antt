-- ===== src/Pools/Tests.antt =====
-- A pool that is built, looked up and dropped.
use ddag.Base.{◌≡◌, refl, true, false, none, some, Text, codes, ◌==◌}
use ddag.Pools.{
  Registry, Entry, Flight, new, invalidate, invalidates, first_look, build, second_look, Reached,
  start, after, looks, builds,
}
use ddag.Pools.Open.{returned-IsUsable, IsUsable}
use ddag.Pools.Leak.{Later, then_, race-leaks, race}

abbrev looked : Registry
looked = (first_look 0 (codes "db") 1 new).0

abbrev flight : Flight
flight = record { connection_id = codes "db"; version = 1; stale = none; conn = none }

abbrev ready : Registry
ready = build 0 true looked

ready-Reached : Reached ready
unfolding first_look
ready-Reached =
    after looked ready (after new looked start (looks 0 (codes "db") 1 refl))
      (builds 0 true flight refl refl)

returned : (second_look 0 ready).1 ≡ some 0
unfolding second_look build first_look
returned = refl

returned-IsUsable_example :
    IsUsable
      (first_look 1 (codes "db") 1 ready).0
      (codes "db")
      (first_look 1 (codes "db") 1 ready).1
    × IsUsable (second_look 0 ready).0 (codes "db") (second_look 0 ready).1
unfolding build first_look
returned-IsUsable_example =
    returned-IsUsable ready 1 0 (codes "db") 1 (record flight { conn = some 0 }) ready-Reached refl

abbrev raced : Registry
raced = race 0 1 (codes "db") 1 2 new

race-leaks_example :
    ((invalidate (codes "db") raced).closed 0 ≡ false)
    × ((id : Text) (e : Entry)
        → (invalidate (codes "db") raced).entries id ≡ some e
        → (e.conn == 0) ≡ false)
race-leaks_example =
    race-leaks new (invalidate (codes "db") raced) 0 1 (codes "db") 1 2 start refl refl refl
      (then_ raced (invalidate (codes "db") raced) Later.now (invalidates (codes "db")))
