-- ===== src/Net/Tests.antt =====
-- The theorems at a table of one connection.
use rapidapp.Base.{ℕ, ◌≡◌, ◌≢◌, refl, none, some, success, arith}
use rapidapp.Base.Run.{done}
use rapidapp.Net.{
  begin, Heap, NetHandlerMgr, find, remove_handler_by_event, walk_through, do_something,
}
use rapidapp.Net.Remove.{Inv, remove_handler_by_event_lem}
use rapidapp.Net.Walk.{walk_through_lem}
use rapidapp.Net.Walk.Complete.{kept, walk_through_visits_all}
use rapidapp.Net.Limits.{setting_of, do_something-Keeps}
use rapidapp.Net.Example.{heap, table, table-Inv}

remove_handler_by_event_lem_example :
    (h' : Heap ℕ) × (m' : NetHandlerMgr) × (remove_handler_by_event (some 6) heap table
      ≡ done (success, h', m'))
    × Inv h' m'
    × (h'.nets 2 ≡ none)
    × (find 6 m'.handler_pool ≡ none)
    × ((fd' : ℕ) → fd' ≢ 6 → find fd' m'.handler_pool ≡ find fd' table.handler_pool)
    × ((b : ℕ) → b ≢ 2 → h'.nets b ≡ heap.nets b)
unfolding find
remove_handler_by_event_lem_example = remove_handler_by_event_lem heap table 6 2 table-Inv refl

walk_through_lem_example :
    (h' : Heap ℕ) × (m' : NetHandlerMgr) × (walk_through
        (do_something (setting_of 0 10 0) 120)
        heap
        table
      ≡ done (h', m'))
    × Inv h' m'
    × ((fd net : ℕ) → find fd m'.handler_pool ≡ some net → find fd table.handler_pool ≡ some net)
walk_through_lem_example =
    walk_through_lem (do_something (setting_of 0 10 0) 120) heap table
      (do_something-Keeps (setting_of 0 10 0) 120) table-Inv

walk_through_visits_all_example :
    (h' : Heap ℕ) × (walk_through (do_something (setting_of 0 10 0) 120) heap table
      ≡ done (
        h',
        record {
          handler_pool = kept (do_something (setting_of 0 10 0) 120) heap.nets table.handler_pool;
          it_cursor =
              begin (kept (do_something (setting_of 0 10 0) 120) heap.nets table.handler_pool);
        },
      ))
unfolding begin
walk_through_visits_all_example =
    walk_through_visits_all (do_something (setting_of 0 10 0) 120) heap table
      (do_something-Keeps (setting_of 0 10 0) 120) table-Inv refl (omega arith)
