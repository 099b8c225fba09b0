-- ===== src/Tests/Store.antt =====
-- cache/store.go on concrete calls.
use rainbowsquirrel.Base.{
  ◌≤◌, ◌≡◌, refl, List, [], ◌∷◌, none, some, length, codes, has_prefix, equal, pos, negsuc,
}
use rainbowsquirrel.Cache.Store.{
  MemoryStore, new_memory_store, get, set, delete_prefix, expiry, is_expired, find_item, set_new,
  is_full, get_element, element, list_remove, evict, delete_prefix_loop, back, remove, delete,
  delete_item, flush, remove_found, set_old,
}
use rainbowsquirrel.Cache.Store.Spec.{entries}
use rainbowsquirrel.Cache.Store.Sync.{IsSync, new_memory_store-IsSync}
use rainbowsquirrel.Cache.Store.Calls.{
  Call, get_call, set_call, delete_prefix_call, run, step, spec_run, run-IsSync, run-spec_run,
}
use rainbowsquirrel.Cache.Store.Bounds.{run_bounded}

-- Three keys in a store for two, a read that makes the first key recent, an expired entry, and
-- a prefix that is taken out.
abbrev calls : List Call
calls =
    set_call 0 (codes "u1") (codes "a") (pos 0)
    ∷ set_call 0 (codes "u2") (codes "b") (pos 5)
    ∷ get_call 1 (codes "u1")
    ∷ set_call 2 (codes "v1") (codes "c") (pos 10)
    ∷ get_call 3 (codes "u2")
    ∷ get_call 13 (codes "v1")
    ∷ delete_prefix_call (codes "u")
    ∷ get_call 14 (codes "u1")
    ∷ []

abbrev start : MemoryStore
start = new_memory_store (pos 2) (negsuc 0)

abbrev start_in_sync : IsSync start
start_in_sync = new_memory_store-IsSync (pos 2) (negsuc 0)

calls_answered :
    (run calls start).0 ≡ none ∷ none ∷ some (codes "a") ∷ none ∷ none ∷ none ∷ none ∷ none ∷ []
unfolding run step get find_item set delete_prefix new_memory_store set_new is_full get_element
    element is_expired expiry list_remove evict delete_prefix_loop back remove has_prefix delete
    delete_item flush remove_found set_old equal
calls_answered = refl

run-IsSync_example : IsSync (run calls start).1
run-IsSync_example = run-IsSync calls start start_in_sync

run-spec_run_example :
    ((run calls start).0 ≡ (spec_run (pos 2) (negsuc 0) calls []).0)
    × (entries (run calls start).1 ≡ (spec_run (pos 2) (negsuc 0) calls []).1)
unfolding new_memory_store
run-spec_run_example = run-spec_run calls start start_in_sync

run_bounded_example : length (run calls (new_memory_store (pos 2) (pos 60))).1.lru ≤ 2
run_bounded_example = run_bounded 1 (pos 60) calls
