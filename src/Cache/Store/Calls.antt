-- ===== src/Cache/Store/Calls.antt =====
-- MemoryStore over any sequence of calls, against the bounded list of entries.
use rainbowsquirrel.Base.{
  ℕ, ◌≡◌, refl, ◌∙◌, arith, Bool, true, false, List, [], ◌∷◌, Option, none, some, Bytes, has_prefix,
  if◌then◌else◌, ℤ,
}
use rainbowsquirrel.Cache.Store.{
  Element, MemoryStore, element, remove, evict, get_element, get, set_new, set_old, set, expiry,
  remove_found, delete, delete_prefix_loop, delete_prefix, flush,
}
use rainbowsquirrel.Cache.Store.Sync.{IsSync}
use rainbowsquirrel.Cache.Store.Methods.{
  get-IsSync, set-IsSync, delete-IsSync, delete_prefix-IsSync, flush-IsSync,
}
use rainbowsquirrel.Cache.Store.Spec.{Entry, entries, erase, erase_prefix, look_up, store}
use rainbowsquirrel.Cache.Store.Refine.{get-look_up, set-store, delete-erase}
use rainbowsquirrel.Cache.Store.Prefix.{delete_prefix-erase_prefix}

-- A call of the Store interface, with the time at which it is served.
pub data Call : Type 0 where
  get_call : ℕ → Bytes → Call
  set_call : ℕ → Bytes → Bytes → ℤ → Call
  delete_call : Bytes → Call
  delete_prefix_call : Bytes → Call
  flush_call : Call

-- The value that Get returns; the other methods return none.
unfoldable pub step : Call → MemoryStore → Option Bytes × MemoryStore
step (get_call now k) s = get now k s
step (set_call now k v ttl) s = (none, set now k v ttl s)
step (delete_call k) s = (none, delete k s)
step (delete_prefix_call p) s = (none, delete_prefix p s)
step flush_call s = (none, flush s)

unfoldable pub run : List Call → MemoryStore → List (Option Bytes) × MemoryStore
run [] s = ([], s)
run (c ∷ calls) s =
    let (a, s') = step c s in let (answers, s'') = run calls s' in (a ∷ answers, s'')

unfoldable pub spec_step : ℤ → ℤ → Call → List Entry → Option Bytes × List Entry
spec_step cap ttl (get_call now k) l = look_up now k l
spec_step cap ttl (set_call now k v t) l = (none, store cap k v (expiry now t ttl) l)
spec_step cap ttl (delete_call k) l = (none, erase k l)
spec_step cap ttl (delete_prefix_call p) l = (none, erase_prefix p l)
spec_step cap ttl flush_call l = (none, [])

unfoldable pub spec_run : ℤ → ℤ → List Call → List Entry → List (Option Bytes) × List Entry
spec_run cap ttl [] l = ([], l)
spec_run cap ttl (c ∷ calls) l =
    let (a, l') = spec_step cap ttl c l in
    let (answers, l'') = spec_run cap ttl calls l' in (a ∷ answers, l'')

-- The capacity and the default time to live.
abbrev SameConfig : MemoryStore → MemoryStore → Type 0
SameConfig s t = (t.cap ≡ s.cap) × (t.ttl ≡ s.ttl)

visit-SameConfig :
    (inside : Bool) (o : Option Element) (s : MemoryStore)
    → SameConfig s (if inside then remove_found o s else s)
unfolding remove_found remove
visit-SameConfig false o s = (refl, refl)
visit-SameConfig true none s = (refl, refl)
visit-SameConfig true (some e) s = (refl, refl)

delete_prefix_loop-SameConfig :
    (p : Bytes) (todo : List (Bytes × ℕ)) (s : MemoryStore)
    → SameConfig s (delete_prefix_loop p todo s)
unfolding delete_prefix_loop remove_found remove
delete_prefix_loop-SameConfig p [] s = (refl, refl)
delete_prefix_loop-SameConfig p ((k, i) ∷ todo) s =
    let next = if has_prefix k p then remove_found (element i s.lru) s else s in
    let (later_cap, later_ttl) = delete_prefix_loop-SameConfig p todo next in
    let (cap_same, ttl_same) = visit-SameConfig (has_prefix k p) (element i s.lru) s in
    (later_cap ∙ cap_same, later_ttl ∙ ttl_same)

step-SameConfig : (c : Call) (s : MemoryStore) → SameConfig s (step c s).1
unfolding step get get_element set set_new set_old delete remove_found remove delete_prefix flush
    evict
step-SameConfig (get_call now k) s = ground arith
step-SameConfig (set_call now k v ttl) s = ground arith
step-SameConfig (delete_call k) s = ground arith
step-SameConfig (delete_prefix_call p) s = delete_prefix_loop-SameConfig p s.items s
step-SameConfig flush_call s = (refl, refl)

pub step-IsSync : (c : Call) (s : MemoryStore) → IsSync s → IsSync (step c s).1
unfolding step
step-IsSync (get_call now k) s v = get-IsSync now k s v
step-IsSync (set_call now k val ttl) s v = set-IsSync now k val ttl s v
step-IsSync (delete_call k) s v = delete-IsSync k s v
step-IsSync (delete_prefix_call p) s v = delete_prefix-IsSync p s v
step-IsSync flush_call s v = flush-IsSync s

-- The map and the list stay in step over any sequence of calls.
pub run-IsSync : (calls : List Call) (s : MemoryStore) → IsSync s → IsSync (run calls s).1
unfolding run
run-IsSync [] s v = v
run-IsSync (c ∷ calls) s v = run-IsSync calls (step c s).1 (step-IsSync c s v)

step-spec_step :
    (c : Call) (s : MemoryStore)
    → IsSync s
    → ((step c s).0 ≡ (spec_step s.cap s.ttl c (entries s)).0)
      × (entries (step c s).1 ≡ (spec_step s.cap s.ttl c (entries s)).1)
unfolding step spec_step
step-spec_step (get_call now k) s v = get-look_up now k s v
step-spec_step (set_call now k val ttl) s v = (refl, set-store now k val ttl s v)
step-spec_step (delete_call k) s v = (refl, delete-erase k s v)
step-spec_step (delete_prefix_call p) s v = (refl, delete_prefix-erase_prefix p s v)
step-spec_step flush_call s v = unfold flush in (refl, refl)

-- Over any sequence of calls MemoryStore returns the values that the bounded list returns, and
-- holds its entries in its order.
pub run-spec_run :
    (calls : List Call) (s : MemoryStore)
    → IsSync s
    → ((run calls s).0 ≡ (spec_run s.cap s.ttl calls (entries s)).0)
      × (entries (run calls s).1 ≡ (spec_run s.cap s.ttl calls (entries s)).1)
unfolding run spec_run
run-spec_run [] s v = (refl, refl)
run-spec_run (c ∷ calls) s v =
    let (cap_same, ttl_same) = step-SameConfig c s in
    let (a, l) = step-spec_step c s v in
    let (rest, ls) = run-spec_run calls (step c s).1 (step-IsSync c s v) in
    (ground arith, ground arith)
