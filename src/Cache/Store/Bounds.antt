-- ===== src/Cache/Store/Bounds.antt =====
-- MemoryStore never grows past its capacity.
use rainbowsquirrel.Base.{
  ℕ, zero, suc, ◌<◌, ◌≤◌, ◌≡◌, ap, arith, List, [], ◌∷◌, some, length, Bytes, Option-cases, inl,
  inr, ℤ, pos,
}
use rainbowsquirrel.Cache.Store.{new_memory_store, is_full}
use rainbowsquirrel.Cache.Store.Sync.{new_memory_store-IsSync}
use rainbowsquirrel.Cache.Store.Spec.{Entry, find, erase, erase_prefix, drop_last, look_up, store}
use rainbowsquirrel.Cache.Store.Refine.{length-entries}
use rainbowsquirrel.Cache.Store.Calls.{
  Call, get_call, set_call, delete_call, delete_prefix_call, flush_call, run, spec_step, spec_run,
  run-spec_run,
}

drop_last-length : (l : List Entry) (n : ℕ) → length l ≤ suc n → length (drop_last l) ≤ n
unfolding drop_last
drop_last-length [] n h = omega arith
drop_last-length (e ∷ []) n h = omega arith
drop_last-length (e ∷ f ∷ l) zero h = absurd (omega arith)
drop_last-length (e ∷ f ∷ l) (suc n) h = omega (arith, drop_last-length (f ∷ l) n (omega arith))

erase-length : (k : Bytes) (l : List Entry) → length (erase k l) ≤ length l
unfolding erase
erase-length k [] = omega arith
erase-length k (e ∷ l) = ground (arith, erase-length k l)

erase-length_found :
    (k : Bytes) (l : List Entry) (e : Entry) → find k l ≡ some e → length (erase k l) < length l
unfolding erase find
erase-length_found k [] e h = absurd (ground arith)
erase-length_found k (f ∷ l) e h = ground (arith, erase-length k l, erase-length_found k l e)

erase_prefix-length : (p : Bytes) (l : List Entry) → length (erase_prefix p l) ≤ length l
unfolding erase_prefix
erase_prefix-length p [] = omega arith
erase_prefix-length p (e ∷ l) = ground (arith, erase_prefix-length p l)

spec_step-length :
    (n : ℕ) (ttl : ℤ) (c : Call) (l : List Entry)
    → length l ≤ suc n
    → length (spec_step (pos (suc n)) ttl c l).1 ≤ suc n
unfolding spec_step look_up store is_full
spec_step-length n ttl (get_call now k) l h = elim (Option-cases (find k l)) [
  | inl missing ↦ rw (missing, look_up) h
  | inr (e, hit) ↦ ground (arith, erase-length k l, erase-length_found k l e hit)
]
spec_step-length n ttl (set_call now k v t) l h = elim (Option-cases (find k l)) [
  | inl missing ↦ ground (arith, drop_last-length l n h)
  | inr (e, hit) ↦ ground (arith, erase-length_found k l e hit)
]
spec_step-length n ttl (delete_call k) l h = omega (arith, erase-length k l)
spec_step-length n ttl (delete_prefix_call p) l h = omega (arith, erase_prefix-length p l)
spec_step-length n ttl flush_call l h = omega arith

spec_run-length :
    (n : ℕ) (ttl : ℤ) (calls : List Call) (l : List Entry)
    → length l ≤ suc n
    → length (spec_run (pos (suc n)) ttl calls l).1 ≤ suc n
unfolding spec_run
spec_run-length n ttl [] l h = h
spec_run-length n ttl (c ∷ calls) l h =
    spec_run-length n ttl calls (spec_step (pos (suc n)) ttl c l).1 (spec_step-length n ttl c l h)

-- A store made with a positive capacity never holds more entries than that, whatever is called.
pub run_bounded :
    (n : ℕ) (default_ttl : ℤ) (calls : List Call)
    → length (run calls (new_memory_store (pos (suc n)) default_ttl)).1.lru ≤ suc n
unfolding new_memory_store
run_bounded n default_ttl calls =
    let start = new_memory_store (pos (suc n)) default_ttl in
    let (_, same) = run-spec_run calls start (new_memory_store-IsSync (pos (suc n)) default_ttl) in
    omega (
      arith,
      spec_run-length n default_ttl calls [] (omega arith),
      ap length same,
      length-entries (run calls start).1.lru,
    )
