-- ===== src/Cache/Store/Laws.antt =====
-- MemoryStore: what a caller of Set and Get can rely on.
use rainbowsquirrel.Base.{
  inl, inr, Bool-cases, if◌then◌else◌, ℕ, ◌≡◌, refl, ◌∙◌, none, some, Bytes, equal_refl, ℤ,
}
use rainbowsquirrel.Cache.Store.{MemoryStore, is_expired, get, set, expiry}
use rainbowsquirrel.Cache.Store.Sync.{IsSync}
use rainbowsquirrel.Cache.Store.Methods.{set-IsSync}
use rainbowsquirrel.Cache.Store.Spec.{find, look_up, store}
use rainbowsquirrel.Cache.Store.Refine.{get-look_up, set-store}

-- What Set stored is what the next Get of the key returns, unless it has expired by then: a value
-- that has expired is not returned.
pub get-set :
    (now later : ℕ) (key value : Bytes) (ttl : ℤ) (s : MemoryStore)
    → IsSync s
    → (get later key (set now key value ttl s)).0
      ≡ (if is_expired later (expiry now ttl s.ttl) then none else some value)
unfolding look_up store find
get-set now later key value ttl s v =
    let (answer, _) =
      get-look_up later key (set now key value ttl s) (set-IsSync now key value ttl s v) in
    elim (Bool-cases (is_expired later (expiry now ttl s.ttl))) [
      | inl late ↦ answer ∙ rw (set-store now key value ttl s v, equal_refl key, look_up, late) refl
      | inr fresh ↦
          answer ∙ rw (set-store now key value ttl s v, equal_refl key, look_up, fresh) refl
    ]
