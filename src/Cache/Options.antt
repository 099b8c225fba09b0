-- ===== src/Cache/Options.antt =====
-- cache/cache.go: the call options of the cache and cacheOpts, which reads them.
use rainbowsquirrel.Base.{◌≡◌, refl, Bool, true, false, List, [], ◌∷◌, ◌++◌, Bytes, ℤ, pos, All}

-- WithTTL, WithNamespace, WithCache, WithNoCache, WithInvalidateNamespace, and options that are
-- not the cache's.
pub data CallOption : Type 0 where
  with_ttl : ℤ → CallOption
  with_namespace : Bytes → CallOption
  with_cache with_no_cache other_option : CallOption
  with_invalidate_namespace : Bytes → CallOption

pub record CallOpts : Type 0 where
  pub ttl : ℤ
  pub namespace : Bytes
  pub no_cache : Bool
  pub invalidate : Bytes

unfoldable pub apply_option : CallOption → CallOpts → CallOpts
apply_option (with_ttl d) o = record o { ttl = d; no_cache = false }
apply_option (with_namespace s) o = record o { namespace = s; no_cache = false }
apply_option with_cache o = record o { no_cache = false }
apply_option with_no_cache o = record o { no_cache = true }
apply_option other_option o = o
apply_option (with_invalidate_namespace s) o = record o { invalidate = s }

unfoldable pub apply_options : List CallOption → CallOpts → CallOpts
apply_options [] o = o
apply_options (opt ∷ opts) o = apply_options opts (apply_option opt o)

unfoldable pub cache_opts : List CallOption → CallOpts
cache_opts opts =
    apply_options opts (record { ttl = pos 0; namespace = []; no_cache = true; invalidate = [] })

-- The option neither turns caching on nor off.
abbrev pub Undecided : CallOption → Type 0
Undecided other_option = Unit
Undecided (with_invalidate_namespace s) = Unit
Undecided _ = ⊥

Undecided-keeps :
    (opts : List CallOption) (o : CallOpts)
    → All Undecided opts
    → (apply_options opts o).no_cache ≡ o.no_cache
unfolding apply_options apply_option
Undecided-keeps [] o h = refl
Undecided-keeps (other_option ∷ opts) o h = Undecided-keeps opts o h.1
Undecided-keeps (with_invalidate_namespace s ∷ opts) o h =
    Undecided-keeps opts (record o { invalidate = s }) h.1
Undecided-keeps (with_ttl d ∷ opts) o h = absurd h.0
Undecided-keeps (with_namespace s ∷ opts) o h = absurd h.0
Undecided-keeps (with_cache ∷ opts) o h = absurd h.0
Undecided-keeps (with_no_cache ∷ opts) o h = absurd h.0

apply_options-append :
    (xs ys : List CallOption) (o : CallOpts)
    → apply_options (xs ++ ys) o ≡ apply_options ys (apply_options xs o)
unfolding apply_options
apply_options-append [] ys o = refl
apply_options-append (x ∷ xs) ys o = apply_options-append xs ys (apply_option x o)

-- A call is not cached if none of its options says so, and the last option that says anything
-- decides: after WithNoCache no option before it turns caching on.
pub cache_opts-with_no_cache :
    (opts undecided : List CallOption)
    → All Undecided undecided
    → ((cache_opts undecided).no_cache ≡ true)
      × ((cache_opts (opts ++ (with_no_cache ∷ undecided))).no_cache ≡ true)
      × ((cache_opts (opts ++ (with_cache ∷ undecided))).no_cache ≡ false)
unfolding cache_opts apply_option apply_options
cache_opts-with_no_cache opts undecided h =
    let zero_opts : CallOpts = record {
      ttl = pos 0;
      namespace = [];
      no_cache = true;
      invalidate = [];
    } in
    let before = apply_options opts zero_opts in
    (
      Undecided-keeps undecided zero_opts h,
      rw (apply_options-append opts (with_no_cache ∷ undecided) zero_opts)
          (Undecided-keeps undecided (record before { no_cache = true }) h),
      rw (apply_options-append opts (with_cache ∷ undecided) zero_opts)
          (Undecided-keeps undecided (record before { no_cache = false }) h),
    )
