-- ===== src/Cache/Invalidate.antt =====
-- cache/cache.go: New with its options, CacheKey and the invalidation methods, over a MemoryStore.
-- BindNamed's settings are an argument: the default ones.
mod Args
pub mod Query
use rainbowsquirrel.Base.{Bool, true, false, List, [], ◌∷◌, ◌++◌, Option, none, some, Bytes, ℤ, pos}
use rainbowsquirrel.Core.Errors.{GoError}
use rainbowsquirrel.Core.Outcome.{Outcome, ok, fail, panic, ◌>>=◌}
use rainbowsquirrel.Core.Settings.{Settings}
use rainbowsquirrel.Meta.Values.{Value}
use rainbowsquirrel.Bind.Named.{bind_named}
use rainbowsquirrel.Cache.Store.{MemoryStore, delete, delete_prefix, flush}
use rainbowsquirrel.Cache.Plugin.{Cache, CacheConfig, compute_key, store_key}

-- WithCodec is left out: the codec is the default one.
pub data CacheOption : Type 0 where
  with_default_ttl : ℤ → CacheOption
  with_invalidate_on_write : CacheOption
  with_singleflight : Bool → CacheOption
  with_key_prefix : Bytes → CacheOption

unfoldable pub apply_cache_option : CacheOption → CacheConfig → CacheConfig
apply_cache_option (with_default_ttl d) c = record c { default_ttl = d }
apply_cache_option with_invalidate_on_write c = record c { invalidate_on_write = true }
apply_cache_option (with_singleflight enabled) c = record c { singleflight = enabled }
apply_cache_option (with_key_prefix prefix) c = record c { key_prefix = prefix }

unfoldable pub apply_cache_options : List CacheOption → CacheConfig → CacheConfig
unfolding apply_cache_option
apply_cache_options [] c = c
apply_cache_options (o ∷ opts) c = apply_cache_options opts (apply_cache_option o c)

unfoldable pub new_cache : MemoryStore → List CacheOption → Cache
unfolding apply_cache_options
new_cache store opts = record {
  cfg = apply_cache_options opts (record {
    default_ttl = pos 0;
    invalidate_on_write = false;
    singleflight = true;
    key_prefix = [];
  });
  store = store;
  flight = [];
}

unfoldable pub invalidate_key : Bytes → Cache → Cache
unfolding store_key
invalidate_key key c = record c { store = delete (store_key c key) c.store }

unfoldable pub invalidate_namespace : Bytes → Cache → Cache
invalidate_namespace ns c = record c {
  store = delete_prefix (c.cfg.key_prefix ++ (ns ++ (0 ∷ []))) c.store;
}

unfoldable pub flush_cache : Cache → Cache
flush_cache c = record c { store = flush c.store }

module _ {Location : Type 0} (offset_at : Location → ℤ → ℤ) (marshal_value : Value → Outcome Bytes)
    (marshal : List Value → Bytes) (hex_digest : Bytes → Bytes) (defaults : Settings Location) where
  -- CacheKey, with the arguments after expansion.
  unfoldable pub cache_key : Bytes → Bytes → Value → Outcome Bytes
  unfolding compute_key
  cache_key ns query arg = bind_named offset_at marshal_value defaults query arg >>= λ b.
      ok (compute_key marshal hex_digest ns b.text b.args)

  -- The error is the one of CacheKey; a MemoryStore gives none.
  unfoldable pub invalidate_query : Bytes → Bytes → Value → Cache → Outcome Cache
  unfolding cache_key invalidate_key
  invalidate_query ns query arg c = cache_key ns query arg >>= λ key. ok (invalidate_key key c)
