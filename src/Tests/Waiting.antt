-- ===== src/Tests/Waiting.antt =====
-- cache/cache.go: the invalidation of a query, and waiting goroutines.
use rainbowsquirrel.Base.{
  ℕ, ◌^◌, ◌≡◌, ◌≢◌, refl, false, List, [], ◌∷◌, none, some, Bytes, codes, pos, All, equal,
}
use rainbowsquirrel.Core.Errors.{op_get, no_rows}
use rainbowsquirrel.Core.Outcome.{ok}
use rainbowsquirrel.Bind.Parser.{
  is_ident_char, is_quote, next_is, quoted_span, line_span, block_span, ident_span, named_at,
  parse_step, parse_loop, parse_placeholders, is_empty, is_named, named_places,
}
use rainbowsquirrel.Bind.Arguments.{
  kind, strip_pointers, deref_value, is_time, is_basic, is_slice, is_row, is_scalar_value,
  holds_rows, is_direct_expand_slice, is_expandable_slice, find_entry, map_index,
  lookup_named_value, normalize_kind, normalize_bind_value,
}
use rainbowsquirrel.Bind.Named.{
  struct_type_of, question_marks, Bound, row_info, named_args, bind_loop, bind_derefed, bind_places,
  bind_named,
}
use rainbowsquirrel.Meta.Types.{key_kind, is_struct, is_map}
use rainbowsquirrel.Meta.Values.{Value, int_value, is_valuer, is_byte_slice}
use rainbowsquirrel.Cache.Options.{with_ttl, cache_opts, apply_options, apply_option}
use rainbowsquirrel.Cache.Store.{new_memory_store, get, find_item}
use rainbowsquirrel.Cache.Store.Sync.{new_memory_store-IsSync}
use rainbowsquirrel.Cache.Store.Spec.{entries, erase}
use rainbowsquirrel.Cache.Plugin.{
  Cache, ExecInfo, hit, in_flight, acquire, is_read, try_hit, lookup_as_leader, attempt, awake,
  after, after_read, done, remove_flight, before, store_key, new_recorder,
}
use rainbowsquirrel.Cache.Plugin.Waiters.{
  IsServed, NotCrashed, finish_turn, wake_all, wake_all-IsServed,
}
use rainbowsquirrel.Cache.Invalidate.{invalidate_query}
use rainbowsquirrel.Cache.Invalidate.Query.{invalidate_query-before}
use rainbowsquirrel.Tests.Plugin
use rainbowsquirrel.Tests.Plugin.{recorded, cache}
use rainbowsquirrel.Tests.Binding

-- Both waiting reads find nothing and fail.
abbrev failed : ExecInfo ℕ
failed = record Plugin.info { err = some no_rows }

abbrev turns : List (ℕ × ExecInfo ℕ)
turns = (101, failed) ∷ (102, failed) ∷ []

kept : All NotCrashed (wake_all Plugin.marshal Plugin.digest (2 ^ 47) Plugin.recorder turns cache)
unfolding wake_all awake attempt lookup_as_leader try_hit finish_turn after after_read acquire done
    in_flight remove_flight get find_item new_memory_store store_key equal
kept = (tt, (tt, tt))

wake_all-IsServed_example :
    All IsServed (wake_all Plugin.marshal Plugin.digest (2 ^ 47) Plugin.recorder turns cache)
unfolding in_flight is_read
wake_all-IsServed_example =
    wake_all-IsServed Plugin.marshal Plugin.digest (2 ^ 47) Plugin.recorder turns cache refl
      ((refl, refl), ((refl, refl), tt)) kept

abbrev query : Bytes
query = codes "q = :a"

abbrev bound : Bound
bound = record {
  text = codes "q = ?";
  args = int_value 64 (pos 1) ∷ [];
  bind_args = int_value 64 (pos 1) ∷ [];
}

bound_so :
    bind_named Binding.offset_at Binding.marshal (Binding.config false) query (Binding.row 1)
    ≡ ok bound
unfolding is_ident_char is_quote next_is quoted_span line_span block_span ident_span named_at
    parse_step parse_loop parse_placeholders is_empty is_named named_places kind strip_pointers
    deref_value is_time is_basic is_slice is_row is_scalar_value holds_rows is_direct_expand_slice
    is_expandable_slice find_entry map_index lookup_named_value normalize_kind normalize_bind_value
    struct_type_of question_marks row_info named_args bind_loop bind_derefed bind_places bind_named
    key_kind is_struct is_map is_valuer is_byte_slice equal
bound_so = refl

abbrev marshal : List Value → Bytes
marshal args = 1 ∷ []

abbrev read : ExecInfo Value
read = record {
  op = op_get;
  bind_sql = codes "q = ?";
  bind_args = int_value 64 (pos 1) ∷ [];
  options = with_ttl (pos 5) ∷ [];
  in_tx = false;
  err = none;
}

invalidate_query-before_example :
    (c' : Cache) × (invalidate_query Binding.offset_at Binding.marshal marshal Plugin.digest
        (Binding.config false)
        []
        query
        (Binding.row 1)
        cache
      ≡ ok c')
    × (entries c'.store
        ≡ erase
            (store_key cache (new_recorder marshal Plugin.digest cache read).key)
            (entries cache.store))
    × ((before marshal Plugin.digest (2 ^ 47) 100 read c').0 ≢ hit recorded)
unfolding cache_opts apply_options apply_option
invalidate_query-before_example =
    invalidate_query-before Binding.offset_at Binding.marshal marshal Plugin.digest
      (Binding.config false) (2 ^ 47) 100 [] query (Binding.row 1) bound read cache recorded
      (new_memory_store-IsSync (pos 10) (pos 0)) refl bound_so refl refl refl
