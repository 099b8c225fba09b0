-- ===== src/Cache/Invalidate/Query.antt =====
-- cache/cache.go: InvalidateQuery, and Before on the query that was invalidated.
use rainbowsquirrel.Base.{
  ◌≡◌, ◌≢◌, refl, sym, ap, ◌∙◌, arith, false, List, [], ◌∷◌, none, Bytes, ℤ, ℕ,
}
use rainbowsquirrel.Core.Outcome.{Outcome, ok}
use rainbowsquirrel.Core.Settings.{Settings}
use rainbowsquirrel.Meta.Values.{Value}
use rainbowsquirrel.Bind.Named.{Bound, bind_named}
use rainbowsquirrel.Cache.Options.{cache_opts}
use rainbowsquirrel.Cache.Codec.Types.{RowData}
use rainbowsquirrel.Cache.Store.{MemoryStore, get, delete}
use rainbowsquirrel.Cache.Store.Sync.{IsSync}
use rainbowsquirrel.Cache.Store.Methods.{delete-IsSync}
use rainbowsquirrel.Cache.Store.Spec.{Entry, entries, find, erase, look_up}
use rainbowsquirrel.Cache.Store.Refine.{get-look_up, delete-erase}
use rainbowsquirrel.Cache.Plugin.{
  Cache, ExecInfo, Recorder, hit, acquire, compute_key, store_key, try_hit, new_recorder,
  lookup_as_leader, attempt, before,
}
use rainbowsquirrel.Cache.Invalidate.{invalidate_key, cache_key, invalidate_query}
use rainbowsquirrel.Cache.Invalidate.Args.{bind_named-IsWhole}

find-erase : (key : Bytes) (l : List Entry) → find key (erase key l) ≡ none
unfolding find erase
find-erase key [] = refl
find-erase key (e ∷ l) = ground (arith, find-erase key l)

get-delete :
    (now : ℕ) (key : Bytes) (s : MemoryStore) → IsSync s → (get now key (delete key s)).0 ≡ none
unfolding look_up
get-delete now key s v =
    let (answer, _) = get-look_up now key (delete key s) (delete-IsSync key s v) in
    answer ∙ rw (delete-erase key s v, find-erase key (entries s), look_up) refl

module _ {Any : Type 0} (marshal : List Any → Bytes) (hex_digest : Bytes → Bytes) where
  attempt-missing :
      (limit now : ℕ) (rec : Recorder) (c : Cache) (rd : RowData)
      → ((flight : List Bytes)
          → (try_hit limit now rec.key (record c { flight = flight })).0 ≡ none)
      → (attempt marshal hex_digest limit now rec c).0 ≢ hit rd
  unfolding attempt lookup_as_leader acquire
  attempt-missing limit now rec c rd missing =
      ground (arith, missing c.flight, missing (rec.key ∷ c.flight))

  before-missing :
      (limit now : ℕ) (info : ExecInfo Any) (c : Cache) (rd : RowData)
      → ((flight : List Bytes)
          → (try_hit limit now
              (new_recorder marshal hex_digest c info).key
              (record c { flight = flight })).0
            ≡ none)
      → (before marshal hex_digest limit now info c).0 ≢ hit rd
  unfolding before
  before-missing limit now info c rd missing =
      ground
        (arith, attempt-missing limit now (new_recorder marshal hex_digest c info) c rd missing)

  try_hit-invalidated :
      (limit now : ℕ) (key : Bytes) (c : Cache) (flight : List Bytes)
      → IsSync c.store
      → (try_hit limit now key (record (invalidate_key key c) { flight = flight })).0 ≡ none
  unfolding try_hit invalidate_key store_key
  try_hit-invalidated limit now key c flight v =
      let gone = get-delete now (store_key c key) c.store v in ground (arith, gone)

module _ {Location : Type 0} (offset_at : Location → ℤ → ℤ) (marshal_value : Value → Outcome Bytes)
    (marshal : List Value → Bytes) (hex_digest : Bytes → Bytes) (defaults : Settings Location) where
  -- With settings that do not expand slices, InvalidateQuery on a query that can be bound takes
  -- exactly the entry out of the store that Before looks for when the same query is read in the
  -- same namespace by a DB with those settings, so that such a read is not a hit.
  pub invalidate_query-before :
      (limit now : ℕ) (ns query : Bytes) (arg : Value) (b : Bound) (info : ExecInfo Value)
      (c : Cache) (rd : RowData)
      → IsSync c.store
      → defaults.slice_expansion ≡ false
      → bind_named offset_at marshal_value defaults query arg ≡ ok b
      → info.bind_sql ≡ b.text
      → info.bind_args ≡ b.bind_args
      → (cache_opts info.options).namespace ≡ ns
      → (c' : Cache) × (invalidate_query offset_at marshal_value marshal hex_digest defaults ns
            query arg c
          ≡ ok c')
        × (entries c'.store
            ≡ erase (store_key c (new_recorder marshal hex_digest c info).key) (entries c.store))
        × ((before marshal hex_digest limit now info c').0 ≢ hit rd)
  unfolding invalidate_query cache_key invalidate_key new_recorder
  invalidate_query-before limit now ns query arg b info c rd v whole bound text args named_so =
      let key = (new_recorder marshal hex_digest c info).key in
      let same = bind_named-IsWhole offset_at marshal_value defaults whole query arg b bound in
      let computed : compute_key marshal hex_digest ns b.text b.args ≡ key =
        ap (λ (given : List Value). compute_key marshal hex_digest ns b.text given)
          (same ∙ sym args)
        ∙ rw (text, named_so) refl in
      (
        invalidate_key key c,
        rw bound (ap (λ k. ok (invalidate_key k c)) computed),
        delete-erase (store_key c key) c.store v,
        before-missing marshal hex_digest limit now info (invalidate_key key c) rd
            (λ flight. try_hit-invalidated marshal hex_digest limit now key c flight v),
      )
