-- ===== src/Cache/Plugin/Hits.antt =====
-- cache/cache.go: what Before finds after an After hook has stored it, and when flights end.
use rainbowsquirrel.Base.{
  ℕ, ◌^◌, ◌<◌, ◌≡◌, ◌∙◌, refl, subst, sym, arith, true, false, List, [], ◌∷◌, none, some, Bytes,
  length, equal_refl,
}
use rainbowsquirrel.Core.Errors.{GoError}
use rainbowsquirrel.Cache.Codec.Types.{RowData, ok}
use rainbowsquirrel.Cache.Codec.Write.{encode}
use rainbowsquirrel.Cache.Codec.RoundTrip.{Storable, replay, decode-encode}
use rainbowsquirrel.Cache.Store.{expiry, is_expired, get, set}
use rainbowsquirrel.Cache.Store.Sync.{IsSync}
use rainbowsquirrel.Cache.Store.Laws.{get-set}
use rainbowsquirrel.Cache.Plugin.{
  Cache, ExecInfo, Recorder, hit, in_flight, remove_flight, acquire, done, is_read, store_key,
  try_hit, new_recorder, is_served, lookup_as_leader, attempt, before, save, after_read, after,
}

in_flight-remove_flight :
    (key : Bytes) (keys : List Bytes) → in_flight key (remove_flight key keys) ≡ false
unfolding in_flight remove_flight
in_flight-remove_flight key [] = refl
in_flight-remove_flight key (k ∷ keys) = ground (arith, in_flight-remove_flight key keys)

pub in_flight-done : (key : Bytes) (keys : List Bytes) → in_flight key (done key keys) ≡ false
unfolding done
in_flight-done key keys = ground (arith, in_flight-remove_flight key keys)

-- What is stored under the recorder's key is found there and decoded.
try_hit-save :
    (limit now later : ℕ) (rec : Recorder) (c : Cache) (flight : List Bytes) (w : Bytes)
    → IsSync c.store
    → Storable limit (record { columns = rec.cols; rows = rec.rows })
    → encode (record { columns = rec.cols; rows = rec.rows }) ≡ ok w
    → length w < 2 ^ 63
    → is_expired later (expiry now rec.ttl c.store.ttl) ≡ false
    → (try_hit limit later rec.key (record (save now rec c) { flight = flight })).0
      ≡ some (some (replay (record { columns = rec.cols; rows = rec.rows })))
unfolding try_hit save store_key
try_hit-save limit now later rec c flight w v storable e small fresh =
    let key = store_key c rec.key in
    let kept : (get later key (set now key w rec.ttl c.store)).0 ≡ some w =
      get-set now later key w rec.ttl c.store v ∙ rw fresh refl in
    ground (
      arith,
      kept,
      decode-encode limit (record { columns = rec.cols; rows = rec.rows }) w storable e small,
    )

remove_flight-absent :
    (key : Bytes) (keys : List Bytes) → in_flight key keys ≡ false → remove_flight key keys ≡ keys
unfolding in_flight remove_flight
remove_flight-absent key [] h = refl
remove_flight-absent key (k ∷ keys) h = ground (arith, remove_flight-absent key keys)

-- A flight that begins and ends at once.
done-begun :
    (key : Bytes) (keys : List Bytes) → in_flight key keys ≡ false → done key (key ∷ keys) ≡ keys
unfolding done in_flight remove_flight
done-begun key keys h = ground (arith, equal_refl key, remove_flight-absent key keys h)

module _ {Any : Type 0} (marshal : List Any → Bytes) (hex_digest : Bytes → Bytes) where
  -- The After hook of a Get or Select outside a transaction ends the flight of its key, whether
  -- the operation failed or not; if it failed, nothing is stored.
  pub after-flight :
      (now : ℕ) (rec : Recorder) (info : ExecInfo Any) (c : Cache) (e : GoError)
      → info.in_tx ≡ false
      → is_read info.op ≡ true
      → (in_flight rec.key (after marshal hex_digest now (some rec) info c).flight ≡ false)
        × ((after marshal hex_digest now (some rec) (record info { err = some e }) c).store
            ≡ c.store)
  unfolding after after_read is_read save
  after-flight now rec info c e outside read = (
    ground (arith, in_flight-done rec.key c.flight, in_flight-done rec.key (save now rec c).flight),
    ground arith,
  )

  after-saves :
      (now : ℕ) (rec : Recorder) (info : ExecInfo Any) (c : Cache)
      → info.in_tx ≡ false
      → is_read info.op ≡ true
      → info.err ≡ none
      → after marshal hex_digest now (some rec) info c
        ≡ record (save now rec c) { flight = done rec.key (save now rec c).flight }
  unfolding after after_read is_read
  after-saves now rec info c outside read clean = ground arith

  -- A leader's lookup, and one without singleflight, answers with what is found.
  attempt-found :
      (limit now : ℕ) (rec : Recorder) (c : Cache) (rd : RowData)
      → in_flight rec.key c.flight ≡ false
      → ((flight : List Bytes)
          → (try_hit limit now rec.key (record c { flight = flight })).0 ≡ some (some rd))
      → (attempt marshal hex_digest limit now rec c).0 ≡ hit rd
  unfolding attempt lookup_as_leader acquire
  attempt-found limit now rec c rd free found =
      ground (arith, found c.flight, found (rec.key ∷ c.flight))

  -- A Get or Select that is served by the cache and asks under the key of an operation that has
  -- just been recorded and stored finds the rows that were recorded, every time's zone cut to whole
  -- minutes, unless they have expired: with singleflight and without.
  pub before-after :
      (limit now later : ℕ) (rec : Recorder) (done_info info : ExecInfo Any) (c : Cache) (w : Bytes)
      → IsSync c.store
      → Storable limit (record { columns = rec.cols; rows = rec.rows })
      → encode (record { columns = rec.cols; rows = rec.rows }) ≡ ok w
      → length w < 2 ^ 63
      → is_expired later (expiry now rec.ttl c.store.ttl) ≡ false
      → done_info.in_tx ≡ false
      → is_read done_info.op ≡ true
      → done_info.err ≡ none
      → is_served marshal hex_digest info ≡ true
      → (new_recorder marshal hex_digest c info).key ≡ rec.key
      → (before marshal hex_digest limit later info
          (after marshal hex_digest now (some rec) done_info c)).0
        ≡ hit (replay (record { columns = rec.cols; rows = rec.rows }))
  unfolding before new_recorder
  before-after limit now later rec done_info info c w v storable e small fresh outside read clean
        served same =
      let rd : RowData = record { columns = rec.cols; rows = rec.rows } in
      let stored = save now rec c in
      let kept = after marshal hex_digest now (some rec) done_info c in
      let ended = done rec.key stored.flight in
      let same_kept : kept ≡ record stored { flight = ended } =
        after-saves now rec done_info c outside read clean in
      let found : (flight : List Bytes)
          → (try_hit limit later rec.key (record stored { flight = flight })).0
            ≡ some (some (replay rd)) =
        λ flight. try_hit-save limit now later rec c flight w v storable e small fresh in
      let rec' = new_recorder marshal hex_digest kept info in
      let key_same : rec'.key ≡ rec.key = same in
      let free =
        subst (λ k. in_flight k kept.flight ≡ false) (sym key_same)
          (subst (λ (x : Cache). in_flight rec.key x.flight ≡ false) (sym same_kept)
            (in_flight-done rec.key stored.flight)) in
      let found' : (flight : List Bytes)
          → (try_hit limit later rec'.key (record kept { flight = flight })).0
            ≡ some (some (replay rd)) =
        λ flight.
          subst
            (λ k.
              (try_hit limit later k (record kept { flight = flight })).0 ≡ some (some (replay rd)))
            (sym key_same)
            (subst
              (λ (x : Cache).
                (try_hit limit later rec.key (record x { flight = flight })).0
                ≡ some (some (replay rd)))
              (sym same_kept) (found flight)) in
      ground (arith, attempt-found limit later rec' kept (replay rd) free found')

  -- A hit that Before answers leaves the flights as they were: its own is over, if it had one.
  pub hit-flight :
      (limit now : ℕ) (info : ExecInfo Any) (c : Cache) (rd : RowData)
      → (before marshal hex_digest limit now info c).0 ≡ hit rd
      → (before marshal hex_digest limit now info c).1.flight ≡ c.flight
  unfolding before attempt lookup_as_leader acquire try_hit
  hit-flight limit now info c rd h =
      ground (arith, done-begun (new_recorder marshal hex_digest c info).key c.flight)
