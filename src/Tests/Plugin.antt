-- ===== src/Tests/Plugin.antt =====
-- cache/cache.go on a concrete recording.
use rainbowsquirrel.Base.{
  ℕ, ◌^◌, ◌≡◌, refl, arith, true, false, List, [], ◌∷◌, none, some, Bytes, codes, pos,
}
use rainbowsquirrel.Core.Errors.{op_get, no_rows}
use rainbowsquirrel.Cache.Options.{with_ttl, cache_opts, apply_options, apply_option}
use rainbowsquirrel.Cache.Codec.Types.{RowData, bool, ok}
use rainbowsquirrel.Cache.Codec.Varint.{put_uvarint, put_uvarint_loop}
use rainbowsquirrel.Cache.Codec.Write.{
  encode, write_rows, write_cells, write_cell, write_columns, write_block, write_uvarint,
}
use rainbowsquirrel.Cache.Codec.RoundTrip.{Storable, replay}
use rainbowsquirrel.Cache.Store.{new_memory_store, expiry, is_expired}
use rainbowsquirrel.Cache.Store.Sync.{new_memory_store-IsSync}
use rainbowsquirrel.Cache.Plugin.{
  Cache, ExecInfo, Recorder, hit, in_flight, compute_key, new_recorder, is_served, is_read, before,
  after,
}
use rainbowsquirrel.Cache.Plugin.Hits.{after-flight, before-after}

-- Arguments are numbers, marshalled as they are; the digest is the text itself.
abbrev pub marshal : List ℕ → Bytes
marshal args = args

abbrev pub digest : Bytes → Bytes
digest text = text

abbrev pub info : ExecInfo ℕ
info = record {
  op = op_get;
  bind_sql = codes "q";
  bind_args = 7 ∷ [];
  options = with_ttl (pos 5) ∷ [];
  in_tx = false;
  err = none;
}

abbrev pub cache : Cache
cache = record {
  cfg = record {
    default_ttl = pos 0;
    invalidate_on_write = false;
    singleflight = true;
    key_prefix = codes "p:";
  };
  store = new_memory_store (pos 10) (pos 0);
  flight = [];
}

abbrev pub recorder : Recorder
recorder = record {
  key = 0 ∷ 0 ∷ b'q' ∷ 0 ∷ 7 ∷ [];
  ttl = pos 5;
  cols = codes "ok" ∷ [];
  rows = (bool true ∷ []) ∷ [];
}

abbrev pub recorded : RowData
recorded = record { columns = codes "ok" ∷ []; rows = (bool true ∷ []) ∷ [] }

abbrev pub written : Bytes
written = 0x52 ∷ 0x53 ∷ 1 ∷ 1 ∷ 2 ∷ b'o' ∷ b'k' ∷ 1 ∷ 3 ∷ 1 ∷ []

pub encode-recorded : encode recorded ≡ ok written
unfolding encode write_rows write_cells write_cell write_uvarint put_uvarint put_uvarint_loop
    write_columns write_block
encode-recorded = refl

abbrev pub storable : Storable (2 ^ 47) recorded
storable = record {
  cells = ((tt, tt), tt);
  room = omega arith;
  columns_fit = omega arith;
  rows_fit = omega arith;
}

before-after_example :
    (before marshal digest
      (2 ^ 47)
      104
      info
      (after marshal digest 100 (some recorder) info cache)).0
    ≡ hit (replay recorded)
unfolding is_expired expiry is_read is_served cache_opts apply_options apply_option new_recorder
    compute_key new_memory_store
before-after_example =
    before-after marshal digest (2 ^ 47) 100 104 recorder info info cache written
      (new_memory_store-IsSync (pos 10) (pos 0)) storable encode-recorded (omega arith) refl refl
      refl refl refl refl

after-flight_example :
    (in_flight recorder.key (after marshal digest 100 (some recorder) info cache).flight ≡ false)
    × ((after marshal digest 100 (some recorder) (record info { err = some no_rows }) cache).store
        ≡ cache.store)
unfolding is_read
after-flight_example = after-flight marshal digest 100 recorder info cache no_rows refl refl
