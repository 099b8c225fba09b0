-- ===== src/Cache/Plugin.antt =====
-- cache/cache.go: Cache with its hooks Before and After over a MemoryStore; cache/flight.go: which
-- keys are being filled; cache/source.go: the recorder. A goroutine that is not the leader of its
-- key waits: Before ends in `waiting`, and `awake` is what it does when the flight is over.
pub mod Hits
pub mod Waiters
use rainbowsquirrel.Base.{
  ℕ, zero, suc, Bool, true, false, List, [], ◌∷◌, ◌++◌, Option, none, some, Bytes, codes, ℤ, pos,
  negsuc, equal, if◌then◌else◌,
}
use rainbowsquirrel.Bind.Parser.{is_empty}
use rainbowsquirrel.Core.Errors.{Op, op_exec, op_query, op_get, op_select, GoError}
use rainbowsquirrel.Cache.Options.{CallOption, CallOpts, cache_opts}
use rainbowsquirrel.Cache.Codec.Types.{RowData, Cell, Result, ok, fail, panic}
use rainbowsquirrel.Cache.Codec.Write.{encode}
use rainbowsquirrel.Cache.Codec.Read.{decode}
use rainbowsquirrel.Cache.Store.{MemoryStore, get, set, delete, delete_prefix, flush}

-- cacheConfig, with the default codec.
pub record CacheConfig : Type 0 where
  pub default_ttl : ℤ
  pub invalidate_on_write : Bool
  pub singleflight : Bool
  pub key_prefix : Bytes

-- `flight` holds the keys of the flights that are not over.
pub record Cache : Type 0 where
  pub cfg : CacheConfig
  pub store : MemoryStore
  pub flight : List Bytes

-- What the hooks read of ExecInfo.
pub record ExecInfo (Any : Type 0) : Type 0 where
  pub op : Op
  pub bind_sql : Bytes
  pub bind_args : List Any
  pub options : List CallOption
  pub in_tx : Bool
  pub err : Option GoError

pub record Recorder : Type 0 where
  pub key : Bytes
  pub ttl : ℤ
  pub cols : List Bytes
  pub rows : List (List Cell)

unfoldable pub record_row : List Cell → List (List Cell) → List (List Cell)
record_row values rows = rows ++ (values ∷ [])

unfoldable pub in_flight : Bytes → List Bytes → Bool
in_flight key [] = false
in_flight key (k ∷ keys) = let rest = in_flight key keys in if equal k key then true else rest

unfoldable pub remove_flight : Bytes → List Bytes → List Bytes
remove_flight key [] = []
remove_flight key (k ∷ keys) =
    let rest = remove_flight key keys in if equal k key then rest else k ∷ rest

-- flight.acquire: whether the caller leads, and the flights after it.
unfoldable pub acquire : Bytes → List Bytes → Bool × List Bytes
acquire key keys = if in_flight key keys then (false, keys) else (true, key ∷ keys)

-- flight.done
unfoldable pub done : Bytes → List Bytes → List Bytes
done key keys = if in_flight key keys then remove_flight key keys else keys

pub data BeforeResult : Type 0 where
  skipped : BeforeResult
  hit : RowData → BeforeResult
  -- The context carries a recorder and the wrapper around the rows.
  recording : Recorder → BeforeResult
  waiting : Recorder → BeforeResult
  -- The codec panicked.
  crashed : BeforeResult

unfoldable pub is_read : Op → Bool
is_read op_get = true
is_read op_select = true
is_read _ = false

unfoldable pub is_positive : ℤ → Bool
is_positive (pos zero) = false
is_positive (pos (suc n)) = true
is_positive (negsuc n) = false

unfoldable pub store_key : Cache → Bytes → Bytes
store_key c key = c.cfg.key_prefix ++ key

-- tryHit: the rows of a hit, if the entry is there and can be decoded; `none` inside is a panic.
unfoldable pub try_hit : ℕ → ℕ → Bytes → Cache → Option (Option RowData) × Cache
try_hit limit now key c =
    let (found, store) = get now (store_key c key) c.store in
    let c' = record c { store = store } in
    elim found [
      | none ↦ (none, c')
      | some stored ↦ elim (decode limit stored) [
        | ok rd ↦ (some (some rd), c')
        | fail e ↦ (none, c')
        | panic ↦ (some none, c')
      ]
    ]

-- The end of After: what was recorded is encoded and stored, if it can be.
unfoldable pub save : ℕ → Recorder → Cache → Cache
save now rec c = elim (encode (record { columns = rec.cols; rows = rec.rows })) [
  | ok written ↦ record c { store = set now (store_key c rec.key) written rec.ttl c.store }
  | fail e ↦ c
  | panic ↦ c
]

module _ {Any : Type 0} (marshal : List Any → Bytes) (hex_digest : Bytes → Bytes) where
  -- `marshal` is json.Marshal and `hex_digest` the SHA-256 in hexadecimal digits.
  unfoldable pub compute_key : Bytes → Bytes → List Any → Bytes
  compute_key namespace bind_sql bind_args =
      namespace ++ (0 ∷ hex_digest (namespace ++ (0 ∷ (bind_sql ++ (0 ∷ marshal bind_args)))))

  -- The recorder that Before makes: the key, and the time to live that is the call's or the
  -- default.
  unfoldable pub new_recorder : Cache → ExecInfo Any → Recorder
  new_recorder c info =
      let o = cache_opts info.options in
      record {
        key = compute_key o.namespace info.bind_sql info.bind_args;
        ttl = if is_positive o.ttl then o.ttl else c.cfg.default_ttl;
        cols = [];
        rows = [];
      }

  -- Whether Before goes past its early returns.
  unfoldable pub is_served : ExecInfo Any → Bool
  is_served info =
      if info.in_tx
      then false
      else if is_read info.op
      then (if (cache_opts info.options).no_cache then false else true)
      else false

  unfoldable pub lookup_as_leader : ℕ → ℕ → Recorder → Cache → BeforeResult × Cache
  lookup_as_leader limit now rec c =
      let (found, c') = try_hit limit now rec.key c in
      elim found [
        | none ↦ (recording rec, c')
        | some rows ↦ elim rows [
          | none ↦ (crashed, c')
          | some rd ↦ (
            hit rd,
            if c.cfg.singleflight then record c' { flight = done rec.key c'.flight } else c',
          )
        ]
      ]

  -- One turn of the loop: compete for the key, or look it up without singleflight.
  unfoldable pub attempt : ℕ → ℕ → Recorder → Cache → BeforeResult × Cache
  attempt limit now rec c =
      let (leader, keys) = acquire rec.key c.flight in
      if c.cfg.singleflight
      then (if leader
          then lookup_as_leader limit now rec (record c { flight = keys })
          else (waiting rec, c))
      else lookup_as_leader limit now rec c

  unfoldable pub before : ℕ → ℕ → ExecInfo Any → Cache → BeforeResult × Cache
  before limit now info c =
      if is_served info then attempt limit now (new_recorder c info) c else (skipped, c)

  -- Behind `wait()`: a hit, or the next turn of the loop.
  unfoldable pub awake : ℕ → ℕ → Recorder → Cache → BeforeResult × Cache
  awake limit now rec c =
      let (found, c') = try_hit limit now rec.key c in
      elim found [
        | none ↦ attempt limit now rec c'
        | some rows ↦ elim rows [ none ↦ (crashed, c') | some rd ↦ (hit rd, c') ]
      ]

  -- After an Exec: the invalidation that the configuration or the call asks for.
  unfoldable pub invalidate : ExecInfo Any → Cache → Cache
  invalidate info c =
      let ns = (cache_opts info.options).invalidate in
      if c.cfg.invalidate_on_write
      then record c { store = flush c.store }
      else if is_empty ns
      then c
      else record c { store = delete_prefix (c.cfg.key_prefix ++ (ns ++ (0 ∷ []))) c.store }

  -- The flight ends whatever comes before it.
  unfoldable pub after_read : ℕ → Option Recorder → ExecInfo Any → Cache → Cache
  after_read now rec info c = if info.in_tx then c else elim rec [
    | none ↦ c
    | some r ↦
        let saved : Cache = elim info.err [ some e ↦ c | none ↦ save now r c ] in
        record saved { flight = done r.key saved.flight }
  ]

  -- `rec` is the recorder in the context, if Before put one there.
  unfoldable pub after : ℕ → Option Recorder → ExecInfo Any → Cache → Cache
  after now rec info c = elim info.op [
    | op_exec ↦ invalidate info c
    | op_query ↦ c
    | op_get ↦ after_read now rec info c
    | op_select ↦ after_read now rec info c
  ]
