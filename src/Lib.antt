-- ===== src/Lib.antt =====
-- Verification of rainbowsquirrel, a Go library over database/sql with named parameters, a chain
-- of plugins and a result cache.
--
-- The parts and the files that model them:
--
-- Base and its children hold what the others share: Boolean tests on numbers, lists and slices,
--   byte strings, and int64 and uint64 with their wrap-around.
-- Bind is bind.go. Bind/Parser has parsePlaceholders, which finds `:name` and `?` outside quotes
--   and comments, with a function for each inner loop; Bind/Rebind has Rebind and
--   replaceNamedInFragment. Bind/Lexer is an independent description, a machine that reads the
--   query once; Bind/Passes and Bind/Rewrite relate the two, Bind/Placed describes what the parser
--   finds and Bind/Rounds how long it takes. Bind/Arguments has what bindNamed asks of a value and
--   what it makes of one (derefValue, lookupNamedValue, normalizeBindValue, expandSlice,
--   convertTimes), Bind/Named is bindNamed, and Bind/Many bindNamedMany and bindForExec;
--   Bind/Stands and Bind/Groups are about the text and the arguments of the one, Bind/Parens,
--   Bind/Single, Bind/Rows and Bind/Repeats of the other. Bind/Spans, Bind/Marks, Bind/Reading and Bind/Counted read the bound
--   text again;
--   Bind/Lookups, Bind/Safe and Meta/Safe are about panics.
-- Meta is meta.go, over a model of what package reflect shows: Meta/Types has types and Meta/Values
--   values, Meta/Tags is parseTag, Meta/Collect is collectFields and buildTypeInfo, Meta/Lookup is
--   lookupBind, lookupScan and fieldByIndex. Meta/Typing says when a value is of a type; Meta/Paths
--   and Meta/Names are about the fields collected.
-- Convert is convert.go: Convert/Cells has the driver's cells, Convert/Numbers is convertToInt and
--   its siblings, Convert/Assign is convertAssign. Convert/Exact is about numbers and their bounds,
--   Convert/Targets, Convert/Sets and Convert/Typed about types.
-- Cache/Codec is cache/codec.go. Cache/Codec/Types has the cells and a result with Go's three ways
--   to end: a value, an error, a panic. Cache/Codec/Varint is what encoding/binary does,
--   Cache/Codec/Write is Encode and Cache/Codec/Read is Decode with its reader.
-- Cache/Store is cache/store.go, MemoryStore. The map and the list of container/list are separate,
--   and an element has an identity, so that the two can disagree; Cache/Store/Sync says when they
--   do not. Cache/Store/Spec is the description that it is compared with, one list of entries.
-- Cache/Options has the cache's call options and Cache/Plugin its hooks Before and After
--   (cache/cache.go) with the flights of cache/flight.go and the recorder of cache/source.go. A
--   goroutine that waits for another's flight is an outcome of Before, and what it does when it
--   wakes a function of its own.
--   Cache/Plugin/Waiters has goroutines that wake one after the other. Cache/Invalidate is New and the
--   invalidation methods, Cache/Source the two row sources of cache/source.go; below them stand the
--   comparison of CacheKey with Before and the replay of what was recorded.
-- Cache/Redis is cache/redis/redis.go over a client that is a parameter; Cache/Redis/Rounds and
--   Cache/Redis/Iteration are about scanDel.
-- Scan is scan.go: Scan/Source is the interface RowSource with scanRawRow, Scan/ValueRows is
--   valueRows, Scan/Target what is done to one field or map, Scan/Row a row into a target of each
--   kind, and Scan/All scanOne, scanSlice, scanRows and Scan. Scan/Values describes what a row of
--   cells gives apart from its source, and Scan/Loop takes the loop over the rows apart; Scan/Replay,
--   Scan/Places, Scan/Typed, Scan/Columns, Scan/Keys, Scan/Behind and Scan/Rounds use them.
-- Log has the two logging plugins: Log/Records what both read and write, Log/Slog is log/log.go and
--   Log/Rainbowlog is log/rainbowlog/rainbowlog.go; Log/Compact and Log/Quiet are about them.
-- Core/Errors is errors.go with the operations of plugin.go; Core/Config is the part of config.go
--   that changes after New, the plugin chain, and Core/Settings the rest with snakeCase; Core/Tx is
--   Tx of core.go with savepoints; Core/Flow is the execution flow of core.go (execOp, queryOp,
--   getOp, selectOp, runBefore, runAfter) with Plugin, ExecInfo and Rows of plugin.go.
-- Tests holds runs on concrete inputs.
--
-- How the parts interact: an operation of Core/Flow takes the plugin chain from Core/Config, binds,
-- runs the Before hooks, asks the driver, scans and closes, and runs the After hooks; Core/Errors
-- wraps its error. Tx guards the same operations. The cache is one of the plugins: it keeps what
-- the codec writes in a store.
--
-- Conventions. A state is a record and a method a function from it to a result and the state after
-- it. The time of a call is an argument, and a method under a mutex is one step. Decimal printing
-- runs on fuel, one more than the number, which is enough since each digit divides by ten. The
-- parser's loops run over the rest of the text or over as much fuel as the text has bytes, since
-- each turn reads at least one. The runtime's largest allocation is a parameter of Decode. What
-- the database, the hooks, the binder and the scanner do is a parameter of Core/Flow and Core/Tx;
-- theorems about the order of calls assume that each call leaves its mark in the state and nothing
-- else about it.
--
-- Values are trees: there is no aliasing, a type is finite, and a float is its bit pattern. The
-- types int and uint are types defined by int64 and uint64. Names of fields, columns and tags are
-- ASCII. The errors of Bind, Meta and Convert are the sentinels, without the text around them.
--
-- The loop over the rows of a source runs on fuel, one more than there are rows, and the loop of
-- scanDel on one more than there are pages to come. What a row source
-- does is a parameter where it is not one of the repository's own.
--
-- Not modelled: the cache of getTypeInfo and the unsafe addressing of fieldValue (meta.go), where a
-- field at an offset is the one on its path; the registry's lock (convert.go); what a target holds
-- after a scan that failed; the test of the driver's package, which is reflection;
-- and the clock of ExecInfo. SHA-256, JSON, time zones, floats, package strconv, package unicode and
-- the loggers are parameters.
pub mod Base
pub mod Bind
pub mod Meta
pub mod Convert
pub mod Scan
pub mod Cache
pub mod Core
pub mod Log
pub mod Tests
