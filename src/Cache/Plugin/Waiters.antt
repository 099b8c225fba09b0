-- ===== src/Cache/Plugin/Waiters.antt =====
-- cache/cache.go and cache/flight.go: the goroutines that wait for one key, one after the other.
use rainbowsquirrel.Base.{
  ℕ, ◌≡◌, ◌≢◌, refl, ap, subst, arith, true, false, List, [], ◌∷◌, some, Bytes, All,
}
use rainbowsquirrel.Core.Errors.{no_rows}
use rainbowsquirrel.Cache.Codec.Types.{RowData}
use rainbowsquirrel.Cache.Plugin.{
  Cache, ExecInfo, Recorder, BeforeResult, skipped, hit, recording, waiting, crashed, in_flight,
  acquire, is_read, try_hit, lookup_as_leader, attempt, awake, after,
}
use rainbowsquirrel.Cache.Plugin.Hits.{in_flight-done, after-flight}

-- What is asked of the hooks: whether Before's answer leaves the goroutine waiting, or lost.
abbrev pub IsServed : BeforeResult → Type 0
IsServed (hit rd) = Unit
IsServed (recording rec) = Unit
IsServed skipped = Unit
IsServed (waiting rec) = ⊥
IsServed crashed = ⊥

abbrev pub NotCrashed : BeforeResult → Type 0
NotCrashed crashed = ⊥
NotCrashed _ = Unit

module _ {Any : Type 0} (marshal : List Any → Bytes) (hex_digest : Bytes → Bytes) (limit : ℕ) where
  -- The cache after a goroutine's whole operation: one that records runs the After hook.
  unfoldable pub finish_turn : ℕ → ExecInfo Any → BeforeResult × Cache → Cache
  finish_turn now info (recording rec, c) = after marshal hex_digest now (some rec) info c
  finish_turn now info (skipped, c) = c
  finish_turn now info (hit rd, c) = c
  finish_turn now info (waiting rec, c) = c
  finish_turn now info (crashed, c) = c

  -- The waiting goroutines wake one after the other, each with its time and its operation.
  unfoldable pub wake_all : Recorder → List (ℕ × ExecInfo Any) → Cache → List BeforeResult
  wake_all rec [] c = []
  wake_all rec ((now, info) ∷ rest) c =
      let turn = awake marshal hex_digest limit now rec c in
      turn.0 ∷ wake_all rec rest (finish_turn now info turn)

  after-ends :
      (now : ℕ) (rec : Recorder) (info : ExecInfo Any) (c : Cache)
      → info.in_tx ≡ false
      → is_read info.op ≡ true
      → in_flight rec.key (after marshal hex_digest now (some rec) info c).flight ≡ false
  after-ends now rec info c outside read =
      (after-flight marshal hex_digest now rec info c no_rows outside read).0

  awake-ne-waiting :
      (now : ℕ) (rec : Recorder) (c : Cache) (rec' : Recorder)
      → in_flight rec.key c.flight ≡ false
      → (awake marshal hex_digest limit now rec c).0 ≢ waiting rec'
  unfolding awake attempt lookup_as_leader acquire try_hit
  awake-ne-waiting now rec c rec' free = ground arith

  awake-recording :
      (now : ℕ) (rec : Recorder) (c : Cache) (rec' : Recorder)
      → (awake marshal hex_digest limit now rec c).0 ≡ recording rec'
      → rec' ≡ rec
  unfolding awake attempt lookup_as_leader acquire try_hit
  awake-recording now rec c rec' e = ground arith

  awake-hit :
      (now : ℕ) (rec : Recorder) (c : Cache) (rd : RowData)
      → in_flight rec.key c.flight ≡ false
      → (awake marshal hex_digest limit now rec c).0 ≡ hit rd
      → in_flight rec.key (awake marshal hex_digest limit now rec c).1.flight ≡ false
  unfolding awake attempt lookup_as_leader acquire try_hit
  awake-hit now rec c rd free e = ground (arith, in_flight-done rec.key (rec.key ∷ c.flight))

  awake-ne-skipped :
      (now : ℕ) (rec : Recorder) (c : Cache)
      → (awake marshal hex_digest limit now rec c).0 ≢ skipped
  unfolding awake attempt lookup_as_leader acquire try_hit
  awake-ne-skipped now rec c = ground arith

  -- A turn that did not crash was served, and leaves the key free.
  abbrev TurnServes : Recorder → ℕ → ExecInfo Any → BeforeResult × Cache → Type 0
  TurnServes rec now info turn =
      IsServed turn.0 × (in_flight rec.key (finish_turn now info turn).flight ≡ false)

  turn-TurnServes :
      (rec : Recorder) (now : ℕ) (info : ExecInfo Any) (c : Cache) (turn : BeforeResult × Cache)
      → awake marshal hex_digest limit now rec c ≡ turn
      → in_flight rec.key c.flight ≡ false
      → info.in_tx ≡ false
      → is_read info.op ≡ true
      → NotCrashed turn.0
      → TurnServes rec now info turn
  unfolding finish_turn
  turn-TurnServes rec now info c (hit rd, c') e free outside read kept = (
    tt,
    rw (← (ap (λ (t : BeforeResult × Cache). t.1.flight) e))
        (awake-hit now rec c rd free (ap (λ (t : BeforeResult × Cache). t.0) e)),
  )
  turn-TurnServes rec now info c (recording rec', c') e free outside read kept =
      let same = awake-recording now rec c rec' (ap (λ (t : BeforeResult × Cache). t.0) e) in
      (
        tt,
        subst
            (λ (r : Recorder).
              in_flight r.key (after marshal hex_digest now (some rec') info c').flight ≡ false)
            same (after-ends now rec' info c' outside read),
      )
  turn-TurnServes rec now info c (waiting rec', c') e free outside read kept =
      absurd (awake-ne-waiting now rec c rec' free (ap (λ (t : BeforeResult × Cache). t.0) e))
  turn-TurnServes rec now info c (skipped, c') e free outside read kept =
      absurd (awake-ne-skipped now rec c (ap (λ (t : BeforeResult × Cache). t.0) e))
  turn-TurnServes rec now info c (crashed, c') e free outside read kept = absurd kept

  -- Goroutines that wait for a key and wake one after the other when its flight is over, each
  -- finishing its Get or Select outside a transaction before the next one wakes, are all served,
  -- by a hit or as the one that fills the key, unless decoding panics: none of them waits again.
  pub wake_all-IsServed :
      (rec : Recorder) (turns : List (ℕ × ExecInfo Any)) (c : Cache)
      → in_flight rec.key c.flight ≡ false
      → All (λ (turn : ℕ × ExecInfo Any). (turn.1.in_tx ≡ false) × (is_read turn.1.op ≡ true)) turns
      → All NotCrashed (wake_all rec turns c)
      → All IsServed (wake_all rec turns c)
  unfolding wake_all
  wake_all-IsServed rec [] c free reads kept = tt
  wake_all-IsServed rec ((now, info) ∷ rest) c free reads kept =
      let turn = awake marshal hex_digest limit now rec c in
      let (outside, read) = reads.0 in
      let (served, next) = turn-TurnServes rec now info c turn refl free outside read kept.0 in
      (served, wake_all-IsServed rec rest (finish_turn now info turn) next reads.1 kept.1)
