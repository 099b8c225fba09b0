-- ===== src/Core/Flow/Trace.antt =====
-- core.go: which hooks and driver calls an operation makes, and in which order.
use rainbowsquirrel.Base.{
  ◌≡◌, refl, ap, ◌∙◌, arith, List, [], ◌∷◌, ◌++◌, none, some, Bytes, All, Option-cases, inl, inr,
}
use rainbowsquirrel.Core.Errors.{GoError}
use rainbowsquirrel.Core.Flow.{
  Types, ExecInfo, Plugin, Calls, run_before, report, after_one, after_loop, run_after,
}

-- What can be seen of a run, by the names of the plugins.
pub data Event : Type 0 where
  before_of after_of : Bytes → Event
  driver_call scan_call close_call : Event

module _ {t : Types} where
  -- Every Before hook returns nil, each given what the one in front of it has left.
  abbrev pub Passed : List (Plugin t) → t.Ctx → ExecInfo t → t.S → Type 0
  Passed [] ctx info s = Unit
  Passed (p ∷ plugins) ctx info s =
      let (err, ctx', info', s') = p.before ctx info s in
      (err ≡ none) × Passed plugins ctx' info' s'

  -- The last of the Before hooks returns an error, and those in front of it return nil.
  abbrev pub Stopped : List (Plugin t) → t.Ctx → ExecInfo t → t.S → Type 0
  Stopped [] ctx info s = ⊥
  Stopped (p ∷ []) ctx info s = (e : GoError) × ((p.before ctx info s).0 ≡ some e)
  Stopped (p ∷ q ∷ plugins) ctx info s =
      let (err, ctx', info', s') = p.before ctx info s in
      (err ≡ none) × Stopped (q ∷ plugins) ctx' info' s'

cons-Stopped :
    {t : Types} (p : Plugin t) (began : List (Plugin t)) (ctx : t.Ctx) (info : ExecInfo t) (s : t.S)
    → (p.before ctx info s).0 ≡ none
    → (let (_, ctx', info', s') = p.before ctx info s in Stopped began ctx' info' s')
    → Stopped (p ∷ began) ctx info s
cons-Stopped p [] ctx info s h k = absurd k
cons-Stopped p (q ∷ began) ctx info s h k = (h, k)

-- The marks of the After hooks of a chain, the last plugin's first; of the Before hooks, in order.
module _ {t : Types} where
  unfoldable pub afters : List (Plugin t) → List Event → List Event
  afters [] l = l
  afters (p ∷ plugins) l = after_of p.name ∷ afters plugins l

  unfoldable pub befores : List (Plugin t) → List Event → List Event
  befores [] l = l
  befores (p ∷ plugins) l = befores plugins (before_of p.name ∷ l)

module _ (t : Types) (calls : Calls t) where
  -- A record that the state keeps of the calls, the latest first. The laws say that each call
  -- puts its own mark in it, and the handler none.
  pub record Marks : Type 0 where
    pub log : t.S → List Event
    pub log-exec :
        (ctx : t.Ctx) (sql : Bytes) (args : List t.Any) (s : t.S)
        → log (calls.exec_context ctx sql args s).2 ≡ driver_call ∷ log s
    pub log-query :
        (ctx : t.Ctx) (sql : Bytes) (args : List t.Any) (s : t.S)
        → log (calls.query_context ctx sql args s).2 ≡ driver_call ∷ log s
    pub log-close : (rows : t.RowSource) (s : t.S) → log (calls.close rows s).1 ≡ close_call ∷ log s
    pub log-report : (name : Bytes) (e : GoError) (s : t.S) → log (report t calls name e s) ≡ log s

  module _ (m : Marks) where
    -- The hooks of a plugin leave their marks.
    abbrev pub Marked : Plugin t → Type 0
    Marked p =
        ((ctx : t.Ctx) (info : ExecInfo t) (s : t.S)
          → m.log (p.before ctx info s).3 ≡ before_of p.name ∷ m.log s)
        × ((ctx : t.Ctx) (info : ExecInfo t) (s : t.S)
            → m.log (p.after ctx info s).2 ≡ after_of p.name ∷ m.log s)

    after_one-log :
        (p : Plugin t) (ctx : t.Ctx) (info : ExecInfo t) (s : t.S)
        → Marked p
        → m.log (after_one t calls p ctx info s).1 ≡ after_of p.name ∷ m.log s
    unfolding after_one
    after_one-log p ctx info s (_, marks) = grind (arith, marks ctx info s, m.log-report)

    -- Every plugin's After hook runs once, the last plugin's first, whatever the hooks before it
    -- return and even if they panic.
    pub run_after-log :
        (plugins : List (Plugin t)) (ctx : t.Ctx) (info : ExecInfo t) (s : t.S)
        → All Marked plugins
        → m.log (run_after t calls plugins ctx info s) ≡ afters plugins (m.log s)
    unfolding run_after after_loop afters
    run_after-log [] ctx info s marks = refl
    run_after-log (p ∷ plugins) ctx info s (mark, marks) =
        let (info', s') = after_loop t calls plugins ctx info s in
        after_one-log p ctx info' s' mark
        ∙ ap (◌∷◌ (after_of p.name)) (run_after-log plugins ctx info s marks)

    -- The Before hooks run in order up to the first that returns an error, and all of them if
    -- none does.
    pub run_before-log :
        (plugins : List (Plugin t)) (ctx : t.Ctx) (info : ExecInfo t) (s : t.S)
        → All Marked plugins
        → (began : List (Plugin t)) × (others : List (Plugin t)) × (plugins ≡ began ++ others)
          × (m.log (run_before t plugins ctx info s).3 ≡ befores began (m.log s))
          × ((run_before t plugins ctx info s).0 ≡ none
              → (began ≡ plugins) × Passed plugins ctx info s)
          × ((e : GoError)
              → (run_before t plugins ctx info s).0 ≡ some e
              → Stopped began ctx info s)
    unfolding run_before befores
    run_before-log [] ctx info s marks =
        ([], [], refl, refl, (λ _. (refl, tt)), λ e h. absurd (ground arith))
    run_before-log (p ∷ plugins) ctx info s ((mark, _), marks) =
        let (err, ctx', info', s') = p.before ctx info s in
        elim (Option-cases err) [
          | inr (e, h) ↦ (
            p ∷ [],
            plugins,
            refl,
            ground (arith, mark ctx info s),
            (λ ok. absurd (ground arith)),
            λ _ _. (e, h),
          )
          | inl h ↦
              let (began, others, split, log, all, stop) =
                run_before-log plugins ctx' info' s' marks in
              (
                p ∷ began,
                others,
                ap (◌∷◌ p) split,
                ground (arith, log, mark ctx info s),
                (λ ok. let (same, passed) = all (ground arith) in (ap (◌∷◌ p) same, (h, passed))),
                λ e failed. cons-Stopped p began ctx info s h (stop e (ground arith)),
              )
        ]
