-- ===== src/Core/Config.antt =====
-- config.go: the plugin chain and its lock-out after the first execution; call options.
use rainbowsquirrel.Base.{
  subst, ◌≡◌, refl, ◌∙◌, sym, arith, Bool, true, false, List, [], ◌∷◌, ◌++◌, append_assoc,
  append-nil, Option, none, some, if◌then◌else◌, All, Bool-cases, inl, inr,
}
use rainbowsquirrel.Core.Errors.{GoError, plugin_registered_too_late}

-- The two fields of config that change after New; the mutex makes each method one step.
pub record Config {ℓ} (P : Type ℓ) : Type ℓ where
  pub plugins : List P
  pub executed : Bool

pub data ConfigCall {ℓ} (P : Type ℓ) : Type ℓ where
  use_call : List P → ConfigCall P
  begin_call : ConfigCall P

module _ {ℓ} {P : Type ℓ} where
  unfoldable pub add_plugins : List P → Config P → Option GoError × Config P
  add_plugins ps c =
      if c.executed
      then (some plugin_registered_too_late, c)
      else (none, record c { plugins = c.plugins ++ ps })

  -- The snapshot of the chain, and the configuration marked as executed.
  unfoldable pub begin : Config P → List P × Config P
  begin c = (c.plugins, record c { executed = true })

  -- Calls of Use and of the operations in the order in which they take the lock, with the
  -- snapshots that the operations got.
  unfoldable pub run : List (ConfigCall P) → Config P → List (List P) × Config P
  run [] c = ([], c)
  run (use_call ps ∷ calls) c = run calls (add_plugins ps c).1
  run (begin_call ∷ calls) c =
      let (seen, c') = begin c in let (rest, c'') = run calls c' in (seen ∷ rest, c'')

  late_same : (ps : List P) (c : Config P) → c.executed ≡ true → (add_plugins ps c).1 ≡ c
  unfolding add_plugins
  late_same ps c h = ground arith

  early_grows :
      (ps : List P) (c : Config P)
      → c.executed ≡ false
      → (add_plugins ps c).1 ≡ record c { plugins = c.plugins ++ ps }
  unfolding add_plugins
  early_grows ps c h = ground arith

  frozen :
      (calls : List (ConfigCall P)) (c : Config P)
      → c.executed ≡ true
      → All (λ seen. seen ≡ c.plugins) (run calls c).0 × ((run calls c).1 ≡ c)
  unfolding run add_plugins begin
  frozen [] c h = (tt, refl)
  frozen (use_call ps ∷ calls) c h =
      subst (λ d. All (λ seen. seen ≡ c.plugins) (run calls d).0 × ((run calls d).1 ≡ c))
        (sym (late_same ps c h)) (frozen calls c h)
  frozen (begin_call ∷ calls) c h =
      let c' = record c { executed = true } in
      let same : c' ≡ c = λ i. record { plugins = c.plugins; executed = sym h i } in
      let (seen, last) = frozen calls c' refl in ((refl, seen), last ∙ same)

  -- All executions of a DB see one plugin chain, whatever calls of Use come between them: it
  -- begins with the plugins that were there before, and no later Use changes it.
  pub run_one_chain :
      (calls : List (ConfigCall P)) (c : Config P)
      → (more : List P) × All (λ seen. seen ≡ c.plugins ++ more) (run calls c).0
  unfolding run add_plugins begin
  run_one_chain [] c = ([], tt)
  run_one_chain (use_call ps ∷ calls) c = elim (Bool-cases c.executed) [
    | inl late ↦
        let (more, seen) = run_one_chain calls c in
        (
          more,
          subst (λ d. All (λ seen. seen ≡ c.plugins ++ more) (run calls d).0)
              (sym (late_same ps c late)) seen,
        )
    | inr early ↦
        let grown = record c { plugins = c.plugins ++ ps } in
        let (more, seen) = run_one_chain calls grown in
        (
          ps ++ more,
          subst (λ d. All (λ seen. seen ≡ c.plugins ++ (ps ++ more)) (run calls d).0)
              (sym (early_grows ps c early))
              (subst (λ chain. All (λ seen. seen ≡ chain) (run calls grown).0)
                (append_assoc c.plugins ps more) seen),
        )
  ]
  run_one_chain (begin_call ∷ calls) c =
      let (seen, last) = frozen calls (record c { executed = true }) refl in
      (
        [],
        (
          sym (append-nil c.plugins),
          subst (λ chain. All (λ seen. seen ≡ chain) (run calls (record c { executed = true })).0)
              (sym (append-nil c.plugins)) seen,
        ),
      )

  -- After an execution Use is refused and the configuration stays as it is.
  pub add_plugins_late :
      (ps : List P) (calls : List (ConfigCall P)) (c : Config P)
      → add_plugins ps (run (begin_call ∷ calls) c).1
        ≡ (some plugin_registered_too_late, (run (begin_call ∷ calls) c).1)
  unfolding run add_plugins begin
  add_plugins_late ps calls c =
      let c' = record c { executed = true } in
      let (seen, last) = frozen calls c' refl in rw last refl
