-- ===== src/Cache/Invalidate/Args.antt =====
-- bind.go: the arguments of bindNamed without slice expansion.
use rainbowsquirrel.Base.{
  ◌≡◌, refl, arith, Bool, true, false, not, ◌&&◌, List, [], ◌∷◌, Option, Bytes, ℤ, ℕ, if◌then◌else◌,
}
use rainbowsquirrel.Core.Outcome.{Outcome, ok, fail, panic, ◌>>=◌}
use rainbowsquirrel.Core.Settings.{Settings}
use rainbowsquirrel.Meta.Values.{Value, is_zero_any}
use rainbowsquirrel.Meta.Collect.{TypeInfo}
use rainbowsquirrel.Bind.Parser.{Placeholder}
use rainbowsquirrel.Bind.Arguments.{
  kind, deref_value, is_row, is_scalar_value, is_direct_expand_slice, lookup_named_value,
  normalize_bind_value,
}
use rainbowsquirrel.Bind.Named.{
  Bound, row_info, named_args, bind_loop, bind_scalar, bind_derefed, bind_places, bind_named,
}

module _ {Location : Type 0} (offset_at : Location → ℤ → ℤ) (marshal : Value → Outcome Bytes)
    (cfg : Settings Location) (whole : cfg.slice_expansion ≡ false) where
  -- What a result is, if there is one.
  abbrev Always {ℓ} : {A : Type 0} → (A → Type ℓ) → Outcome A → Type ℓ
  Always P (ok a) = P a
  Always P (fail e) = Unit
  Always P panic = Unit

  then-Always :
      {A B : Type 0} (P : A → Type 0) (Q : B → Type 0) (r : Outcome A) (f : A → Outcome B)
      → Always P r
      → ((a : A) → P a → Always Q (f a))
      → Always Q (r >>= f)
  then-Always P Q (ok a) f p h = h a p
  then-Always P Q (fail e) f p h = tt
  then-Always P Q panic f p h = tt

  any-Always : {A : Type 0} (r : Outcome A) → Always (λ a. Unit {0}) r
  any-Always (ok a) = tt
  any-Always (fail e) = tt
  any-Always panic = tt

  if-Always :
      {A : Type 0} (P : A → Type 0) (b : Bool) (r s : Outcome A)
      → Always P r
      → Always P s
      → Always P (if b then r else s)
  if-Always P true r s h k = h
  if-Always P false r s h k = k

  IsSingle : List Value × Value → Type 0
  IsSingle one = one.0 ≡ one.1 ∷ []

  IsWhole : Bound → Type 0
  IsWhole b = b.args ≡ b.bind_args

  named_args-IsSingle :
      (v : Value) (ti : Option TypeInfo) (name : Bytes)
      → Always IsSingle (named_args offset_at marshal cfg v ti name)
  unfolding named_args IsSingle
  named_args-IsSingle v ti name =
      then-Always (λ _. Unit {0}) IsSingle (lookup_named_value v ti name) _ (any-Always _)
        (λ found _. if-Always IsSingle (found.2 && is_zero_any found.0) _ _ refl (
          rw whole (
            then-Always (λ _. Unit {0}) IsSingle
              (normalize_bind_value offset_at marshal found.0 found.1 cfg.time_location) _
              (any-Always _) (λ nv _. refl))))

  bind_loop-IsWhole :
      (query : Bytes) (v : Value) (ti : Option TypeInfo) (last : ℕ) (places : List Placeholder)
      → Always IsWhole (bind_loop offset_at marshal cfg query v ti last places)
  unfolding bind_loop IsWhole IsSingle
  bind_loop-IsWhole query v ti last [] = refl
  bind_loop-IsWhole query v ti last (p ∷ places) =
      then-Always IsSingle IsWhole (named_args offset_at marshal cfg v ti p.name) _
        (named_args-IsSingle v ti p.name)
        (λ one single.
          then-Always IsWhole IsWhole (bind_loop offset_at marshal cfg query v ti p.end places) _
            (bind_loop-IsWhole query v ti p.end places)
            (λ bound same. ground (arith, single, same)))

  bind_scalar-IsWhole :
      (query : Bytes) (v : Value) (places : List Placeholder)
      → Always IsWhole (bind_scalar offset_at marshal cfg query v places)
  unfolding bind_scalar IsWhole
  bind_scalar-IsWhole query v [] = tt
  bind_scalar-IsWhole query v (p ∷ []) =
      then-Always (λ _. Unit {0}) IsWhole
        (normalize_bind_value offset_at marshal v false cfg.time_location) _ (any-Always _)
        (λ nv _. refl)
  bind_scalar-IsWhole query v (p ∷ q ∷ places) = tt

  no_items :
      (b : Bool) (r s : Outcome Bound)
      → Always IsWhole s
      → Always IsWhole (if b && cfg.slice_expansion then r else s)
  no_items true r s h = rw whole h
  no_items false r s h = h

  bind_derefed-IsWhole :
      (query : Bytes) (v : Value) (places : List Placeholder)
      → Always IsWhole (bind_derefed offset_at marshal cfg query v places)
  unfolding bind_derefed
  bind_derefed-IsWhole query v places =
      if-Always IsWhole (is_scalar_value v) _ _ (bind_scalar-IsWhole query v places) (
        no_items (is_direct_expand_slice v) _ _ (
          if-Always IsWhole (not (is_row (kind v))) _ _ tt (
            then-Always (λ _. Unit {0}) IsWhole (row_info offset_at marshal cfg v) _ (any-Always _)
              (λ ti _. bind_loop-IsWhole query v ti 0 places))))

  bind_places-IsWhole :
      (query : Bytes) (arg : Value) (places : List Placeholder)
      → Always IsWhole (bind_places offset_at marshal cfg query arg places)
  unfolding bind_places IsWhole
  bind_places-IsWhole query arg [] = refl
  bind_places-IsWhole query arg (p ∷ places) =
      then-Always (λ _. Unit {0}) IsWhole (deref_value arg) _ (any-Always _)
        (λ v _. bind_derefed-IsWhole query v (p ∷ places))

  Always-ok : (r : Outcome Bound) (b : Bound) → Always IsWhole r → r ≡ ok b → b.args ≡ b.bind_args
  unfolding IsWhole
  Always-ok (ok c) b h e = ground arith
  Always-ok (fail x) b h e = cc
  Always-ok panic b h e = cc

  -- Without slice expansion the arguments are the ones before it.
  pub bind_named-IsWhole :
      (query : Bytes) (arg : Value) (b : Bound)
      → bind_named offset_at marshal cfg query arg ≡ ok b
      → b.args ≡ b.bind_args
  unfolding bind_named
  bind_named-IsWhole query arg b e = Always-ok _ b (bind_places-IsWhole query arg _) e
