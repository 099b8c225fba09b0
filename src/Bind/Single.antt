-- ===== src/Bind/Single.antt =====
-- bind.go: the group of bindNamedMany and where it lies in the query.
use rainbowsquirrel.Base.{
  ℕ, zero, suc, ◌≤◌, ◌≡◌, ◌≢◌, subst, sym, ◌∙◌, arith, true, Bool-cases, inl, inr, List, [], ◌∷◌,
  ◌++◌, append_assoc, append-nil, Bytes, slice, All, All-map,
}
use rainbowsquirrel.Bind.Parser.{Placeholder, is_named, named_places}
use rainbowsquirrel.Bind.Placed.{Placed, Placed-weaken}
use rainbowsquirrel.Bind.Many.{
  only_separators, group_loop, group_named_places, in_group, scan_left, group_start, group_end,
  last_end,
}

-- The placeholder lies in the query from `start` to `end`.
abbrev pub IsWithin : ℕ → ℕ → Placeholder → Type 0
IsWithin start end p = (start ≤ p.pos) × (p.end ≤ end)

group_loop_some :
    (query : Bytes) (cur : List Placeholder) (end : ℕ) (places : List Placeholder)
    → group_loop query cur end places ≢ []
unfolding group_loop
group_loop_some query cur end [] e = cc
group_loop_some query cur end (p ∷ places) e =
    elim (Bool-cases (only_separators (slice query end p.pos))) [
      | inl joined ↦ group_loop_some query (cur ++ (p ∷ [])) p.end places (ground arith)
      | inr apart ↦ ground arith
    ]

group_loop_one :
    (query : Bytes) (cur : List Placeholder) (end : ℕ) (places group : List Placeholder)
    → group_loop query cur end places ≡ group ∷ []
    → group ≡ cur ++ places
unfolding group_loop
group_loop_one query cur end [] group e =
    let same : cur ≡ group = cc in sym same ∙ sym (append-nil cur)
group_loop_one query cur end (p ∷ places) group e =
    elim (Bool-cases (only_separators (slice query end p.pos))) [
      | inl joined ↦
          group_loop_one query (cur ++ (p ∷ [])) p.end places group (ground arith)
          ∙ append_assoc cur (p ∷ []) places
      | inr apart ↦
          let more : group_loop query (p ∷ []) p.end places ≡ [] = ground arith in
          absurd (group_loop_some query (p ∷ []) p.end places more)
    ]

pub group_named_places_one :
    (query : Bytes) (places group : List Placeholder)
    → group_named_places places query ≡ group ∷ []
    → group ≡ places
unfolding group_named_places
group_named_places_one query [] group e = cc
group_named_places_one query (p ∷ places) group e =
    group_loop_one query (p ∷ []) p.end places group e

in_group-append :
    (before group : List Placeholder) (p : Placeholder)
    → in_group (before ++ (p ∷ group)) p.pos ≡ true
unfolding in_group
in_group-append [] group p = ground arith
in_group-append (q ∷ before) group p = ground (arith, in_group-append before group p)

pub in_group-All :
    (before group : List Placeholder) → All (λ q. in_group (before ++ group) q.pos ≡ true) group
unfolding in_group
in_group-All before [] = tt
in_group-All before (p ∷ group) = (
  in_group-append before group p,
  subst (λ (l : List Placeholder). All (λ q. in_group l q.pos ≡ true) group)
      (append_assoc before (p ∷ []) group) (in_group-All (before ++ (p ∷ [])) group),
)

scan_left-le : (query : Bytes) (i : ℕ) → scan_left query i ≤ i
unfolding scan_left
scan_left-le query zero = omega arith
scan_left-le query (suc i) = ground (arith, scan_left-le query i)

pub group_start-le : (query : Bytes) (pos : ℕ) → group_start query pos ≤ pos
unfolding group_start
group_start-le query pos = ground (arith, scan_left-le query pos)

pub group_end-le : (query : Bytes) (end : ℕ) → end ≤ group_end query end
unfolding group_end
group_end-le query end = omega arith

pub Placed-named_places :
    (query : Bytes) (lo : ℕ) (places : List Placeholder)
    → Placed query lo places
    → Placed query lo (named_places places)
unfolding named_places
Placed-named_places query lo [] h = tt
Placed-named_places query lo (p ∷ places) h = elim (Bool-cases (is_named p)) [
  | inl named ↦
      rw (named, named_places) (h.0, h.1, h.2, h.3, h.4, Placed-named_places query p.end places h.5)
  | inr mark ↦
      rw (mark, named_places)
        (Placed-named_places query lo places
          (Placed-weaken query lo p.end places (omega (arith, h.0, h.1)) h.5))
]

module _ (query : Bytes) where
  last_end-le :
      (p : Placeholder) (group : List Placeholder) (lo : ℕ)
      → Placed query lo (p ∷ group)
      → p.end ≤ last_end p group
  unfolding last_end
  last_end-le p [] lo h = omega arith
  last_end-le p (q ∷ group) lo h =
      let rest = last_end-le q group p.end h.5 in omega (arith, h.5, rest)

  pub Placed-IsWithin :
      (p : Placeholder) (group : List Placeholder) (lo end : ℕ)
      → Placed query lo (p ∷ group)
      → last_end p group ≤ end
      → All (IsWithin lo end) (p ∷ group)
  unfolding last_end
  Placed-IsWithin p [] lo end h le = ((omega arith, le), tt)
  Placed-IsWithin p (q ∷ group) lo end h le =
      let rest = Placed-IsWithin q group p.end end h.5 le in
      (
        (h.0, omega (arith, last_end-le p (q ∷ group) lo h)),
        All-map _ _ (q ∷ group) (λ r inside. (omega (arith, h.0, h.1, inside.0), inside.1)) rest,
      )
