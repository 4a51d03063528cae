-- ===== src/Agent/Goals/Walk.antt =====
-- `ReplaceAll` always ends, and what it accepts is a forest.
use open_data_analysis.Common.{
  ℕ, zero, suc, ◌≤◌, ◌<◌, String, true, false, ◌==◌, ◌≡◌, ◌≢◌, ◌⊎◌, inl, inr, refl, arith, some,
  List, [], ◌∷◌, length, any, All, All-map, All-both, if◌then◌else◌, ok, err, Bool-cases,
  Result-cases, eq_iff, eq_refl, ne_of_test,
}
use open_data_analysis.Agent.Goals.Forest.{
  IsDepth, IsDistinct, IsPlaced, IsForest, found, missing, All-find,
}
use open_data_analysis.Agent.Goals.{
  Subgoal, find_goal, has_goal, parent_of, walk, check_goals, check_parents, replace_goals, endless,
}

-- The goals with an id that is not among those seen.
unfoldable unseen : List String → List Subgoal → ℕ
unseen seen [] = 0
unseen seen (g ∷ gs) =
    let rest = unseen seen gs in if any (λ id. id == g.id) seen then rest else suc rest

unseen-le : (seen : List String) (gs : List Subgoal) → unseen seen gs ≤ length gs
unfolding unseen
unseen-le seen [] = omega arith
unseen-le seen (g ∷ gs) = ground (arith, unseen-le seen gs)

unseen_more :
    (p : String) (seen : List String) (gs : List Subgoal) → unseen (p ∷ seen) gs ≤ unseen seen gs
unfolding unseen
unseen_more p seen [] = omega arith
unseen_more p seen (g ∷ gs) = ground (arith, unseen_more p seen gs)

-- The walk passes over a goal that was not seen.
unseen_less :
    (p : String) (seen : List String) (gs : List Subgoal)
    → any (λ id. id == p) seen ≡ false
    → has_goal p gs ≡ true
    → unseen (p ∷ seen) gs < unseen seen gs
unfolding unseen
unseen_less p seen [] n h = absurd (ground arith)
unseen_less p seen (g ∷ gs) n h = elim (Bool-cases (g.id == p)) [
  | inl e ↦
      let same : g.id ≡ p = ground (arith, eq_iff g.id p) in
      rw (same, eq_refl p, n) (omega (arith, unseen_more p seen gs))
  | inr e ↦
      let ih = unseen_less p seen gs n (ground arith) in
      let apart : (p == g.id) ≡ false = ground (arith, eq_iff g.id p, eq_iff p g.id) in
      elim (Bool-cases (any (λ id. id == g.id) seen)) [
        | inl s ↦ rw (apart, s) ih
        | inr s ↦ rw (apart, s) (omega (arith, ih))
      ]
]

walk_top : (gs : List Subgoal) (n : ℕ) (seen : List String) → walk gs n seen "" ≢ err endless
unfolding walk
walk_top gs zero seen q = absurd (ground arith)
walk_top gs (suc n) seen q = absurd (ground arith)

-- With fuel for the goals not yet seen, and one more, the walk ends.
walk_ends :
    (gs : List Subgoal) (n : ℕ) (seen : List String) (p : String)
    → unseen seen gs < n
    → walk gs n seen p ≢ err endless
unfolding walk
walk_ends gs zero seen p l = absurd (omega (arith, l))
walk_ends gs (suc n) seen p l = elim (Bool-cases (p == "")) [
  | inl e ↦ rw e (λ q. absurd (ground arith))
  | inr e ↦ elim (Bool-cases (any (λ id. id == p) seen)) [
    | inl s ↦ rw (e, s) (λ q. absurd (ground arith))
    | inr s ↦ elim (Bool-cases (has_goal p gs)) [
      | inl h ↦
          let less = unseen_less p seen gs s h in
          rw (e, s) (walk_ends gs n (p ∷ seen) (parent_of gs p) (omega arith))
      | inr h ↦
          let up : parent_of gs p ≡ "" = rw (parent_of, missing p gs h) refl in
          rw (e, s, up) (walk_top gs n (p ∷ seen))
    ]
  ]
]

-- Where every parent that is named is there, a walk that succeeds gives a depth.
abbrev IsNamed : List Subgoal → String → Type 0
IsNamed gs p = (p ≡ "") ⊎ (has_goal p gs ≡ true)

walk-IsDepth :
    (gs : List Subgoal) (n : ℕ) (seen : List String) (p : String)
    → All (λ g. IsNamed gs g.parent_goal_id) gs
    → IsNamed gs p
    → walk gs n seen p ≡ ok tt
    → (d : ℕ) × (d ≤ unseen seen gs) × IsDepth gs d p
unfolding walk IsDepth
walk-IsDepth gs n seen p a (inl e) h = (0, omega arith, e)
walk-IsDepth gs zero seen p a (inr b) h = elim (Bool-cases (p == "")) [
  | inl e ↦ (0, omega arith, ground (arith, eq_iff p ""))
  | inr e ↦ absurd (ground (arith, h))
]
walk-IsDepth gs (suc n) seen p a (inr b) h = elim (Bool-cases (p == "")) [
  | inl e ↦ (0, omega arith, ground (arith, eq_iff p ""))
  | inr e ↦ elim (Bool-cases (any (λ id. id == p) seen)) [
    | inl s ↦ absurd (ground (arith, h))
    | inr s ↦
        let (g, k) = found p gs b in
        let above : walk gs n (p ∷ seen) g.parent_goal_id ≡ ok tt = ground (arith, h, k) in
        let (d, l, deep) =
          walk-IsDepth gs n (p ∷ seen) g.parent_goal_id a
            (All-find (λ x. IsNamed gs x.parent_goal_id) p gs g a k) above in
        let less = unseen_less p seen gs s b in
        (suc d, omega arith, (ne_of_test p "" e, (g, k, deep)))
  ]
]

-- What the first loop finds of a goal, and the second.
abbrev IsChecked : List String → List Subgoal → Subgoal → Type 0
IsChecked seen gs g =
    (g.id ≢ "") × (any (λ id. id == g.id) seen ≡ false) × (find_goal g.id gs ≡ some g)

abbrev IsWalked : List Subgoal → Subgoal → Type 0
IsWalked gs g =
    IsNamed gs g.parent_goal_id × (walk gs (suc (length gs)) (g.id ∷ []) g.parent_goal_id ≡ ok tt)

-- The ids that the first loop accepts: each is new, and leads to its goal.
distinct :
    (seen : List String) (gs : List Subgoal)
    → check_goals seen gs ≡ ok tt
    → All (IsChecked seen gs) gs
unfolding check_goals find_goal
distinct seen [] h = tt
distinct seen (g ∷ gs) h =
    let rest : check_goals (g.id ∷ seen) gs ≡ ok tt = ground (arith, h) in
    let new : any (λ id. id == g.id) seen ≡ false = ground (arith, h) in
    let named : (g.id == "") ≡ false = ground (arith, h) in
    (
      (ne_of_test g.id "" named, new, rw (eq_refl g.id) refl),
      All-map (IsChecked (g.id ∷ seen) gs) (IsChecked seen (g ∷ gs)) gs
          (λ x (a, b, c).
            let other : (g.id == x.id) ≡ false = ground (arith, b) in
            (a, ground (arith, b), rw other c))
          (distinct (g.id ∷ seen) gs rest),
    )

apart :
    (g : Subgoal) (seen : List String) (all gs : List Subgoal)
    → All (IsChecked (g.id ∷ seen) all) gs
    → has_goal g.id gs ≡ false
apart g seen all [] a = refl
apart g seen all (x ∷ gs) a =
    ground (arith, a.0.1, apart g seen all gs a.1, eq_iff x.id g.id, eq_iff g.id x.id)

no_twice : (seen : List String) (gs : List Subgoal) → check_goals seen gs ≡ ok tt → IsDistinct gs
unfolding check_goals
no_twice seen [] h = tt
no_twice seen (g ∷ gs) h =
    let rest : check_goals (g.id ∷ seen) gs ≡ ok tt = ground (arith, h) in
    (apart g seen gs gs (distinct (g.id ∷ seen) gs rest), no_twice (g.id ∷ seen) gs rest)

-- The second loop, once it is known to accept.
parents : (gs rest : List Subgoal) → check_parents gs rest ≡ ok tt → All (IsWalked gs) rest
unfolding check_parents
parents gs [] h = tt
parents gs (g ∷ rest) h =
    elim (Result-cases (walk gs (suc (length gs)) (g.id ∷ []) g.parent_goal_id)) [
      | inr (e, w) ↦ absurd (ground (arith, h, w))
      | inl (u, w) ↦ (
        (
          elim (Bool-cases (g.parent_goal_id == "")) [
            | inl e ↦ inl (ground (arith, eq_iff g.parent_goal_id ""))
            | inr e ↦ inr (ground (arith, h))
          ],
          w,
        ),
        parents gs rest (ground (arith, h, w)),
      )
    ]

check_parents_ends : (gs rest : List Subgoal) → check_parents gs rest ≢ err endless
unfolding check_parents
check_parents_ends gs [] q = absurd (ground arith)
check_parents_ends gs (g ∷ rest) q =
    elim (Result-cases (walk gs (suc (length gs)) (g.id ∷ []) g.parent_goal_id)) [
      | inr (e, w) ↦
          walk_ends gs (suc (length gs)) (g.id ∷ []) g.parent_goal_id
            (omega (arith, unseen-le (g.id ∷ []) gs)) (ground (arith, q, w))
      | inl (u, w) ↦ check_parents_ends gs rest (ground (arith, q, w))
    ]

placed :
    (gs : List Subgoal) → All (IsChecked [] gs) gs → All (IsWalked gs) gs → All (IsPlaced gs) gs
placed gs a b =
    let named : All (λ g. IsNamed gs g.parent_goal_id) gs =
      All-map (IsWalked gs) (λ g. IsNamed gs g.parent_goal_id) gs (λ g q. q.0) b in
    All-both (IsChecked [] gs) (IsWalked gs) (IsPlaced gs) gs
      (λ g (i, n, f) (k, w).
        let (d, l, deep) =
          walk-IsDepth gs (suc (length gs)) (g.id ∷ []) g.parent_goal_id named k w in
        (i, f, (d, omega (arith, unseen-le (g.id ∷ []) gs), deep)))
      a b

first_loop_ends : (seen : List String) (gs : List Subgoal) → check_goals seen gs ≢ err endless
unfolding check_goals
first_loop_ends seen [] q = absurd (ground arith)
first_loop_ends seen (g ∷ gs) q = ground (arith, q, first_loop_ends (g.id ∷ seen) gs)

-- A stored tree of goals is accepted or refused after finitely many steps: the walk up the parents
-- never runs out of its fuel, the number of goals and one. What is accepted is kept as it is, has 30
-- goals at most, no id twice, each id leads to its goal, and the parents of every goal lead to a root.
pub replace_goals-IsForest :
    (gs : List Subgoal)
    → (replace_goals gs ≢ err endless)
      × ((after : List Subgoal) → replace_goals gs ≡ ok after → (after ≡ gs) × IsForest gs)
unfolding replace_goals
replace_goals-IsForest gs = (
  λ q. elim (Result-cases (check_goals [] gs)) [
    | inr (e, c) ↦ first_loop_ends [] gs (ground (arith, q, c))
    | inl (u, c) ↦ elim (Result-cases (check_parents gs gs)) [
      | inr (e, p) ↦ check_parents_ends gs gs (ground (arith, q, c, p))
      | inl (v, p) ↦ absurd (ground (arith, q, c, p))
    ]
  ],
  λ after h. elim (Result-cases (check_goals [] gs)) [
    | inr (e, c) ↦ absurd (ground (arith, h, c))
    | inl (u, c) ↦ elim (Result-cases (check_parents gs gs)) [
      | inr (e, p) ↦ absurd (ground (arith, h, c, p))
      | inl (v, p) ↦ (
        ground (arith, h, c, p),
        (ground (arith, h), no_twice [] gs c, placed gs (distinct [] gs c) (parents gs gs p)),
      )
    ]
  ],
)
