-- ===== src/Agent/Goals/Blockers/Laws.antt =====
-- A run may end just when every blocking root is terminal.
use open_data_analysis.Common.{
  ℕ, zero, suc, ◌+◌, ◌<◌, String, true, false, not, ◌||◌, ◌==◌, ◌≡◌, ◌≢◌, ◌⊎◌, ◌↔◌, inl, inr, refl,
  sym, ap, ◌∙◌, subst, arith, List, [], ◌∷◌, ◌++◌, length, All, All-map, if◌then◌else◌, Bool-cases,
  eq_iff,
}
use open_data_analysis.Agent.Goals.{Subgoal}
use open_data_analysis.Agent.Goals.Forest.{IsDepth, IsPlaced, IsForest}
use open_data_analysis.Agent.Goals.Blockers.Branches.{
  IsBranchLine, children-All, list_cases, collected-IsBranchLine,
}
use open_data_analysis.Agent.Goals.Blockers.{
  is_terminal, roots, active_children, concat_map, branches, step, collect_active_branch_lines,
  can_finalize,
}

-- A parent has one depth.
depth_unique : (gs : List Subgoal) (d e : ℕ) (p : String) → IsDepth gs d p → IsDepth gs e p → d ≡ e
unfolding IsDepth
depth_unique gs zero zero p a b = refl
depth_unique gs zero (suc e) p a b = absurd (b.0 a)
depth_unique gs (suc d) zero p a b = absurd (a.0 b)
depth_unique gs (suc d) (suc e) p (n, (g, f, a)) (m, (h, k, b)) =
    let same : h ≡ g = ground (arith, f, k) in
    ap suc
      (depth_unique gs d e g.parent_goal_id a (subst (λ x. IsDepth gs e x.parent_goal_id) same b))

concat_nonempty :
    (f : Subgoal → List String) (g : Subgoal) (gs : List Subgoal)
    → f g ≢ []
    → concat_map f (g ∷ gs) ≢ []
unfolding concat_map
concat_nonempty f g gs n q = n (ground (arith, q))

-- An active goal gives a branch, with fuel for the depths below it.
branches_nonempty :
    (gs : List Subgoal) (n d : ℕ) (path : List String) (g : Subgoal)
    → All (IsPlaced gs) gs
    → IsPlaced gs g
    → IsDepth gs d g.parent_goal_id
    → length gs < d + n
    → is_terminal g ≡ false
    → branches gs n path g ≢ []
unfolding branches IsDepth
branches_nonempty gs zero d path g all (i, f, (e, l, deep)) a fuel t =
    absurd (omega (arith, l, fuel, depth_unique gs d e g.parent_goal_id a deep))
branches_nonempty gs (suc n) d path g all (i, f, rest) a fuel t =
    elim (list_cases (active_children g.id gs)) [
      | inl c ↦ rw (t, c) (λ q. absurd (ground arith))
      | inr (child, (more, c)) ↦
          let (placed, under, open_child) : IsPlaced gs child
              × (child.parent_goal_id ≡ g.id)
              × (is_terminal child ≡ false) =
            (subst (All (λ x. IsPlaced gs x × (x.parent_goal_id ≡ g.id) × (is_terminal x ≡ false)))
              c (children-All (IsPlaced gs) g.id gs all)).0 in
          let below : IsDepth gs (suc d) child.parent_goal_id =
            subst (IsDepth gs (suc d)) (sym under) (i, (g, f, a)) in
          let some_below : concat_map (branches gs n (path ++ step g ∷ [])) (child ∷ more) ≢ [] =
            concat_nonempty (branches gs n (path ++ step g ∷ [])) child more (
              branches_nonempty gs n (suc d) (path ++ step g ∷ []) child all placed below
                (omega arith) open_child) in
          rw (t, c)
            (subst (λ xs. concat_map (branches gs n (path ++ step g ∷ [])) xs ≢ []) (sym c)
              some_below)
    ]

-- The roots that block.
abbrev pub IsSettled : Subgoal → Type 0
IsSettled g = g.parent_goal_id ≡ "" → g.blocking ≡ true → is_terminal g ≡ true

settled_quiet :
    (f : Subgoal → List String) (gs : List Subgoal)
    → ((g : Subgoal) → (is_terminal g || not g.blocking) ≡ true → f g ≡ [])
    → All IsSettled gs
    → concat_map f (roots gs) ≡ []
unfolding concat_map roots
settled_quiet f [] q a = refl
settled_quiet f (g ∷ gs) q a = elim (Bool-cases (g.parent_goal_id == "")) [
  | inr r ↦ rw r (settled_quiet f gs q a.1)
  | inl r ↦
      let quiet : f g ≡ [] = q g (elim (Bool-cases g.blocking) [
        | inl b ↦ ground (arith, a.0 (ground (arith, eq_iff g.parent_goal_id "")) b)
        | inr b ↦ ground arith
      ]) in
      rw (r, quiet) (settled_quiet f gs q a.1)
]

append_empty : (xs ys : List String) → xs ++ ys ≡ [] → (xs ≡ []) × (ys ≡ [])
append_empty [] ys q = (refl, q)
append_empty (x ∷ xs) ys q = absurd (ground (arith, q))

roots_first :
    (f : Subgoal → List String) (g : Subgoal) (gs : List Subgoal)
    → (g.parent_goal_id == "") ≡ true
    → concat_map f (roots (g ∷ gs)) ≡ f g ++ concat_map f (roots gs)
unfolding concat_map roots
roots_first f g gs r = rw r refl

quiet-IsSettled :
    (f : Subgoal → List String) (gs : List Subgoal)
    → All (λ g. g.parent_goal_id ≡ "" → (is_terminal g || not g.blocking) ≡ false → f g ≢ []) gs
    → concat_map f (roots gs) ≡ []
    → All IsSettled gs
unfolding concat_map roots
quiet-IsSettled f [] n q = tt
quiet-IsSettled f (g ∷ gs) n q = elim (Bool-cases (g.parent_goal_id == "")) [
  | inr r ↦ (
    (λ p. absurd (ground (arith, p, r, eq_iff g.parent_goal_id ""))),
    quiet-IsSettled f gs n.1 (ground (arith, q)),
  )
  | inl r ↦
      let joined : f g ++ concat_map f (roots gs) ≡ [] =
        subst (λ x. x ≡ []) (roots_first f g gs r) q in
      let (first, later) = append_empty (f g) (concat_map f (roots gs)) joined in
      (
        (λ p b. elim (Bool-cases (is_terminal g)) [
          | inl t ↦ t
          | inr t ↦ absurd (n.0 p (ground arith) first)
        ]),
        quiet-IsSettled f gs n.1 later,
      )
]

finalize_cases :
    (gs : List Subgoal)
    → ((collect_active_branch_lines gs ≡ []) × (can_finalize gs ≡ (true, [])))
      ⊎ ((line : String) × ((lines : List String) × (collect_active_branch_lines gs ≡ line ∷ lines)
            × (can_finalize gs ≡ (false, line ∷ lines))))
unfolding can_finalize
finalize_cases gs = elim (list_cases (collect_active_branch_lines gs)) [
  | inl e ↦ inl (e, rw (can_finalize, e) refl)
  | inr (line, (lines, e)) ↦ inr (line, (lines, e, rw (can_finalize, e) refl))
]

-- The lines under a root.
abbrev under_root : List Subgoal → Subgoal → List String
under_root gs root =
    if is_terminal root || not root.blocking then [] else branches gs (suc (length gs)) [] root

loud :
    (gs : List Subgoal)
    → All (IsPlaced gs) gs
    → All
        (λ g.
          g.parent_goal_id ≡ "" → (is_terminal g || not g.blocking) ≡ false → under_root gs g ≢ [])
        gs
unfolding IsDepth
loud gs all =
    All-map (IsPlaced gs)
      (λ g.
        g.parent_goal_id ≡ "" → (is_terminal g || not g.blocking) ≡ false → under_root gs g ≢ [])
      gs
      (λ g placed root open_goal. rw open_goal (
        branches_nonempty gs (suc (length gs)) 0 [] g all placed root (omega arith) (ground arith)))
      all

no_lines : (gs : List Subgoal) → All IsSettled gs → collect_active_branch_lines gs ≡ []
unfolding collect_active_branch_lines
no_lines gs a = settled_quiet (under_root gs) gs (λ g q. rw q refl) a

IsSettled-of_no_lines :
    (gs : List Subgoal)
    → All (IsPlaced gs) gs
    → collect_active_branch_lines gs ≡ []
    → All IsSettled gs
unfolding collect_active_branch_lines
IsSettled-of_no_lines gs all e = quiet-IsSettled (under_root gs) gs (loud gs all) e

-- For a tree of goals whose ids are different and whose parents lead to roots: the run may end just
-- when every root that blocks is complete or rejected, whatever stands under it. When it may not,
-- there is a line, and each line names the goals of a branch: from a root that blocks down to a goal
-- with no open child, none complete or rejected, each the parent of the next.
pub can_finalize_iff :
    (gs : List Subgoal)
    → IsForest gs
    → (((can_finalize gs).0 ≡ true) ↔ All IsSettled gs)
      × ((can_finalize gs).0 ≡ false → (can_finalize gs).1 ≢ [])
      × All (IsBranchLine gs) (can_finalize gs).1
can_finalize_iff gs (bound, different, all) =
    let named = All-map (IsPlaced gs) (λ g. g.id ≢ "") gs (λ g placed. placed.0) all in
    let lines = collected-IsBranchLine gs named in
    elim (finalize_cases gs) [
      | inl (e, c) ↦ (
        (λ h. IsSettled-of_no_lines gs all e, λ a. ground (arith, c)),
        λ h. absurd (ground (arith, h, c)),
        subst (All (IsBranchLine gs)) (sym (ap (λ x. x.1) c)) tt,
      )
      | inr (line, (rest, e, c)) ↦ (
        (λ h. absurd (ground (arith, h, c)), λ a. absurd (ground (arith, e, no_lines gs a))),
        λ h q. absurd (ground (arith, q, c)),
        subst (All (IsBranchLine gs)) (e ∙ sym (ap (λ x. x.1) c)) lines,
      )
    ]
