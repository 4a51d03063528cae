-- ===== src/Agent/Goals/Blockers/Branches.antt =====
-- The lines that name what keeps a run from ending (server/agent/memory.go `CanFinalize`) are branches
-- of the tree of goals.
use open_data_analysis.Common.{
  ℕ, zero, suc, String, true, false, not, ◌&&◌, ◌||◌, ◌==◌, ◌≡◌, ◌≢◌, ◌⊎◌, inl, inr, refl, ap, ◌∙◌,
  subst, arith, List, [], ◌∷◌, ◌++◌, map, append_assoc, length, All, All-map, All-append,
  if◌then◌else◌, Bool-cases, eq_iff,
}
use open_data_analysis.Agent.Goals.{Subgoal}
use open_data_analysis.Agent.Goals.Blockers.{
  is_terminal, roots, active_children, concat_map, branches, step, join_path,
  collect_active_branch_lines,
}

abbrev pub IsIn : Subgoal → List Subgoal → Type 0
IsIn g [] = ⊥
IsIn g (h ∷ gs) = (g ≡ h) ⊎ IsIn g gs

-- Goals that are not complete or rejected, each the parent of the next, and no such goal has the last
-- one as its parent.
abbrev pub IsBranch : List Subgoal → List Subgoal → Type 0
IsBranch gs [] = ⊥
IsBranch gs (g ∷ []) =
    IsIn g gs
    × (is_terminal g ≡ false)
    × All (λ c. c.parent_goal_id ≡ g.id → is_terminal c ≡ true) gs
IsBranch gs (g ∷ h ∷ hs) =
    IsIn g gs × (is_terminal g ≡ false) × (h.parent_goal_id ≡ g.id) × IsBranch gs (h ∷ hs)

-- The line names the goals of a branch from a root that blocks.
abbrev pub IsBranchLine : List Subgoal → String → Type 0
IsBranchLine gs line =
    (root : Subgoal) × (below : List Subgoal) × (root.parent_goal_id ≡ "")
    × (root.blocking ≡ true)
    × IsBranch gs (root ∷ below)
    × (line ≡ join_path (map step (root ∷ below)))

-- What holds of all goals holds of the children, whose parent is the goal.
pub children-All :
    (P : Subgoal → Type 0) (id : String) (gs : List Subgoal)
    → All P gs
    → All (λ g. P g × (g.parent_goal_id ≡ id) × (is_terminal g ≡ false)) (active_children id gs)
unfolding active_children
children-All P id [] a = tt
children-All P id (g ∷ gs) a =
    elim (Bool-cases
      (not (g.parent_goal_id == "") && g.parent_goal_id == id && not (is_terminal g))) [
        | inr c ↦ rw c (children-All P id gs a.1)
        | inl c ↦ rw c (
          (a.0, ground (arith, eq_iff g.parent_goal_id id), ground arith),
          children-All P id gs a.1,
        )
      ]

pub list_cases {ℓ} :
    {A : Type ℓ} (xs : List A) → (xs ≡ []) ⊎ ((x : A) × ((ys : List A) × (xs ≡ x ∷ ys)))
list_cases [] = inl refl
list_cases (x ∷ xs) = inr (x, (xs, refl))

All-IsIn : (gs : List Subgoal) → All (λ g. IsIn g gs) gs
All-IsIn [] = tt
All-IsIn (g ∷ gs) =
    (inl refl, All-map (λ h. IsIn h gs) (λ h. IsIn h (g ∷ gs)) gs (λ h k. inr k) (All-IsIn gs))

All-concat_map :
    (P : String → Type 0) (f : Subgoal → List String) (gs : List Subgoal)
    → All (λ g. All P (f g)) gs
    → All P (concat_map f gs)
unfolding concat_map
All-concat_map P f [] a = tt
All-concat_map P f (g ∷ gs) a = All-append P (f g) (concat_map f gs) a.0 (All-concat_map P f gs a.1)

-- Without active children, every child is complete or rejected.
no_children :
    (id : String) (gs : List Subgoal)
    → id ≢ ""
    → active_children id gs ≡ []
    → All (λ c. c.parent_goal_id ≡ id → is_terminal c ≡ true) gs
unfolding active_children
no_children id [] i e = tt
no_children id (g ∷ gs) i e = elim (Bool-cases (is_terminal g)) [
  | inl t ↦ ((λ k. t), no_children id gs i (ground (arith, e, t)))
  | inr t ↦ elim (Bool-cases (g.parent_goal_id == id)) [
    | inl k ↦
        absurd (i (ground (arith, e, t, k, eq_iff g.parent_goal_id id, eq_iff g.parent_goal_id "")))
    | inr k ↦ (
      (λ q. absurd (ground (arith, q, k, eq_iff g.parent_goal_id id))),
      no_children id gs i (ground (arith, e, k)),
    )
  ]
]

module _ (gs : List Subgoal) (named : All (λ g. g.id ≢ "") gs) where
  abbrev IsGoal : Subgoal → Type 0
  IsGoal g = IsIn g gs × (g.id ≢ "")

  goals : (hs : List Subgoal) → All (λ g. IsIn g gs) hs → All (λ g. g.id ≢ "") hs → All IsGoal hs
  goals [] a b = tt
  goals (h ∷ hs) a b = ((a.0, b.0), goals hs a.1 b.1)

  -- The line names a branch from the goal, after the steps of the path.
  abbrev IsUnder : List String → Subgoal → String → Type 0
  IsUnder path g line =
      (below : List Subgoal) × IsBranch gs (g ∷ below)
      × (line ≡ join_path (path ++ map step (g ∷ below)))

  longer :
      (path : List String) (g h : Subgoal)
      → IsIn g gs
      → is_terminal g ≡ false
      → h.parent_goal_id ≡ g.id
      → (line : String) → IsUnder (path ++ step g ∷ []) h line
      → IsUnder path g line
  longer path g h i t p line (below, b, e) = (
    h ∷ below,
    (i, t, p, b),
    e ∙ ap join_path (append_assoc path (step g ∷ []) (map step (h ∷ below))),
  )

  branches-IsUnder :
      (n : ℕ) (path : List String) (g : Subgoal)
      → IsGoal g
      → All (IsUnder path g) (branches gs n path g)
  unfolding branches
  branches-IsUnder zero path g k = tt
  branches-IsUnder (suc n) path g (i, k) = elim (Bool-cases (is_terminal g)) [
    | inl t ↦ rw (branches, t) tt
    | inr t ↦ elim (list_cases (active_children g.id gs)) [
      | inl c ↦ rw (branches, t) (rw c (([], (i, t, no_children g.id gs k c), refl), tt))
      | inr (child, (more, c)) ↦
          let deeper : All (IsUnder path g)
              (concat_map (branches gs n (path ++ step g ∷ [])) (active_children g.id gs)) =
            All-concat_map (IsUnder path g) (branches gs n (path ++ step g ∷ []))
              (active_children g.id gs)
              (All-map (λ h. IsGoal h × (h.parent_goal_id ≡ g.id) × (is_terminal h ≡ false))
                (λ h. All (IsUnder path g) (branches gs n (path ++ step g ∷ []) h))
                (active_children g.id gs)
                (λ h (q, p, o).
                  All-map (IsUnder (path ++ step g ∷ []) h) (IsUnder path g)
                    (branches gs n (path ++ step g ∷ []) h) (longer path g h i t p)
                    (branches-IsUnder n (path ++ step g ∷ []) h q))
                (children-All IsGoal g.id gs (goals gs (All-IsIn gs) named))) in
          let eq : concat_map (branches gs n (path ++ step g ∷ [])) (active_children g.id gs)
              ≡ branches gs (suc n) path g =
            ground (arith, t, c) in
          subst (All (IsUnder path g)) eq deeper
    ]
  ]

  roots-All :
      (hs : List Subgoal) → All IsGoal hs → All (λ g. IsGoal g × (g.parent_goal_id ≡ "")) (roots hs)
  unfolding roots
  roots-All [] a = tt
  roots-All (h ∷ hs) a = elim (Bool-cases (h.parent_goal_id == "")) [
    | inl e ↦ rw (roots, e) ((a.0, ground (arith, e, eq_iff h.parent_goal_id "")), roots-All hs a.1)
    | inr e ↦ rw (roots, e) (roots-All hs a.1)
  ]

  -- Every line that is collected is a branch from a root that blocks.
  pub collected-IsBranchLine : All (IsBranchLine gs) (collect_active_branch_lines gs)
  unfolding collect_active_branch_lines
  collected-IsBranchLine =
      let under : Subgoal → List String = λ root.
        if is_terminal root || not root.blocking
        then []
        else branches gs (suc (length gs)) [] root in
      All-concat_map (IsBranchLine gs) under (roots gs) (
        All-map (λ g. IsGoal g × (g.parent_goal_id ≡ "")) (λ g. All (IsBranchLine gs) (under g))
          (roots gs)
          (λ root (k, p). elim (Bool-cases (is_terminal root || not root.blocking)) [
            | inl q ↦ rw q tt
            | inr q ↦ rw q (
                All-map (IsUnder [] root) (IsBranchLine gs) (branches gs (suc (length gs)) [] root)
                  (λ line (below, b, e). (root, below, p, ground (arith, q), b, e))
                  (branches-IsUnder (suc (length gs)) [] root k))
          ])
          (roots-All gs (goals gs (All-IsIn gs) named)))
