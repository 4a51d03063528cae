-- ===== src/Agent/Goals/Forest.antt =====
-- What a tree of goals is (server/agent/memory.go): ids that differ and parents that lead to roots.
use open_data_analysis.Common.{
  ℕ, zero, suc, ◌≤◌, String, true, false, ◌==◌, ◌≡◌, ◌≢◌, inl, inr, refl, subst, arith, none, some,
  List, [], ◌∷◌, length, All, Bool-cases,
}
use open_data_analysis.Agent.Goals.{max_goals, Subgoal, find_goal, has_goal}

-- The parent `p` of a goal is at depth `d` of the tree: 0 for the parent of a root.
unfoldable pub IsDepth : List Subgoal → ℕ → String → Type 0
IsDepth gs zero p = p ≡ ""
IsDepth gs (suc d) p =
    (p ≢ "") × ((g : Subgoal) × (find_goal p gs ≡ some g) × IsDepth gs d g.parent_goal_id)

-- A goal that its id leads to, and whose parents lead to a root.
abbrev pub IsPlaced : List Subgoal → Subgoal → Type 0
IsPlaced gs g =
    (g.id ≢ "")
    × (find_goal g.id gs ≡ some g)
    × ((d : ℕ) × (d ≤ length gs) × IsDepth gs d g.parent_goal_id)

-- No id occurs twice.
abbrev pub IsDistinct : List Subgoal → Type 0
IsDistinct [] = Unit {0}
IsDistinct (g ∷ gs) = (has_goal g.id gs ≡ false) × IsDistinct gs

abbrev pub IsForest : List Subgoal → Type 0
IsForest gs = (length gs ≤ max_goals) × IsDistinct gs × All (IsPlaced gs) gs

pub found :
    (p : String) (gs : List Subgoal)
    → has_goal p gs ≡ true
    → (g : Subgoal) × (find_goal p gs ≡ some g)
unfolding find_goal
found p [] h = absurd (ground arith)
found p (g ∷ gs) h = elim (Bool-cases (g.id == p)) [
  | inl e ↦ (g, rw e refl)
  | inr e ↦ rw e (found p gs (ground arith))
]

pub missing : (p : String) (gs : List Subgoal) → has_goal p gs ≡ false → find_goal p gs ≡ none
unfolding find_goal
missing p [] h = refl
missing p (g ∷ gs) h = ground (arith, missing p gs)

pub All-find :
    (P : Subgoal → Type 0) (p : String) (gs : List Subgoal) (g : Subgoal)
    → All P gs
    → find_goal p gs ≡ some g
    → P g
unfolding find_goal
All-find P p [] g a h = absurd (ground arith)
All-find P p (x ∷ gs) g a h = elim (Bool-cases (x.id == p)) [
  | inl e ↦ let same : x ≡ g = ground (arith, h) in subst P same a.0
  | inr e ↦ All-find P p gs g a.1 (ground (arith, h))
]
