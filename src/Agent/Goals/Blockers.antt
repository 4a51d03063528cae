-- ===== src/Agent/Goals/Blockers.antt =====
-- What keeps a run from ending (server/agent/memory.go `CanFinalize`): the open branches under the
-- blocking roots of the tree of goals.
pub mod Branches
pub mod Laws
use Prim.Native.String.{◌++◌ as ◌^^◌}
use open_data_analysis.Common.{
  ℕ, zero, suc, String, Bool, true, false, not, ◌&&◌, ◌||◌, ◌==◌, List, [], ◌∷◌, ◌++◌, length,
  if◌then◌else◌,
}
use open_data_analysis.Agent.Goals.{Subgoal}

-- `isTerminalSubgoalStatus`.
abbrev pub is_terminal : Subgoal → Bool
is_terminal g = g.status == "complete" || g.status == "rejected"

-- `snapshot.roots` and `snapshot.children[id]`, those that are not terminal.
unfoldable pub roots : List Subgoal → List Subgoal
roots [] = []
roots (g ∷ gs) = let rest = roots gs in if g.parent_goal_id == "" then g ∷ rest else rest

unfoldable pub active_children : String → List Subgoal → List Subgoal
active_children id [] = []
active_children id (g ∷ gs) =
    let rest = active_children id gs in
    if not (g.parent_goal_id == "") && g.parent_goal_id == id && not (is_terminal g)
    then g ∷ rest
    else rest

-- `strings.Join(path, " -> ")`.
unfoldable pub join_path : List String → String
join_path [] = ""
join_path (s ∷ []) = s
join_path (s ∷ t ∷ path) = s ^^ " -> " ^^ join_path (t ∷ path)

abbrev pub step : Subgoal → String
step g = g.description ^^ "[" ^^ g.status ^^ "]"

unfoldable pub concat_map : (Subgoal → List String) → List Subgoal → List String
concat_map f [] = []
concat_map f (g ∷ gs) = f g ++ concat_map f gs

-- `dfs`, on fuel.
unfoldable pub branches : List Subgoal → ℕ → List String → Subgoal → List String
branches gs zero path goal = []
branches gs (suc n) path goal =
    let under = concat_map (branches gs n (path ++ step goal ∷ [])) (active_children goal.id gs) in
    if is_terminal goal then [] else (elim (active_children goal.id gs) [
      | [] ↦ join_path (path ++ step goal ∷ []) ∷ []
      | child ∷ more ↦ under
    ])

-- `collectActiveBranchLines`.
unfoldable pub collect_active_branch_lines : List Subgoal → List String
collect_active_branch_lines gs =
    concat_map
      (λ root.
        if is_terminal root || not root.blocking then [] else branches gs (suc (length gs)) [] root)
      (roots gs)

-- `CanFinalize`.
unfoldable pub can_finalize : List Subgoal → Bool × List String
can_finalize gs = elim (collect_active_branch_lines gs) [
  | [] ↦ (true, [])
  | line ∷ lines ↦ (false, line ∷ lines)
]
