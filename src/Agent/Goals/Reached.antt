-- ===== src/Agent/Goals/Reached.antt =====
-- The trees of goals that a manager can come to (server/agent/memory.go `SubgoalManager`).
use open_data_analysis.Common.{ℕ, String, Bool, false, List, [], ◌≡◌, ◌≢◌, ok, arith, subst, sym}
use open_data_analysis.Agent.Goals.{Subgoal, has_goal, add_goal, update_goal_status, replace_goals}
use open_data_analysis.Agent.Goals.Forest.{IsForest}
use open_data_analysis.Agent.Goals.Walk.{replace_goals-IsForest}
use open_data_analysis.Agent.Goals.Edits.{add_goal-IsForest}
use open_data_analysis.Agent.Goals.Status.{update_goal_status-IsForest}

-- The calls that succeed, from `NewSubgoalManager` or `Reset` on. The ids that are drawn are new.
pub data Reached : List Subgoal → Type 0 where
  reset : Reached []
  added :
      (gs after : List Subgoal) (id : String) (now : ℕ) (description parent : String)
      (blocking : Bool)
      → Reached gs
      → id ≢ ""
      → has_goal id gs ≡ false
      → add_goal id now description parent blocking gs ≡ ok after
      → Reached after
  changed :
      (gs after : List Subgoal) (now : ℕ) (id status result : String)
      → Reached gs
      → update_goal_status now id status result gs ≡ ok after
      → Reached after
  replaced : (gs after : List Subgoal) → replace_goals gs ≡ ok after → Reached after

-- Whatever calls are made, the goals are a tree: 30 at most, no id twice, and the parents of each
-- goal lead to a root.
pub Reached-IsForest : (gs : List Subgoal) → Reached gs → IsForest gs
Reached-IsForest _ reset = (omega arith, tt, tt)
Reached-IsForest _ (added gs after id now description parent blocking r i n h) =
    (add_goal-IsForest id now description parent blocking gs after (Reached-IsForest gs r) i n h).0
Reached-IsForest _ (changed gs after now id status result r h) =
    (update_goal_status-IsForest now id status result gs (Reached-IsForest gs r)).0 after h
Reached-IsForest _ (replaced gs after h) =
    let (same, forest) = (replace_goals-IsForest gs).1 after h in subst IsForest (sym same) forest
