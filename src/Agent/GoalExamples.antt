-- ===== src/Agent/GoalExamples.antt =====
-- Runs of the tree of goals, and its theorems there.
use open_data_analysis.Common.{
  String, Bool, true, false, List, [], ◌∷◌, ◌++◌, ◌≡◌, ◌≢◌, ◌↔◌, refl, ne_of_test, trim_space,
  trim_left, trim_right, is_space, ok, err, All,
}
use open_data_analysis.Agent.Goals.{
  Subgoal, find_goal, has_goal, add_goal, update_first, update_goal_status, check_goals, walk,
  check_parents, replace_goals, endless, cyclic,
}
use open_data_analysis.Agent.Goals.Forest.{IsForest}
use open_data_analysis.Agent.Goals.Walk.{replace_goals-IsForest}
use open_data_analysis.Agent.Goals.Reached.{Reached, added, changed, replaced, Reached-IsForest}
use open_data_analysis.Agent.Goals.Blockers.{
  roots, active_children, join_path, concat_map, branches, collect_active_branch_lines,
  can_finalize,
}
use open_data_analysis.Agent.Goals.Blockers.Branches.{IsBranchLine}
use open_data_analysis.Agent.Goals.Blockers.Laws.{IsSettled, can_finalize_iff}

-- Opens all that the runs compute with.
goal_run : Unit {0}
unfolding trim_space trim_left trim_right is_space find_goal add_goal update_first
    update_goal_status check_goals walk check_parents replace_goals roots active_children join_path
    concat_map branches collect_active_branch_lines can_finalize
goal_run = tt

abbrev goal : (id parent description : String) → Bool → Subgoal
goal id parent description blocking = record {
  id = id;
  parent_goal_id = parent;
  description = description;
  status = "pending";
  blocking = blocking;
  result = "";
  created_at = 5;
  updated_at = 5;
}

abbrev tree : List Subgoal
tree = goal "g1" "" "Report" true ∷ goal "g2" "g1" "Charts" false ∷ []

abbrev circle : List Subgoal
circle = goal "g1" "g2" "Report" true ∷ goal "g2" "g1" "Charts" false ∷ []

accepted_run : replace_goals tree ≡ ok tree
unfolding goal_run
accepted_run = refl

circle_run : replace_goals circle ≡ err cyclic
unfolding goal_run
circle_run = refl

tree-IsForest : IsForest tree
tree-IsForest = ((replace_goals-IsForest tree).1 tree accepted_run).1

replace_goals-IsForest_example :
    (replace_goals circle ≢ err endless)
    × ((after : List Subgoal)
        → replace_goals circle ≡ ok after
        → (after ≡ circle) × IsForest circle)
replace_goals-IsForest_example = replace_goals-IsForest circle

abbrev grown : List Subgoal
grown = tree ++ goal "g3" "g2" "Axes" false ∷ []

fresh_run : has_goal "g3" tree ≡ false
unfolding goal_run
fresh_run = refl

grown_run : add_goal "g3" 5 "Axes" "g2" false tree ≡ ok grown
unfolding goal_run
grown_run = refl

abbrev done : List Subgoal
done = update_first 9 "g1" "complete" "Done" grown

done_run : update_goal_status 9 "g1" "complete" "Done" grown ≡ ok done
unfolding goal_run
done_run = refl

done-Reached : Reached done
done-Reached =
    changed grown done 9 "g1" "complete" "Done"
      (added tree grown "g3" 5 "Axes" "g2" false (replaced tree tree accepted_run)
        (ne_of_test "g3" "" refl) fresh_run grown_run)
      done_run

Reached-IsForest_example : IsForest done
Reached-IsForest_example = Reached-IsForest done done-Reached

blocked_run : can_finalize tree ≡ (false, "Report[pending] -> Charts[pending]" ∷ [])
unfolding goal_run
blocked_run = refl

can_finalize_iff_example :
    (((can_finalize tree).0 ≡ true) ↔ All IsSettled tree)
    × ((can_finalize tree).0 ≡ false → (can_finalize tree).1 ≢ [])
    × All (IsBranchLine tree) (can_finalize tree).1
can_finalize_iff_example = can_finalize_iff tree tree-IsForest
