-- ===== src/Agent/MemoryExamples.antt =====
-- Runs of the working memory, and its theorem there.
use open_data_analysis.Common.{
  [], ◌∷◌, ◌≡◌, refl, ok, err, true, arith, trim_space, trim_left, trim_right, is_space, lookup,
  insert,
}
use open_data_analysis.Agent.Memory.{
  MemoryEntry, unsupported, check_sources, validate_memory_entry, save_entry,
}
use open_data_analysis.Agent.Memory.Laws.{IsMemory, emptied, saved, Held-IsMemory}

-- Opens all that the runs compute with.
memory_run : Unit {0}
unfolding trim_space trim_left trim_right is_space lookup insert check_sources validate_memory_entry
    save_entry
memory_run = tt

abbrev grain : MemoryEntry
grain = record {
  statement = "Sales are monthly.";
  status = "observed";
  source_result_ids = "res_1" ∷ [];
  good_confidence = true;
  created_by = "model";
  created_at = 0;
}

saved_run :
    save_entry 7 "grain" grain [] ≡ ok (("grain", record grain { created_at = 7 }) ∷ [], true)
unfolding memory_run
saved_run = refl

refused_run : save_entry 7 "grain" (record grain { source_result_ids = [] }) [] ≡ err unsupported
unfolding memory_run
refused_run = refl

Held-IsMemory_example : IsMemory (("grain", record grain { created_at = 7 }) ∷ [])
Held-IsMemory_example = Held-IsMemory (("grain", record grain { created_at = 7 }) ∷ []) (
    saved [] (("grain", record grain { created_at = 7 }) ∷ []) 7 "grain" grain true emptied
      (omega arith) saved_run)
