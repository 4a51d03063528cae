-- ===== src/Agent/Memory.antt =====
-- The working memory of the agent (server/agent/memory.go `WorkingMemory`). A time is a number, 0
-- the zero time, and the clock an argument.
pub mod Laws
use Prim.Native.String.{len}
use open_data_analysis.Common.{
  ℕ, String, Bool, true, false, not, ◌&&◌, ◌||◌, ◌==◌, List, [], ◌∷◌, length, any, leb, ltb, eqb,
  if◌then◌else◌, is_blank, is_exact, Dict, is_some, lookup, insert, remove, Result, ok, err, ◌>>=◌,
  ◌>>◌, refuse,
}

abbrev pub max_memory_entries : ℕ
max_memory_entries = 50

abbrev pub max_memory_key_length : ℕ
max_memory_key_length = 200

abbrev pub max_statement_length : ℕ
max_statement_length = 2000

-- `MemoryEntry`. Of the confidence the model has whether it is absent or between 0 and 1.
pub record MemoryEntry : Type 0 where
  pub statement : String
  pub status : String
  pub source_result_ids : List String
  pub good_confidence : Bool
  pub created_by : String
  pub created_at : ℕ

pub data MemoryError : Type 0 where
  bad_key : MemoryError
  bad_statement : MemoryError
  bad_memory_status : MemoryError
  unsupported : MemoryError
  bad_confidence : MemoryError
  bad_source : MemoryError
  too_many_entries : MemoryError
  no_created_at : MemoryError

-- The loop over the sources, after those that were seen.
unfoldable pub check_sources : List String → List String → Result MemoryError (Unit {0})
check_sources seen [] = ok tt
check_sources seen (id ∷ ids) =
    refuse (id == "" || not (is_exact id) || any (λ s. s == id) seen) bad_source
    >> check_sources (id ∷ seen) ids

abbrev has_none : List String → Bool
has_none [] = true
has_none (id ∷ ids) = false

-- `validateMemoryEntry`.
unfoldable pub validate_memory_entry : String → MemoryEntry → Result MemoryError (Unit {0})
validate_memory_entry key e =
    refuse (key == "" || not (is_exact key) || ltb max_memory_key_length (len key)) bad_key
    >> refuse (is_blank e.statement || ltb max_statement_length (len e.statement)) bad_statement
    >> refuse (not (e.status == "observed" || e.status == "inferred" || e.status == "assumed"))
        bad_memory_status
    >> refuse (e.status == "observed" && has_none e.source_result_ids) unsupported
    >> refuse (not e.good_confidence) bad_confidence
    >> check_sources [] e.source_result_ids

-- The entry with the time of its creation.
abbrev pub dated : (now : ℕ) → MemoryEntry → MemoryEntry
dated now e = record e { created_at = (if eqb e.created_at 0 then now else e.created_at) }

-- `SaveEntry`: the entries after it, and if the entry was taken.
unfoldable pub save_entry :
    (now : ℕ)
    → String
    → MemoryEntry
    → Dict MemoryEntry
    → Result MemoryError (Dict MemoryEntry × Bool)
save_entry now key e m =
    validate_memory_entry key e
    >> ok (
        if leb max_memory_entries (length m) && not (is_some (lookup key m))
        then (m, false)
        else (insert key (dated now e) m, true))

-- `RemoveEntry`.
unfoldable pub remove_entry : String → Dict MemoryEntry → Dict MemoryEntry
remove_entry key m = remove key m

-- The loop of `ReplaceEntries`.
unfoldable pub check_entries : Dict MemoryEntry → Result MemoryError (Unit {0})
check_entries [] = ok tt
check_entries ((key, e) ∷ m) =
    validate_memory_entry key e >> refuse (eqb e.created_at 0) no_created_at >> check_entries m

-- `ReplaceEntries`.
unfoldable pub replace_entries : Dict MemoryEntry → Result MemoryError (Dict MemoryEntry)
replace_entries entries =
    refuse (ltb max_memory_entries (length entries)) too_many_entries
    >> check_entries entries
    >> ok entries
