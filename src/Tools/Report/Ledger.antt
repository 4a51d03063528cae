-- ===== src/Tools/Report/Ledger.antt =====
-- The ledgers of results and artifacts and the decoding of stored JSON
-- (server/tools/report_state.go). What `jsoncontract.Decode` gives for a text is a parameter: an
-- error is none, and a JSON null is some none.
pub mod Laws
use open_data_analysis.Common.{
  ℕ, String, Bool, true, false, not, ◌&&◌, ◌||◌, ◌==◌, Option, none, some, List, [], ◌∷◌, Dict,
  insert, is_exact, if◌then◌else◌, Result, ok, err, refuse, ◌>>=◌, ◌>>◌,
}
use open_data_analysis.Tools.Report.{
  EvidenceRef, AnalysisResult, ArtifactRecord, ReportState, ReportError, id_not_exact,
  validate_sources,
}

pub data DecodeError : Type 0 where
  not_json not_an_object not_an_array : DecodeError
  key_not_exact : (key : String) → DecodeError
  invalid_ref : ReportError → DecodeError

-- `ReportState.RecordResult`.
unfoldable pub record_result : AnalysisResult → ReportState → Result ReportError ReportState
record_result r s = do
  refuse (r.id == "" || not (is_exact r.id)) id_not_exact
  ok (record s { results = insert r.id r s.results })

-- `ReportState.RecordArtifact`.
unfoldable pub record_artifact : ArtifactRecord → ReportState → Result ReportError ReportState
record_artifact a s = do
  refuse (a.id == "" || not (is_exact a.id)) id_not_exact
  ok (record s { artifacts = insert a.id a s.artifacts })

-- The test of one entry of a ledger.
abbrev pub bad_key : String → String → Bool
bad_key key id = key == "" || not (is_exact key) || not (id == key)

unfoldable pub check_results : Dict AnalysisResult → Result DecodeError (Unit {0})
check_results [] = ok tt
check_results ((k, r) ∷ m) = do refuse (bad_key k r.id) (key_not_exact k); check_results m

unfoldable pub check_artifacts : Dict ArtifactRecord → Result DecodeError (Unit {0})
check_artifacts [] = ok tt
check_artifacts ((k, a) ∷ m) = do refuse (bad_key k a.id) (key_not_exact k); check_artifacts m

abbrev pub required : {A : Type 0} → DecodeError → Option (Option A) → Result DecodeError A
required e none = err not_json
required e (some none) = err e
required e (some (some a)) = ok a

-- `DecodeAnalysisResults`.
unfoldable pub decode_analysis_results :
    (String → Option (Option (Dict AnalysisResult)))
    → String
    → Result DecodeError (Dict AnalysisResult)
decode_analysis_results json raw =
    if raw == "" then ok [] else (do m ← required not_an_object (json raw); check_results m; ok m)

-- `DecodeArtifactRecords`.
unfoldable pub decode_artifact_records :
    (String → Option (Option (Dict ArtifactRecord)))
    → String
    → Result DecodeError (Dict ArtifactRecord)
decode_artifact_records json raw =
    if raw == "" then ok [] else (do m ← required not_an_object (json raw); check_artifacts m; ok m)

abbrev as_decode_error : Result ReportError (Unit {0}) → Result DecodeError (Unit {0})
as_decode_error (ok t) = ok t
as_decode_error (err e) = err (invalid_ref e)

-- `DecodeEvidenceRefs`.
unfoldable pub decode_evidence_refs :
    (String → Option (Option (List EvidenceRef))) → String → Result DecodeError (List EvidenceRef)
decode_evidence_refs json raw = if raw == "" then ok [] else (do
  refs ← required not_an_array (json raw)
  as_decode_error (validate_sources refs)
  ok refs)
