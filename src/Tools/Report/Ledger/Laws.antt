-- ===== src/Tools/Report/Ledger/Laws.antt =====
-- A ledger finds every record under its own id.
use open_data_analysis.Common.{
  String, true, Option, some, List, [], ◌∷◌, ◌≡◌, ◌≢◌, ◌⊎◌, inl, inr, refl, Dict, lookup, insert,
  lookup-insert, is_exact, ok, arith, eq_iff, eq_refl, sym, subst, All,
}
use open_data_analysis.Tools.Report.{EvidenceRef, AnalysisResult, ReportState, validate_sources}
use open_data_analysis.Tools.Report.Evidence.{IsEvidence, validate_sources-All}
use open_data_analysis.Tools.Report.Ledger.{
  record_result, check_results, decode_analysis_results, decode_evidence_refs,
}

-- Every record of the ledger stands under its own id, which is exact and not empty.
abbrev pub IsLedger : Dict AnalysisResult → Type 0
IsLedger m =
    (k : String) (r : AnalysisResult)
    → lookup k m ≡ some r
    → (k ≢ "") × (is_exact k ≡ true) × (r.id ≡ k)

checked-IsLedger : (m : Dict AnalysisResult) → check_results m ≡ ok tt → IsLedger m
unfolding check_results lookup
checked-IsLedger [] h k r f = absurd (ground arith)
checked-IsLedger ((j, x) ∷ m) h k r f =
    let ih = checked-IsLedger m (ground arith) k r in
    ground (arith, ih, eq_iff j k, eq_iff k "", eq_iff j "", eq_iff x.id j)

checked_nil : check_results [] ≡ ok tt
unfolding check_results
checked_nil = refl

decoded_results :
    (json : String → Option (Option (Dict AnalysisResult))) (raw : String) (m : Dict AnalysisResult)
    → decode_analysis_results json raw ≡ ok m
    → (m ≡ []) ⊎ (check_results m ≡ ok tt)
unfolding decode_analysis_results
decoded_results json raw m h = ground arith

-- A ledger that is decoded from a stored text is well formed.
pub decode_analysis_results-IsLedger :
    (json : String → Option (Option (Dict AnalysisResult))) (raw : String) (m : Dict AnalysisResult)
    → decode_analysis_results json raw ≡ ok m
    → IsLedger m
decode_analysis_results-IsLedger json raw m h = elim (decoded_results json raw m h) [
  | inl e ↦ subst IsLedger (sym e) (checked-IsLedger [] (checked_nil))
  | inr c ↦ checked-IsLedger m c
]

-- Recording a result keeps the ledger well formed; the record is then found under its id, and
-- every other id finds what it found before.
pub record_result-IsLedger :
    (r : AnalysisResult) (s s' : ReportState)
    → IsLedger s.results
    → record_result r s ≡ ok s'
    → IsLedger s'.results
      × (lookup r.id s'.results ≡ some r)
      × ((k : String) → k ≢ r.id → lookup k s'.results ≡ lookup k s.results)
unfolding record_result
record_result-IsLedger r s s' l h =
    let e : s'.results ≡ insert r.id r s.results = ground arith in
    let exact : (r.id ≢ "") × (is_exact r.id ≡ true) = ground (arith, eq_iff r.id "") in
    rw e (
      λ k x f.
          ground (
            arith,
            l k x,
            lookup-insert r.id k r s.results,
            eq_iff r.id k,
            eq_iff r.id "",
            exact.1,
          ),
      ground (arith, lookup-insert r.id r.id r s.results, eq_refl r.id),
      λ k n. ground (arith, lookup-insert r.id k r s.results, eq_iff r.id k),
    )

decoded_refs :
    (json : String → Option (Option (List EvidenceRef))) (raw : String) (refs : List EvidenceRef)
    → decode_evidence_refs json raw ≡ ok refs
    → (refs ≡ []) ⊎ (validate_sources refs ≡ ok tt)
unfolding decode_evidence_refs
decoded_refs json raw refs h = ground arith

-- Evidence references that are decoded from a stored text each name one record.
pub decode_evidence_refs-All :
    (json : String → Option (Option (List EvidenceRef))) (raw : String) (refs : List EvidenceRef)
    → decode_evidence_refs json raw ≡ ok refs
    → All IsEvidence refs
decode_evidence_refs-All json raw refs h = elim (decoded_refs json raw refs h) [
  | inl e ↦ subst (All IsEvidence) (sym e) tt
  | inr c ↦ validate_sources-All refs c
]
