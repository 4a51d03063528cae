-- ===== src/Tools/Report/Evidence.antt =====
-- server/tools/report_state.go: what `validateEvidenceRefShape` accepts.
use open_data_analysis.Common.{
  true, List, [], ◌∷◌, ◌≡◌, ◌≢◌, ◌⊎◌, ◌↔◌, inl, inr, refl, arith, eq_iff, trim_space, All, is_exact,
  ◌&&◌, eq_test, ne_test, other_test, Result-cases, ok,
}
use open_data_analysis.Tools.Report.{EvidenceRef, validate_evidence_ref_shape, validate_sources}

-- A reference names one record, by the field of its kind, and no field has white space around it.
abbrev pub IsEvidence : EvidenceRef → Type 0
IsEvidence ref =
    ((ref.kind ≡ trim_space ref.kind)
      × (ref.result_id ≡ trim_space ref.result_id)
      × (ref.artifact_id ≡ trim_space ref.artifact_id)
      × (ref.chart_id ≡ trim_space ref.chart_id))
    × (((ref.kind ≡ "result") × (ref.result_id ≢ "") × (ref.artifact_id ≡ "") × (ref.chart_id ≡ ""))
        ⊎ ((ref.kind ≡ "artifact")
            × (ref.result_id ≡ "")
            × (ref.artifact_id ≢ "")
            × (ref.chart_id ≡ ""))
        ⊎ ((ref.kind ≡ "chart")
            × (ref.result_id ≡ "")
            × (ref.artifact_id ≡ "")
            × (ref.chart_id ≢ "")))

module _ (ref : EvidenceRef) where
  accepted : validate_evidence_ref_shape ref ≡ ok tt → IsEvidence ref
  unfolding validate_evidence_ref_shape
  accepted h = ground (
    arith,
    eq_iff ref.kind (trim_space ref.kind),
    eq_iff ref.result_id (trim_space ref.result_id),
    eq_iff ref.artifact_id (trim_space ref.artifact_id),
    eq_iff ref.chart_id (trim_space ref.chart_id),
    eq_iff ref.kind "result",
    eq_iff ref.kind "artifact",
    eq_iff ref.kind "chart",
    eq_iff ref.result_id "",
    eq_iff ref.artifact_id "",
    eq_iff ref.chart_id "",
  )

  exact_fields :
      IsEvidence ref
      → (is_exact ref.kind
          && is_exact ref.result_id
          && is_exact ref.artifact_id
          && is_exact ref.chart_id)
        ≡ true
  exact_fields ((k, r, a, c), h) = simp (eq_test _ _ k, eq_test _ _ r, eq_test _ _ a, eq_test _ _ c)

  refused_otherwise : IsEvidence ref → validate_evidence_ref_shape ref ≡ ok tt
  unfolding validate_evidence_ref_shape
  refused_otherwise (x, inl (k, r, a, c)) = simp (
    exact_fields (x, inl (k, r, a, c)),
    eq_test _ _ k,
    ne_test _ _ r,
    eq_test _ _ a,
    eq_test _ _ c,
  )
  refused_otherwise (x, inr (inl (k, r, a, c))) = simp (
    exact_fields (x, inr (inl (k, r, a, c))),
    eq_test _ _ k,
    eq_test _ _ r,
    ne_test _ _ a,
    eq_test _ _ c,
    other_test _ _ "result" k refl,
  )
  refused_otherwise (x, inr (inr (k, r, a, c))) = simp (
    exact_fields (x, inr (inr (k, r, a, c))),
    eq_test _ _ k,
    eq_test _ _ r,
    eq_test _ _ a,
    ne_test _ _ c,
    other_test _ _ "result" k refl,
    other_test _ _ "artifact" k refl,
  )

  -- A reference is accepted exactly when it names one record by the field of its kind, exactly.
  pub validate_evidence_ref_shape_iff : (validate_evidence_ref_shape ref ≡ ok tt) ↔ IsEvidence ref
  validate_evidence_ref_shape_iff = (accepted, refused_otherwise)

pub validate_sources-All :
    (refs : List EvidenceRef) → validate_sources refs ≡ ok tt → All IsEvidence refs
unfolding validate_sources
validate_sources-All [] h = tt
validate_sources-All (ref ∷ refs) h = elim (Result-cases (validate_evidence_ref_shape ref)) [
  | inl (u, e) ↦
      ((validate_evidence_ref_shape_iff ref).0 e, validate_sources-All refs (ground arith))
  | inr (x, e) ↦ absurd (ground arith)
]
