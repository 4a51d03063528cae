-- ===== src/Tools/Report/Layout.antt =====
-- The layout of a report (server/tools/report_layout.go) and the test of its body class
-- (server/tools/report_html.go). A failed call returns the state as well, because it may have
-- changed it.
pub mod Laws
use open_data_analysis.Common.{
  ℕ, ◌+◌, String, Bool, true, false, not, ◌&&◌, ◌||◌, ◌==◌, List, [], ◌∷◌, ◌++◌, all, leb, ltb, eqb,
  codes, is_space, if◌then◌else◌, Result, ok, err,
}
use open_data_analysis.Tools.Report.{
  ReportLayout, ReportState, ReportError, next_version, validate_exact_report_field,
}
use open_data_analysis.Tools.Report.Projection.{list_eq}

pub record LayoutParams : Type 0 where
  pub action : String
  pub custom_css : String
  pub body_class : String

pub record LayoutResult : Type 0 where
  pub action : String
  pub has_custom_css : Bool
  pub body_class : String

pub data LayoutError : Type 0 where
  bad_field : ReportError → LayoutError
  reset_with_values merge_without_values css_too_large body_class_invalid : LayoutError
  unknown_action : String → LayoutError

-- `maxCustomCSSSize`.
abbrev pub max_custom_css_size : ℕ
max_custom_css_size = 10240

-- `len(s)`, the bytes of the UTF-8 form.
unfoldable pub byte_length : List ℕ → ℕ
byte_length [] = 0
byte_length (c ∷ cs) =
    let n = byte_length cs in
    (if ltb c 0x80 then 1 else if ltb c 0x800 then 2 else if ltb c 0x10000 then 3 else 4) + n

abbrev pub flush : List ℕ → List (List ℕ) → List (List ℕ)
flush [] ws = ws
flush (c ∷ w) ws = (c ∷ w) ∷ ws

-- `strings.Fields`, after the letters `w` of an unfinished word.
unfoldable pub fields : List ℕ → List ℕ → List (List ℕ)
fields w [] = flush w []
fields w (c ∷ cs) = elim (is_space c) [
  | true ↦ flush w (fields [] cs)
  | false ↦ fields (w ++ c ∷ []) cs
]

unfoldable pub is_class_rune : ℕ → Bool
is_class_rune r =
    (leb 97 r && leb r 122)
    || (leb 65 r && leb r 90)
    || (leb 48 r && leb r 57)
    || eqb r 45
    || eqb r 95

unfoldable pub safe_fields : List (List ℕ) → List (List ℕ)
safe_fields [] = []
safe_fields (w ∷ ws) = let rest = safe_fields ws in if all is_class_rune w then w ∷ rest else rest

-- `strings.Join(ws, " ")`.
unfoldable pub join : List (List ℕ) → List ℕ
join [] = []
join (w ∷ []) = w
join (w ∷ v ∷ ws) = w ++ 32 ∷ join (v ∷ ws)

-- `sanitizeBodyClass`.
unfoldable pub sanitize_body_class : List ℕ → List ℕ
sanitize_body_class value = join (safe_fields (fields [] value))

-- `sanitizeBodyClass(v) == v`.
unfoldable pub is_body_class : String → Bool
is_body_class v = list_eq (sanitize_body_class (codes v)) (codes v)

abbrev edited : ReportState → ReportState
edited s = record s { needs_finalize = true; mutation_version = next_version s.mutation_version }

-- The body class of a merge, on the state that already has the new style sheet.
unfoldable pub merge_body_class :
    LayoutParams → ReportState → ReportState × Result LayoutError LayoutResult
merge_body_class p s =
    if p.body_class == ""
    then (
      edited s,
      ok (record {
        action = p.action;
        has_custom_css = not (s.layout.custom_css == "");
        body_class = s.layout.body_class;
      }),
    )
    else if not (is_body_class p.body_class)
    then (s, err body_class_invalid)
    else (
      edited (record s {
        layout = record { custom_css = s.layout.custom_css; body_class = p.body_class };
      }),
      ok (record {
        action = p.action;
        has_custom_css = not (s.layout.custom_css == "");
        body_class = p.body_class;
      }),
    )

unfoldable pub merge_layout :
    LayoutParams → ReportState → ReportState × Result LayoutError LayoutResult
merge_layout p s =
    if p.custom_css == "" && p.body_class == ""
    then (s, err merge_without_values)
    else if p.custom_css == ""
    then merge_body_class p s
    else if ltb max_custom_css_size (byte_length (codes p.custom_css))
    then (s, err css_too_large)
    else merge_body_class p (record s {
      layout = record { custom_css = p.custom_css; body_class = s.layout.body_class };
    })

unfoldable pub reset_layout :
    LayoutParams → ReportState → ReportState × Result LayoutError LayoutResult
reset_layout p s =
    if not (p.custom_css == "") || not (p.body_class == "") then (s, err reset_with_values) else (
      edited (record s { layout = record { custom_css = ""; body_class = "" } }),
      ok (record { action = p.action; has_custom_css = false; body_class = "" }),
    )

-- `applyReportLayoutMutation`.
unfoldable pub apply_report_layout_mutation :
    LayoutParams → ReportState → ReportState × Result LayoutError LayoutResult
apply_report_layout_mutation p s = elim (validate_exact_report_field "action" p.action true) [
  | err e ↦ (s, err (bad_field e))
  | ok t ↦
      if p.action == "reset"
      then reset_layout p s
      else if p.action == "merge"
      then merge_layout p s
      else (s, err (unknown_action p.action))
]
