-- ===== src/Tools/Report/Layout/Laws.antt =====
-- What every call on the layout keeps, on its errors too.
use open_data_analysis.Common.{
  ℕ, ◌≤◌, ◌++◌, String, List, [], ◌∷◌, All, all, sym, true, not, ◌||◌, ◌==◌, ◌≡◌, ◌≢◌, ◌⊎◌, inl,
  inr, refl, arith, codes, ltb, ok, Bool-cases, Result-cases, is_space,
}
use open_data_analysis.Tools.Report.{
  ReportLayout, ReportState, next_version, validate_exact_report_field,
}
use open_data_analysis.Tools.Report.Layout.{
  LayoutParams, LayoutResult, flush, fields, is_class_rune, safe_fields, join, sanitize_body_class,
  byte_length, max_custom_css_size, is_body_class, merge_body_class, merge_layout, reset_layout,
  apply_report_layout_mutation,
}
use open_data_analysis.Tools.Report.Scope.Selection.{list_eq→eq}

-- A letter from a to z or A to Z, a digit, a hyphen or an underscore.
abbrev pub IsClassRune : ℕ → Type 0
IsClassRune r =
    ((97 ≤ r) × (r ≤ 122)) ⊎ ((65 ≤ r) × (r ≤ 90)) ⊎ ((48 ≤ r) × (r ≤ 57)) ⊎ (r ≡ 45) ⊎ (r ≡ 95)

abbrev pub IsClassName : List ℕ → Type 0
IsClassName w = (w ≢ []) × All IsClassRune w

-- Names of classes with one space between each two.
abbrev pub IsClassList : List ℕ → Type 0
IsClassList v = (ws : List (List ℕ)) × All IsClassName ws × (v ≡ join ws)

-- The style sheet has at most 10240 bytes, and the body class is a list of class names.
abbrev pub IsSafe : ReportLayout → Type 0
IsSafe l = (byte_length (codes l.custom_css) ≤ 10240) × IsClassList (codes l.body_class)

flush-All :
    (P : List ℕ → Type 0) (w : List ℕ) (ws : List (List ℕ))
    → (w ≢ [] → P w)
    → All P ws
    → All P (flush w ws)
flush-All P [] ws h a = a
flush-All P (c ∷ w) ws h a = (h (λ q. absurd (ground (arith, q))), a)

-- No field is empty.
fields-nonempty : (w cs : List ℕ) → All (λ v. v ≢ []) (fields w cs)
unfolding fields
fields-nonempty w [] = flush-All (λ v. v ≢ []) w [] (λ n. n) tt
fields-nonempty w (c ∷ cs) = elim (Bool-cases (is_space c)) [
  | inl e ↦
      rw (fields, e) (flush-All (λ v. v ≢ []) w (fields [] cs) (λ n. n) (fields-nonempty [] cs))
  | inr e ↦ rw (fields, e) (fields-nonempty (w ++ c ∷ []) cs)
]

is_class_rune-IsClassRune : (r : ℕ) → is_class_rune r ≡ true → IsClassRune r
unfolding is_class_rune
is_class_rune-IsClassRune r h = ground (arith, h)

all-IsClassRune : (w : List ℕ) → all is_class_rune w ≡ true → All IsClassRune w
all-IsClassRune [] h = tt
all-IsClassRune (r ∷ w) h =
    (is_class_rune-IsClassRune r (ground (arith, h)), all-IsClassRune w (ground (arith, h)))

safe_fields-IsClassName :
    (ws : List (List ℕ)) → All (λ w. w ≢ []) ws → All IsClassName (safe_fields ws)
unfolding safe_fields
safe_fields-IsClassName [] a = tt
safe_fields-IsClassName (w ∷ ws) a = elim (Bool-cases (all is_class_rune w)) [
  | inl e ↦ rw (safe_fields, e) ((a.0, all-IsClassRune w e), safe_fields-IsClassName ws a.1)
  | inr e ↦ rw (safe_fields, e) (safe_fields-IsClassName ws a.1)
]

is_body_class-IsClassList : (v : String) → is_body_class v ≡ true → IsClassList (codes v)
unfolding is_body_class sanitize_body_class
is_body_class-IsClassList v h = (
  safe_fields (fields [] (codes v)),
  safe_fields-IsClassName (fields [] (codes v)) (fields-nonempty [] (codes v)),
  sym (list_eq→eq (sanitize_body_class (codes v)) (codes v) h),
)

merge_body_class-IsSafe :
    (p : LayoutParams) (s : ReportState) → IsSafe s.layout → IsSafe (merge_body_class p s).0.layout
unfolding merge_body_class
merge_body_class-IsSafe p s h = elim (Bool-cases (p.body_class == "")) [
  | inl e ↦ rw e h
  | inr e ↦ elim (Bool-cases (is_body_class p.body_class)) [
    | inl f ↦ rw (e, f) (h.0, is_body_class-IsClassList p.body_class f)
    | inr f ↦ rw (e, f) h
  ]
]

merge_layout-IsSafe :
    (p : LayoutParams) (s : ReportState) → IsSafe s.layout → IsSafe (merge_layout p s).0.layout
unfolding merge_layout
merge_layout-IsSafe p s h = elim (Bool-cases (p.custom_css == "")) [
  | inl e ↦ elim (Bool-cases (p.body_class == "")) [
    | inl f ↦ rw (e, f) h
    | inr f ↦ rw (e, f) (merge_body_class-IsSafe p s h)
  ]
  | inr e ↦ elim (Bool-cases (ltb max_custom_css_size (byte_length (codes p.custom_css)))) [
    | inl f ↦ rw (e, f) h
    | inr f ↦
        rw (e, f)
          (merge_body_class-IsSafe p
            (record s {
              layout = record { custom_css = p.custom_css; body_class = s.layout.body_class };
            })
            (ground arith, h.1))
  ]
]

empty-IsSafe : IsSafe (record { custom_css = ""; body_class = "" })
unfolding byte_length join
empty-IsSafe = (omega arith, ([], tt, refl))

reset_layout-IsSafe :
    (p : LayoutParams) (s : ReportState) → IsSafe s.layout → IsSafe (reset_layout p s).0.layout
unfolding reset_layout
reset_layout-IsSafe p s h =
    elim (Bool-cases (not (p.custom_css == "") || not (p.body_class == ""))) [
      | inl e ↦ rw e h
      | inr e ↦ rw e empty-IsSafe
    ]

-- Whatever the call and its outcome, the style sheet stays within 10240 bytes and the body class
-- stays a list of class names, each of letters, digits, hyphens and underscores and none empty, with
-- single spaces between them.
pub apply_report_layout_mutation-IsSafe :
    (p : LayoutParams) (s : ReportState)
    → IsSafe s.layout
    → IsSafe (apply_report_layout_mutation p s).0.layout
unfolding apply_report_layout_mutation
apply_report_layout_mutation-IsSafe p s h =
    elim (Result-cases (validate_exact_report_field "action" p.action true)) [
      | inr (x, v) ↦ rw (apply_report_layout_mutation, v) h
      | inl (u, v) ↦ elim (Bool-cases (p.action == "reset")) [
        | inl e ↦ rw (apply_report_layout_mutation, v, e) (reset_layout-IsSafe p s h)
        | inr e ↦ elim (Bool-cases (p.action == "merge")) [
          | inl f ↦ rw (apply_report_layout_mutation, v, e, f) (merge_layout-IsSafe p s h)
          | inr f ↦ rw (apply_report_layout_mutation, v, e, f) h
        ]
      ]
    ]

abbrev pub Reopens : ReportState → ReportState → Type 0
Reopens s s' = s' ≡ record s {
  layout = s'.layout;
  needs_finalize = true;
  mutation_version = next_version s.mutation_version;
}

merge_body_class-Reopens :
    (p : LayoutParams) (s : ReportState) (r : LayoutResult)
    → (merge_body_class p s).1 ≡ ok r
    → Reopens s (merge_body_class p s).0
unfolding merge_body_class
merge_body_class-Reopens p s r h = elim (Bool-cases (p.body_class == "")) [
  | inl e ↦ rw e refl
  | inr e ↦ elim (Bool-cases (is_body_class p.body_class)) [
    | inl f ↦ rw (e, f) refl
    | inr f ↦ absurd (ground arith)
  ]
]

merge_layout-Reopens :
    (p : LayoutParams) (s : ReportState) (r : LayoutResult)
    → (merge_layout p s).1 ≡ ok r
    → Reopens s (merge_layout p s).0
unfolding merge_layout
merge_layout-Reopens p s r h = elim (Bool-cases (p.custom_css == "")) [
  | inl e ↦ elim (Bool-cases (p.body_class == "")) [
    | inl f ↦ absurd (ground arith)
    | inr f ↦ rw (e, f) (merge_body_class-Reopens p s r (ground arith))
  ]
  | inr e ↦ elim (Bool-cases (ltb max_custom_css_size (byte_length (codes p.custom_css)))) [
    | inl f ↦ absurd (ground arith)
    | inr f ↦
        rw (e, f)
          (merge_body_class-Reopens p
            (record s {
              layout = record { custom_css = p.custom_css; body_class = s.layout.body_class };
            })
            r (ground arith))
  ]
]

reset_layout-Reopens :
    (p : LayoutParams) (s : ReportState) (r : LayoutResult)
    → (reset_layout p s).1 ≡ ok r
    → Reopens s (reset_layout p s).0
unfolding reset_layout
reset_layout-Reopens p s r h =
    elim (Bool-cases (not (p.custom_css == "") || not (p.body_class == ""))) [
      | inl e ↦ absurd (ground arith)
      | inr e ↦ rw e refl
    ]

-- A call that succeeds makes the report a draft again with the next version, and changes nothing
-- but the layout.
pub apply_report_layout_mutation-Reopens :
    (p : LayoutParams) (s : ReportState) (r : LayoutResult)
    → (apply_report_layout_mutation p s).1 ≡ ok r
    → Reopens s (apply_report_layout_mutation p s).0
unfolding apply_report_layout_mutation
apply_report_layout_mutation-Reopens p s r h =
    elim (Result-cases (validate_exact_report_field "action" p.action true)) [
      | inr (x, v) ↦ absurd (ground arith)
      | inl (u, v) ↦ elim (Bool-cases (p.action == "reset")) [
        | inl e ↦
            rw (apply_report_layout_mutation, v, e) (reset_layout-Reopens p s r (ground arith))
        | inr e ↦ elim (Bool-cases (p.action == "merge")) [
          | inl f ↦
              rw (apply_report_layout_mutation, v, e, f) (merge_layout-Reopens p s r (ground arith))
          | inr f ↦ absurd (ground arith)
        ]
      ]
    ]
