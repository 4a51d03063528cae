-- ===== src/Tools/Report/Projection/Bounds.antt =====
-- The source ranges of the projected runes: inside the text, not empty, in the order of the text.
use open_data_analysis.Common.{
  subst, ℕ, zero, suc, ◌+◌, ◌-◌, ◌≤◌, ◌<◌, List, [], ◌∷◌, ◌++◌, Option, none, some, ◌≡◌, inl, inr,
  arith, leb, length, drop, length-drop, Option-cases, Bool-cases,
}
use open_data_analysis.Tools.Report.Projection.{
  ProjectedRune, find_rune_forward, link_shape, runes_of, rune_at, decode_html_entity_at,
  project_range, project_entity, project_tag, project_image, project_link, project_plain,
  project_step, project_from, project_report_content_text, is_markdown_syntax_rune,
}

-- The ranges lie in [lo, hi), none is empty, and none starts before the one in front of it.
abbrev pub Ordered : ℕ → ℕ → List ProjectedRune → Type 0
Ordered lo hi [] = Unit
Ordered lo hi (r ∷ rs) =
    (lo ≤ r.raw_start) × (r.raw_start < r.raw_end) × (r.raw_end ≤ hi) × Ordered r.raw_start hi rs

Ordered-weaken :
    (lo lo' hi hi' : ℕ) (rs : List ProjectedRune)
    → lo' ≤ lo
    → hi ≤ hi'
    → Ordered lo hi rs
    → Ordered lo' hi' rs
Ordered-weaken lo lo' hi hi' [] p q h = tt
Ordered-weaken lo lo' hi hi' (r ∷ rs) p q (a, b, c, d) = (
  omega arith,
  b,
  omega arith,
  Ordered-weaken r.raw_start r.raw_start hi hi' rs (omega arith) q d,
)

Ordered-append :
    (lo mid hi : ℕ) (xs ys : List ProjectedRune)
    → lo ≤ mid
    → mid ≤ hi
    → Ordered lo mid xs
    → Ordered mid hi ys
    → Ordered lo hi (xs ++ ys)
Ordered-append lo mid hi [] ys p q h k = Ordered-weaken mid lo hi hi ys p (omega arith) k
Ordered-append lo mid hi (x ∷ xs) ys p q (a, b, c, d) k =
    (a, b, omega arith, Ordered-append x.raw_start mid hi xs ys (omega arith) q d k)

runes_of-Ordered :
    (i width : ℕ) (cs : List ℕ) → 0 < width → Ordered i (i + width) (runes_of i width cs)
runes_of-Ordered i width [] h = tt
runes_of-Ordered i width (c ∷ cs) h =
    (omega arith, omega arith, omega arith, runes_of-Ordered i width cs h)

find_rune_forward-lt :
    (rest : List ℕ) (target : ℕ) {j : ℕ} → find_rune_forward rest target ≡ some j → j < length rest
unfolding find_rune_forward
find_rune_forward-lt [] target h = absurd (ground arith)
find_rune_forward-lt (c ∷ rest) target {j} h = elim (Option-cases (find_rune_forward rest target)) [
  | inl e ↦ ground arith
  | inr (k, e) ↦ let lt = find_rune_forward-lt rest target e in ground arith
]

link_shape-le :
    (runes : List ℕ) {text tail : ℕ}
    → link_shape runes ≡ some (text, tail)
    → (text + tail ≤ length runes) × (3 ≤ tail)
unfolding link_shape
link_shape-le runes {text} {tail} h = elim (Option-cases (find_rune_forward runes b']')) [
  | inl e ↦ absurd (ground arith)
  | inr (t, e) ↦ elim (Option-cases (find_rune_forward (drop (suc (suc t)) runes) b')')) [
    | inl f ↦ absurd (ground arith)
    | inr (l, f) ↦
        let lt = find_rune_forward-lt (drop (suc (suc t)) runes) b')' f in
        let len = length-drop (suc (suc t)) runes in ground arith
  ]
]

module _ (unescape : List ℕ → List ℕ) where
  decode-width :
      (ch : ℕ) (rest : List ℕ) {out : List ℕ} {width : ℕ}
      → decode_html_entity_at unescape ch rest ≡ some (out, width)
      → (2 ≤ width) × (width ≤ suc (length rest))
  unfolding decode_html_entity_at
  decode-width ch rest {out} {width} h = elim (Option-cases (find_rune_forward rest b';')) [
    | inl e ↦ absurd (ground arith)
    | inr (j, e) ↦ let lt = find_rune_forward-lt rest b';' e in ground arith
  ]

  project_range-Ordered :
      (i n skip : ℕ) (rest : List ℕ)
      → skip ≤ n
      → n ≤ length rest
      → Ordered (i + skip) (i + n) (project_range unescape i n skip rest)
  unfolding project_range
  project_range-Ordered i n skip [] h k = tt
  project_range-Ordered i zero skip (ch ∷ rest) h k = tt
  project_range-Ordered i (suc n) (suc skip) (ch ∷ rest) h k =
      Ordered-weaken (suc i + skip) _ (suc i + n) _ _ (omega arith) (omega arith)
        (project_range-Ordered (suc i) n skip rest (omega arith) (omega arith))
  project_range-Ordered i (suc n) zero (ch ∷ rest) h k =
      let ih = project_range-Ordered (suc i) n 0 rest (omega arith) (omega arith) in
      let plain : Ordered (i + 0) (i + suc n)
          (rune_at i ch ∷ project_range unescape (suc i) n 0 rest) =
        (
          omega arith,
          omega arith,
          omega arith,
          Ordered-weaken _ _ _ _ _ (omega arith) (omega arith) ih,
        ) in
      elim (Option-cases (decode_html_entity_at unescape ch rest)) [
        | inl e ↦ rw (e, project_range) plain
        | inr ((out, width), e) ↦
            let (two, fits) = decode-width ch rest e in
            elim (Bool-cases (leb width (suc n))) [
              | inr long ↦ rw (e, long, project_range) plain
              | inl short ↦
                  rw (e, short, project_range)
                    (Ordered-append (i + 0) (i + width) (i + suc n) (runes_of i width out) _
                      (omega arith) (ground arith)
                      (Ordered-weaken _ _ _ _ _ (omega arith) (omega arith)
                        (runes_of-Ordered i width out (omega arith)))
                      (Ordered-weaken _ _ _ _ _ (omega arith) (omega arith) (
                        project_range-Ordered (suc i) n (width - 1) rest (ground arith)
                          (omega arith))))
            ]
      ]

  -- One round emits ranges that end before the next round begins, and skips no rune that is not there.
  abbrev StepFits : ℕ → List ℕ → List ProjectedRune × ℕ → Type 0
  StepFits i rest (out, skip) = Ordered i (i + suc skip) out × (skip ≤ length rest)

  entity_fits :
      (i ch : ℕ) (rest : List ℕ) {r : List ProjectedRune × ℕ}
      → project_entity unescape i ch rest ≡ some r
      → StepFits i rest r
  unfolding project_entity
  entity_fits i ch rest {r} h = elim (Option-cases (decode_html_entity_at unescape ch rest)) [
    | inl e ↦ absurd (ground arith)
    | inr ((out, width), e) ↦
        let (two, fits) = decode-width ch rest e in
        let x : List ProjectedRune × ℕ = (runes_of i width out, width - 1) in
        let eq : x ≡ r = ground arith in
        subst (StepFits i rest) eq (
          Ordered-weaken i i (i + width) (i + suc (width - 1)) (runes_of i width out) (omega arith)
              (omega arith) (runes_of-Ordered i width out (omega arith)),
          omega arith,
        )
  ]

  tag_fits :
      (i ch : ℕ) (rest : List ℕ) {r : List ProjectedRune × ℕ}
      → project_tag unescape ch rest ≡ some r
      → StepFits i rest r
  unfolding project_tag
  tag_fits i ch rest {r} h = elim (Option-cases (find_rune_forward rest b'>')) [
    | inl e ↦ absurd (ground arith)
    | inr (j, e) ↦
        let lt = find_rune_forward-lt rest b'>' e in
        let x : List ProjectedRune × ℕ = ([], j + 1) in
        let eq : x ≡ r = ground arith in subst (StepFits i rest) eq (tt, omega arith)
  ]

  link_fits :
      (i ch : ℕ) (rest : List ℕ) {r : List ProjectedRune × ℕ}
      → project_link unescape i ch rest ≡ some r
      → StepFits i rest r
  unfolding project_link
  link_fits i ch rest {r} h = elim (Option-cases (link_shape rest)) [
    | inl e ↦ absurd (ground arith)
    | inr ((text, tail), e) ↦
        let (fits, three) = link_shape-le rest e in
        let range = project_range-Ordered (i + 1) text 0 rest (omega arith) (omega arith) in
        subst (StepFits i rest) (ground arith) (
          let x : StepFits i rest (project_range unescape (i + 1) text 0 rest, text + tail) =
            (Ordered-weaken _ _ _ _ _ (omega arith) (omega arith) range, fits) in
          x)
  ]

  image_fits :
      (i ch : ℕ) (rest : List ℕ) {r : List ProjectedRune × ℕ}
      → project_image unescape i ch rest ≡ some r
      → StepFits i rest r
  unfolding project_image
  image_fits i ch [] {r} h = absurd (ground arith)
  image_fits i ch (c ∷ rest) {r} h = elim (Option-cases (link_shape rest)) [
    | inl e ↦ absurd (ground arith)
    | inr ((text, tail), e) ↦
        let (fits, three) = link_shape-le rest e in
        let range = project_range-Ordered (i + 2) text 0 rest (omega arith) (omega arith) in
        subst (StepFits i (c ∷ rest)) (ground arith) (
          let x : StepFits i (c ∷ rest)
              (project_range unescape (i + 2) text 0 rest, text + tail + 1) =
            (Ordered-weaken _ _ _ _ _ (omega arith) (omega arith) range, omega arith) in
          x)
  ]

  plain_fits :
      (i : ℕ) (prev : Option ℕ) (ch : ℕ) (rest : List ℕ)
      → decode_html_entity_at unescape ch rest ≡ none
      → StepFits i rest (project_plain unescape i prev ch rest)
  unfolding project_plain
  plain_fits i prev ch rest e = elim (Bool-cases (is_markdown_syntax_rune prev ch rest)) [
    | inl m ↦ rw (m, project_plain) (tt, omega arith)
    | inr m ↦ rw (m, e, project_plain) ((omega arith, omega arith, omega arith, tt), omega arith)
  ]

  project_step-StepFits :
      (i : ℕ) (prev : Option ℕ) (ch : ℕ) (rest : List ℕ)
      → StepFits i rest (project_step unescape i prev ch rest)
  unfolding project_step
  project_step-StepFits i prev ch rest = elim (Option-cases (project_entity unescape i ch rest)) [
    | inr (r, e) ↦ rw (e, project_step) (entity_fits i ch rest e)
    | inl e ↦ elim (Option-cases (project_tag unescape ch rest)) [
      | inr (r, f) ↦ rw (e, f, project_step) (tag_fits i ch rest f)
      | inl f ↦ elim (Option-cases (project_image unescape i ch rest)) [
        | inr (r, g) ↦ rw (e, f, g, project_step) (image_fits i ch rest g)
        | inl g ↦ elim (Option-cases (project_link unescape i ch rest)) [
          | inr (r, k) ↦ rw (e, f, g, k, project_step) (link_fits i ch rest k)
          | inl k ↦
              rw (e, f, g, k, project_step)
                (plain_fits i prev ch rest (unfold project_entity in ground arith))
        ]
      ]
    ]
  ]

  project_from-Ordered :
      (i : ℕ) (prev : Option ℕ) (skip : ℕ) (rest : List ℕ)
      → skip ≤ length rest
      → Ordered (i + skip) (i + length rest) (project_from unescape i prev skip rest)
  unfolding project_from
  project_from-Ordered i prev skip [] h = tt
  project_from-Ordered i prev (suc skip) (ch ∷ rest) h =
      Ordered-weaken _ _ _ _ _ (omega arith) (omega arith)
        (project_from-Ordered (suc i) (some ch) skip rest (omega arith))
  project_from-Ordered i prev zero (ch ∷ rest) h =
      let (out, skip) = project_step unescape i prev ch rest in
      let (ordered, fits) = project_step-StepFits i prev ch rest in
      Ordered-append (i + 0) (i + suc skip) (i + suc (length rest)) out _ (omega arith)
        (omega arith) (Ordered-weaken _ _ _ _ _ (omega arith) (omega arith) ordered)
        (Ordered-weaken _ _ _ _ _ (omega arith) (omega arith)
          (project_from-Ordered (suc i) (some ch) skip rest fits))

  -- Each visible rune stands for a non-empty range of the source, inside the source, and the ranges
  -- come in the order of the source.
  pub project_report_content_text-Ordered :
      (content : List ℕ) → Ordered 0 (length content) (project_report_content_text unescape content)
  unfolding project_report_content_text
  project_report_content_text-Ordered content =
      Ordered-weaken _ _ _ _ _ (omega arith) (omega arith)
        (project_from-Ordered 0 none 0 content (omega arith))
