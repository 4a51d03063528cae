-- ===== src/Tools/Report/Projection.antt =====
-- server/tools/report_guardrails.go: the text of a block as the reader sees it, with the range of
-- source runes behind each visible rune. Runes are code points. `html.UnescapeString` is a
-- parameter: Go's table of entities is not part of the repository.
pub mod Bounds
use open_data_analysis.Common.{
  ℕ, zero, suc, ◌+◌, ◌-◌, Bool, true, false, not, ◌&&◌, ◌||◌, List, [], ◌∷◌, ◌++◌, map, Option,
  none, some, leb, ltb, eqb, if◌then◌else◌, length, take, drop, is_space,
}

pub record ProjectedRune : Type 0 where
  pub value : ℕ
  pub raw_start : ℕ
  pub raw_end : ℕ

unfoldable pub list_eq : List ℕ → List ℕ → Bool
list_eq [] [] = true
list_eq (a ∷ as') (b ∷ bs) = eqb a b && list_eq as' bs
list_eq _ _ = false

-- `findRuneForward`, relative to the list; `none` is -1.
unfoldable pub find_rune_forward : List ℕ → ℕ → Option ℕ
find_rune_forward [] target = none
find_rune_forward (c ∷ rest) target =
    let found = find_rune_forward rest target in
    if eqb c target then some 0 else elim found [ none ↦ none | some j ↦ some (suc j) ]

-- `runes[0] == target`, false at the end.
abbrev pub head_is : List ℕ → ℕ → Bool
head_is [] target = false
head_is (c ∷ rest) target = eqb c target

-- A link's text `…](…)`, after the opening bracket: how many runes the text has, and how many
-- follow it up to the closing parenthesis, that one included.
unfoldable pub link_shape : List ℕ → Option (ℕ × ℕ)
link_shape runes = elim (find_rune_forward runes b']') [
  | none ↦ none
  | some text ↦
      if head_is (drop (suc text) runes) b'('
      then (elim (find_rune_forward (drop (suc (suc text)) runes) b')') [
        | none ↦ none
        | some link ↦ some (text, link + 3)
      ])
      else none
]

-- `isMarkdownSyntaxRune`; `prev` is the rune before, if there is one.
unfoldable pub is_markdown_syntax_rune : Option ℕ → ℕ → List ℕ → Bool
is_markdown_syntax_rune prev ch rest =
    if eqb ch b'*' || eqb ch b'`'
    then true
    else if eqb ch b'#'
    then (elim prev [ none ↦ true | some p ↦ eqb p 10 ]) && (head_is rest b' ' || head_is rest b'#')
    else false

abbrev rune_at : ℕ → ℕ → ProjectedRune
rune_at i ch = record { value = ch; raw_start = i; raw_end = i + 1 }

abbrev pub runes_of : ℕ → ℕ → List ℕ → List ProjectedRune
runes_of i width = map (λ c. record { value = c; raw_start = i; raw_end = i + width })

module _ (unescape : List ℕ → List ℕ) where
  -- `decodeHTMLEntityAt` at `ch ∷ rest`: the decoded runes and how many runes they stand for.
  unfoldable pub decode_html_entity_at : ℕ → List ℕ → Option (List ℕ × ℕ)
  unfolding find_rune_forward list_eq
  decode_html_entity_at ch rest =
      if not (eqb ch b'&') then none else (elim (find_rune_forward rest b';') [
        | none ↦ none
        | some j ↦
            if ltb 32 (suc j)
            then none
            else (let raw = ch ∷ take (suc j) rest in
                if list_eq (unescape raw) raw then none else some (unescape raw, j + 2))
      ])

  -- `appendProjectedRuneRange`: `n` runes of the range are left; an entity counts only if it ends
  -- in the range.
  unfoldable pub project_range : ℕ → ℕ → ℕ → List ℕ → List ProjectedRune
  project_range i n skip [] = []
  project_range i zero skip (ch ∷ rest) = []
  project_range i (suc n) (suc skip) (ch ∷ rest) = project_range (suc i) n skip rest
  project_range i (suc n) zero (ch ∷ rest) = elim (decode_html_entity_at ch rest) [
    | none ↦ rune_at i ch ∷ project_range (suc i) n 0 rest
    | some (decoded, width) ↦ elim (leb width (suc n)) [
      | true ↦ runes_of i width decoded ++ project_range (suc i) n (width - 1) rest
      | false ↦ rune_at i ch ∷ project_range (suc i) n 0 rest
    ]
  ]

  -- One round of the loop of `projectReportContentText` at rune `i`: what is appended, and how many
  -- of the following runes are skipped. Each test that fails falls through to the next.
  unfoldable pub project_entity : ℕ → ℕ → List ℕ → Option (List ProjectedRune × ℕ)
  project_entity i ch rest = elim (decode_html_entity_at ch rest) [
    | none ↦ none
    | some (decoded, width) ↦ some (runes_of i width decoded, width - 1)
  ]

  unfoldable pub project_tag : ℕ → List ℕ → Option (List ProjectedRune × ℕ)
  project_tag ch rest =
      if eqb ch b'<'
      then (elim (find_rune_forward rest b'>') [ none ↦ none | some j ↦ some ([], j + 1) ])
      else none

  unfoldable pub project_image : ℕ → ℕ → List ℕ → Option (List ProjectedRune × ℕ)
  project_image i ch rest =
      if eqb ch b'!' && head_is rest b'['
      then (elim (link_shape (drop 1 rest)) [
        | none ↦ none
        | some (text, tail) ↦ some (project_range (i + 2) text 0 (drop 1 rest), text + tail + 1)
      ])
      else none

  unfoldable pub project_link : ℕ → ℕ → List ℕ → Option (List ProjectedRune × ℕ)
  project_link i ch rest =
      if eqb ch b'['
      then (elim (link_shape rest) [
        | none ↦ none
        | some (text, tail) ↦ some (project_range (i + 1) text 0 rest, text + tail)
      ])
      else none

  unfoldable pub project_plain : ℕ → Option ℕ → ℕ → List ℕ → List ProjectedRune × ℕ
  project_plain i prev ch rest =
      if is_markdown_syntax_rune prev ch rest
      then ([], 0)
      else (elim (decode_html_entity_at ch rest) [
        | none ↦ (rune_at i ch ∷ [], 0)
        | some (decoded, width) ↦ (runes_of i width decoded, 0)
      ])

  abbrev or_else {ℓ} : {A : Type ℓ} → Option A → A → A
  or_else none d = d
  or_else (some a) d = a

  unfoldable pub project_step : ℕ → Option ℕ → ℕ → List ℕ → List ProjectedRune × ℕ
  project_step i prev ch rest = or_else (project_entity i ch rest) (
      or_else (project_tag ch rest) (
        or_else (project_image i ch rest)
          (or_else (project_link i ch rest) (project_plain i prev ch rest))))

  -- The loop, at rune `i`, with `skip` runes to pass over.
  unfoldable pub project_from : ℕ → Option ℕ → ℕ → List ℕ → List ProjectedRune
  project_from i prev skip [] = []
  project_from i prev (suc skip) (ch ∷ rest) = project_from (suc i) (some ch) skip rest
  project_from i prev zero (ch ∷ rest) =
      let (out, skip) = project_step i prev ch rest in
      out ++ project_from (suc i) (some ch) skip rest

  unfoldable pub project_report_content_text : List ℕ → List ProjectedRune
  project_report_content_text content = project_from 0 none 0 content
