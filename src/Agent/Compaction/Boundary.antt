-- ===== src/Agent/Compaction/Boundary.antt =====
-- A boundary never cuts a run of results from the message that asked for them.
use open_data_analysis.Common.{
  ℕ, zero, suc, ◌≤◌, ◌<◌, String, Bool, true, false, ◌||◌, ◌==◌, ltb, none, some, List, [], ◌∷◌,
  ◌≡◌, refl, sym, subst, arith, length, drop, get_elem?, leb, eqb, Bool-cases, Option-cases, inl,
  inr, eq_of_test, other_test,
}
use open_data_analysis.Agent.History.{ConversationItem, is_tool, asks}
use open_data_analysis.Agent.History.Protocol.{IsProtocolFrom, IsProtocol}
use open_data_analysis.Agent.Compaction.{
  is_user, is_turn, holds, count_results, turn_before, owner_before, boundary_at,
  adjust_compaction_boundary,
}

-- No result stands at the position.
abbrev pub IsClean : List ConversationItem → ℕ → Type 0
IsClean h b = holds is_tool (get_elem? h b) ≡ false

front-IsClean : (skip : String) (xs : List ConversationItem) → IsProtocol skip xs → IsClean xs 0
front-IsClean skip [] p = refl
front-IsClean skip (x ∷ xs) p = elim (Bool-cases (is_tool x)) [
  | inl e ↦ absurd (ground (arith, (p.0 e).0))
  | inr e ↦ e
]

other_role :
    (x : ConversationItem) (r q : String)
    → (x.role == r) ≡ true
    → (r == q) ≡ false
    → (x.role == q) ≡ false
other_role x r q e n = other_test x.role r q (eq_of_test x.role r e) n

-- A turn is no result and asks for nothing.
pub turn_facts : (x : ConversationItem) → is_turn x ≡ true → (is_tool x ≡ false) × (asks x ≡ false)
turn_facts x t = elim (Bool-cases (is_user x)) [
  | inl u ↦
      let n : (x.role == "assistant") ≡ false = other_role x "user" "assistant" u refl in
      (other_role x "user" "tool" u refl, ground arith)
  | inr u ↦
      let e : (x.role == "assistant") ≡ true = ground arith in
      (other_role x "assistant" "tool" e refl, ground arith)
]

asks_facts : (x : ConversationItem) → asks x ≡ true → is_tool x ≡ false
asks_facts x a = other_role x "assistant" "tool" (ground arith) refl

-- The protocol holds from any later item on.
pub rest-IsProtocol :
    (skip : String) (owned : Bool) (x : ConversationItem) (xs : List ConversationItem)
    → IsProtocolFrom skip owned (x ∷ xs)
    → (o : Bool) × IsProtocolFrom skip o xs
rest-IsProtocol skip owned x xs p = elim (Bool-cases (is_tool x)) [
  | inl e ↦ (owned, (p.0 e).1)
  | inr e ↦ (asks x, (p.1 e).1)
]

-- After a turn comes no result.
turn-IsClean :
    (skip : String) (owned : Bool) (h : List ConversationItem) (k : ℕ)
    → IsProtocolFrom skip owned h
    → holds is_turn (get_elem? h k) ≡ true
    → IsClean h (suc k)
turn-IsClean skip owned [] k p t = refl
turn-IsClean skip owned (x ∷ xs) zero p t =
    let (n, a) = turn_facts x t in
    front-IsClean skip xs (subst (λ o. IsProtocolFrom skip o xs) a (p.1 n).1)
turn-IsClean skip owned (x ∷ xs) (suc k) p t =
    let (o, q) = rest-IsProtocol skip owned x xs p in turn-IsClean skip o xs k q t

turn_before-IsClean :
    (skip : String) (h : List ConversationItem) (n k b : ℕ)
    → IsProtocol skip h
    → turn_before h n k ≡ some b
    → IsClean h b × (b ≤ k)
unfolding turn_before
turn_before-IsClean skip h zero k b p e = absurd (ground arith)
turn_before-IsClean skip h (suc n) zero b p e = absurd (ground arith)
turn_before-IsClean skip h (suc n) (suc k) b p e =
    elim (Bool-cases (holds is_turn (get_elem? h k))) [
      | inl t ↦
          let eq : suc k ≡ b = ground arith in
          subst (λ c. IsClean h c × (c ≤ suc k)) eq (turn-IsClean skip false h k p t, omega arith)
      | inr t ↦ let (c, l) = turn_before-IsClean skip h n k b p (ground arith) in (c, omega arith)
    ]

owner_before-IsClean :
    (h : List ConversationItem) (b i : ℕ) (x : ConversationItem)
    → owner_before h b ≡ some (i, x)
    → IsClean h i × (i < b)
unfolding owner_before
owner_before-IsClean h zero i x e = absurd (ground arith)
owner_before-IsClean h (suc b) i x e = elim (Option-cases (get_elem? h b)) [
  | inl g ↦ let (c, l) = owner_before-IsClean h b i x (ground arith) in (c, omega arith)
  | inr (y, g) ↦ elim (Bool-cases (asks y)) [
    | inr a ↦ let (c, l) = owner_before-IsClean h b i x (ground arith) in (c, omega arith)
    | inl a ↦
        let here : IsClean h b = subst (λ o. holds is_tool o ≡ false) (sym g) (asks_facts y a) in
        let eq : b ≡ i = ground arith in
        subst (λ j. IsClean h j × (j < suc b)) eq (here, omega arith)
  ]
]

no_owner :
    (x : ConversationItem) (xs : List ConversationItem) (b : ℕ)
    → owner_before (x ∷ xs) (suc b) ≡ none
    → (asks x ≡ false) × (owner_before xs b ≡ none)
unfolding owner_before
no_owner x xs zero e = ground arith
no_owner x xs (suc b) e = elim (Option-cases (get_elem? xs b)) [
  | inl g ↦ let (a, o) = no_owner x xs b (ground arith) in (a, rw (owner_before, g) o)
  | inr (y, g) ↦ elim (Bool-cases (asks y)) [
    | inl a ↦ absurd (ground arith)
    | inr n ↦ let (a, o) = no_owner x xs b (ground arith) in (a, rw (owner_before, g, n) o)
  ]
]

-- A result has an owner before it.
owned_result :
    (skip : String) (h : List ConversationItem) (b : ℕ)
    → IsProtocol skip h
    → owner_before h b ≡ none
    → IsClean h b
owned_result skip [] b p e = refl
owned_result skip (x ∷ xs) zero p e = front-IsClean skip (x ∷ xs) p
owned_result skip (x ∷ xs) (suc b) p e =
    let (a, o) = no_owner x xs b e in
    let n : is_tool x ≡ false = front-IsClean skip (x ∷ xs) p in
    owned_result skip xs b (subst (λ q. IsProtocolFrom skip q xs) a (p.1 n).1) o

boundary_at-IsClean :
    (skip : String) (h : List ConversationItem) (i b : ℕ) (x : ConversationItem)
    → IsProtocol skip h
    → owner_before h b ≡ some (i, x)
    → IsClean h (boundary_at h i x) × (boundary_at h i x ≤ b)
unfolding boundary_at
boundary_at-IsClean skip h i b x p e =
    let (c, l) = owner_before-IsClean h b i x e in
    elim (Bool-cases
      (ltb (count_results (length x.tool_calls) (drop (suc i) h)) (length x.tool_calls))) [
        | inr d ↦ rw d (c, omega arith)
        | inl d ↦ elim (Option-cases (turn_before h 5 i)) [
          | inl f ↦ rw (d, f) (c, omega arith)
          | inr (k, f) ↦
              let (ck, lk) = turn_before-IsClean skip h 5 i k p f in rw (d, f) (ck, omega arith)
        ]
      ]

get_elem_end : (h : List ConversationItem) (b : ℕ) → length h ≤ b → get_elem? h b ≡ none
get_elem_end [] b l = refl
get_elem_end (x ∷ xs) zero l = absurd (omega arith)
get_elem_end (x ∷ xs) (suc b) l = get_elem_end xs b (omega arith)

edge-IsClean :
    (skip : String) (h : List ConversationItem) (b : ℕ)
    → IsProtocol skip h
    → (eqb b 0 || leb (length h) b) ≡ true
    → IsClean h b
edge-IsClean skip h b p e = elim (Bool-cases (eqb b 0)) [
  | inl z ↦ let zero_b : 0 ≡ b = ground arith in subst (IsClean h) zero_b (front-IsClean skip h p)
  | inr z ↦ rw (get_elem_end h b (ground arith)) refl
]

-- The adjusted boundary of a history that keeps the protocol is not at a result, and not after the
-- one that was asked for.
pub adjust_compaction_boundary-IsClean :
    (skip : String) (h : List ConversationItem) (b : ℕ)
    → IsProtocol skip h
    → IsClean h (adjust_compaction_boundary h b) × (adjust_compaction_boundary h b ≤ b)
unfolding adjust_compaction_boundary
adjust_compaction_boundary-IsClean skip h b p = elim (Bool-cases (eqb b 0 || leb (length h) b)) [
  | inl e ↦ rw e (edge-IsClean skip h b p e, omega arith)
  | inr e ↦ elim (Bool-cases (holds is_tool (get_elem? h b))) [
    | inr t ↦ rw (e, t) (t, omega arith)
    | inl t ↦ elim (Option-cases (owner_before h b)) [
      | inl o ↦ rw (e, t, o) (owned_result skip h b p o, omega arith)
      | inr ((i, x), o) ↦ rw (e, t, o) (boundary_at-IsClean skip h i b x p o)
    ]
  ]
]
