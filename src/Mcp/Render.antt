-- ===== src/Mcp/Render.antt =====
-- apps/mcp-server/src/main.rs: the text channel of a page of output, with its budget of bytes.
use mathlib.Core.List.{append_assoc, append-nil}
use ai_ssh.Base.{
  ℕ, ◌+◌, ◌-◌, ◌*◌, ◌≤◌, ◌<◌, ◌≡◌, ◌⊎◌, refl, ap, sym, ◌∙◌, Bool, true, false, not, ◌&&◌, List, [],
  ◌∷◌, ◌++◌, arith, inl, inr,
}
use ai_ssh.Base.Tests.{ltb, leb, ltb→lt, leb→le, if◌then◌else◌, Bool-cases}
use ai_ssh.Base.Lists.{is_empty}
use ai_ssh.Base.Text.{Text, codes, text_eq}
use ai_ssh.Base.Utf8.{len_utf8, byte_length}

abbrev pub text_render_bytes : ℕ
text_render_bytes = 8 * 1024

-- The characters that begin before the budget is used up.
abbrev pub take_before : (budget index : ℕ) → Text → Text
take_before budget index [] = []
take_before budget index (c ∷ s) =
    if ltb index budget then c ∷ take_before budget (index + len_utf8 c) s else []

-- `append_capped`: whether the value fits, the text, and the budget that is left.
unfoldable pub append_capped : (out value : Text) → (budget : ℕ) → Bool × Text × ℕ
append_capped out value budget =
    if leb (byte_length value) budget
    then (true, out ++ value, budget - byte_length value)
    else (false, out ++ take_before budget 0 value, 0)

abbrev pub capped_note : Text
capped_note = codes "\n[text rendering capped; use the structured payload or continue polling]\n"

-- An item is its text and its stream.
abbrev pub label : Text × Text → Text
label item =
    if not (text_eq item.1 (codes "stdout")) && not (is_empty item.0)
    then codes "[" ++ item.1 ++ codes "] "
    else []

-- The loop of `render_output_text`.
unfoldable pub render_items : (budget : ℕ) → (out : Text) → List (Text × Text) → Text
render_items budget out [] = out
render_items budget out (item ∷ items) =
    let added = append_capped (out ++ label item) item.0 budget in
    let rest = render_items added.2 added.1 items in
    if added.0 then rest else added.1 ++ capped_note

len_utf8_bounds : (c : ℕ) → (1 ≤ len_utf8 c) × (len_utf8 c ≤ 4)
len_utf8_bounds c = ground arith

take_before-le :
    (budget index : ℕ) (s : Text)
    → index + byte_length (take_before budget index s)
      ≤ (if ltb index budget then budget + 3 else index)
take_before-le budget index [] = ground arith
take_before-le budget index (c ∷ s) = elim (Bool-cases (ltb index budget)) [
  | inl starts ↦
      let width = len_utf8_bounds c in
      let later = take_before-le budget (index + len_utf8 c) s in
      elim (Bool-cases (ltb (index + len_utf8 c) budget)) [
        | inl more ↦ let up = rw more at later in rw starts (omega (arith, up))
        | inr done ↦
            let up = rw done at later in rw starts (omega (arith, up, ltb→lt index budget starts))
      ]
  | inr over ↦ rw over (omega arith)
]

take_before_reaches :
    (budget index : ℕ) (s : Text)
    → index ≤ budget
    → budget < index + byte_length s
    → budget ≤ index + byte_length (take_before budget index s)
take_before_reaches budget index [] h k = omega arith
take_before_reaches budget index (c ∷ s) h k = elim (Bool-cases (ltb index budget)) [
  | inl starts ↦ elim (Bool-cases (leb (index + len_utf8 c) budget)) [
    | inl more ↦
        let later =
          take_before_reaches budget (index + len_utf8 c) s (leb→le _ _ more) (omega arith) in
        rw starts (omega (arith, later))
    | inr done ↦ rw starts (ground (arith, done))
  ]
  | inr over ↦ rw over (ground (arith, over))
]

take_before_prefix :
    (budget index : ℕ) (s : Text) → (left : Text) × (s ≡ take_before budget index s ++ left)
take_before_prefix budget index [] = ([], refl)
take_before_prefix budget index (c ∷ s) = elim (Bool-cases (ltb index budget)) [
  | inl starts ↦
      let (left, e) = take_before_prefix budget (index + len_utf8 c) s in
      (left, rw starts (ap (◌∷◌ c) e))
  | inr over ↦ (c ∷ s, rw over refl)
]

-- A first part of the value is added, in whole characters. Either it is all of the value, within the
-- budget; or the value is longer than the budget, the part reaches the budget, and it may pass it by
-- three bytes at most, within its last character.
pub append_capped_lem :
    (out value : Text) (budget : ℕ)
    → let result = append_capped out value budget in
      (added : Text) × (left : Text) × (value ≡ added ++ left)
      × (result.1 ≡ out ++ added)
      × (((result.0 ≡ true) × (left ≡ []) × (byte_length value + result.2 ≡ budget))
          ⊎ ((result.0 ≡ false)
              × (result.2 ≡ 0)
              × (budget < byte_length value)
              × (budget ≤ byte_length added)
              × (byte_length added ≤ budget + 3)))
unfolding append_capped
append_capped_lem out value budget = elim (Bool-cases (leb (byte_length value) budget)) [
  | inl fits ↦ (
    value,
    [],
    sym (append-nil value),
    rw fits refl,
    inl (rw fits (refl, refl, ground (arith, fits))),
  )
  | inr over ↦
      let (left, parts) = take_before_prefix budget 0 value in
      let longer : budget < byte_length value = ground (arith, over) in
      let reached : budget ≤ byte_length (take_before budget 0 value) =
        omega (arith, take_before_reaches budget 0 value (omega arith) (omega arith)) in
      let within : byte_length (take_before budget 0 value) ≤ budget + 3 =
        ground (arith, take_before-le budget 0 value) in
      (
        take_before budget 0 value,
        left,
        parts,
        rw over refl,
        inr (rw over (refl, refl, longer, reached, within)),
      )
]

byte_length-append : (s t : Text) → byte_length (s ++ t) ≡ byte_length s + byte_length t
byte_length-append [] t = omega arith
byte_length-append (c ∷ s) t = omega (arith, byte_length-append s t)

-- All of the items with their labels, the bytes of their texts, and the bytes of their labels.
abbrev pub full_text : List (Text × Text) → Text
full_text [] = []
full_text (item ∷ items) = label item ++ (item.0 ++ full_text items)

abbrev pub text_bytes : List (Text × Text) → ℕ
text_bytes [] = 0
text_bytes (item ∷ items) = byte_length item.0 + text_bytes items

abbrev pub label_bytes : List (Text × Text) → ℕ
label_bytes [] = 0
label_bytes (item ∷ items) = byte_length (label item) + label_bytes items

-- Where the texts fit the budget together, all of them are shown, and nothing says that they were
-- capped.
pub render_items_fits :
    (budget : ℕ) (out : Text) (items : List (Text × Text))
    → text_bytes items ≤ budget
    → render_items budget out items ≡ out ++ full_text items
unfolding render_items append_capped
render_items_fits budget out [] h = sym (append-nil out)
render_items_fits budget out (item ∷ items) h =
    let fits : leb (byte_length item.0) budget ≡ true = ground arith in
    let later =
      render_items_fits (budget - byte_length item.0) ((out ++ label item) ++ item.0) items
        (omega arith) in
    rw
      (
        fits,
        later,
        append_assoc (out ++ label item) item.0 (full_text items),
        append_assoc out (label item) (item.0 ++ full_text items),
      )
      refl

-- Whatever the items are, what is added stays within the budget, the labels, the note, and three
-- bytes more.
pub render_items-le :
    (budget : ℕ) (out : Text) (items : List (Text × Text))
    → byte_length (render_items budget out items)
      ≤ byte_length out + label_bytes items + budget + 3 + byte_length capped_note
unfolding render_items
render_items-le budget out [] = omega arith
render_items-le budget out (item ∷ items) =
    let (added, left, parts, shown, outcome) =
      append_capped_lem (out ++ label item) item.0 budget in
    let size =
      ap byte_length shown
      ∙ byte_length-append (out ++ label item) added
      ∙ ap (λ (n : ℕ). n + byte_length added) (byte_length-append out (label item)) in
    let result = append_capped (out ++ label item) item.0 budget in
    elim outcome [
      | inl (fits, nothing, spent) ↦
          let all_added : byte_length item.0 ≡ byte_length added =
            ap byte_length (parts ∙ rw nothing (append-nil added)) in
          let later = render_items-le result.2 result.1 items in
          rw fits (omega (arith, later, size, all_added, spent))
      | inr (over, spent, longer, reached, within) ↦
          rw over (omega (arith, byte_length-append result.1 capped_note, size, within))
    ]
