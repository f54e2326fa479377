-- ===== src/Binance/Stream/Lines/Split.antt =====
-- How rows cut a text: nothing is lost, and each row is one of the text's lines.
use quant_platform.Base.{
  ℕ, ◌+◌, ◌<◌, ◌≡◌, ◌∙◌, refl, sym, ap, ap₂, subst, inl, inr, map, List, [], ◌∷◌, ◌++◌,
  if◌then◌else◌, ◌==◌, length, Bool-cases, arith,
}
use quant_platform.Binance.Stream.Lines.{Line, cut, strip_return, take_row}

abbrev pub whole : Line → List ℕ
whole l = l.row ++ (l.ending ++ l.rest)

cut-whole : (text : List ℕ) → whole (cut text) ≡ text
unfolding cut
cut-whole [] = refl
cut-whole (c ∷ text) = elim (Bool-cases (c == 10)) [
  | inl t ↦ rw t refl
  | inr t ↦ rw t (ap (λ s. c ∷ s) (cut-whole text))
]

strip_return-whole :
    (l : Line) (row : List ℕ) → whole (strip_return l row) ≡ row ++ (l.ending ++ l.rest)
unfolding strip_return
strip_return-whole l [] = refl
strip_return-whole l (c ∷ []) = elim (Bool-cases (c == 13)) [
  | inl t ↦ rw t refl
  | inr t ↦ rw t refl
]
strip_return-whole l (c ∷ d ∷ row) = ap (λ s. c ∷ s) (strip_return-whole l (d ∷ row))

-- A row, what stands after it and the rest are the text.
pub take_row-whole : (text : List ℕ) → whole (take_row text) ≡ text
unfolding take_row
take_row-whole text = strip_return-whole (cut text) (cut text).row ∙ cut-whole text

-- The number of lines of a text. The last need not end in a newline.
pub line_count : List ℕ → ℕ
line_count [] = 0
line_count (c ∷ []) = 1
line_count (c ∷ d ∷ text) = (if c == 10 then 1 else 0) + line_count (d ∷ text)

cut-rest : (l : Line) (row : List ℕ) → (strip_return l row).rest ≡ l.rest
unfolding strip_return
cut-rest l [] = refl
cut-rest l (c ∷ []) = elim (Bool-cases (c == 13)) [ inl t ↦ rw t refl | inr t ↦ rw t refl ]
cut-rest l (c ∷ d ∷ row) = cut-rest l (d ∷ row)

line_count-cut :
    (c : ℕ) (text : List ℕ) → line_count (c ∷ text) ≡ 1 + line_count (cut (c ∷ text)).rest
unfolding line_count cut
line_count-cut c [] = elim (Bool-cases (c == 10)) [ inl t ↦ rw t refl | inr t ↦ rw t refl ]
line_count-cut c (d ∷ text) = elim (Bool-cases (c == 10)) [
  | inl t ↦ rw t refl
  | inr t ↦ rw t (omega (arith, line_count-cut d text))
]

-- A row that is taken is one line of the text.
pub line_count-take_row :
    (c : ℕ) (text : List ℕ) → line_count (c ∷ text) ≡ 1 + line_count (take_row (c ∷ text)).rest
unfolding take_row
line_count-take_row c text =
    line_count-cut c text
    ∙ ap (λ t. 1 + line_count t) (sym (cut-rest (cut (c ∷ text)) (cut (c ∷ text)).row))

length-cut : (c : ℕ) (text : List ℕ) → length (cut (c ∷ text)).rest < length (c ∷ text)
unfolding cut
length-cut c [] = elim (Bool-cases (c == 10)) [
  | inl t ↦ rw t (omega arith)
  | inr t ↦ rw t (omega arith)
]
length-cut c (d ∷ text) = elim (Bool-cases (c == 10)) [
  | inl t ↦ rw t (omega arith)
  | inr t ↦ rw t (omega (arith, length-cut d text))
]

-- What is left is shorter.
pub length-take_row :
    (c : ℕ) (text : List ℕ) → length (take_row (c ∷ text)).rest < length (c ∷ text)
unfolding take_row
length-take_row c text =
    subst (λ t. length t < length (c ∷ text)) (sym (cut-rest (cut (c ∷ text)) (cut (c ∷ text)).row))
      (length-cut c text)

-- The lines of a text, without what ends them.
abbrev pub drop_return : List ℕ → List ℕ
drop_return [] = []
drop_return (c ∷ []) = if c == 13 then [] else c ∷ []
drop_return (c ∷ d ∷ row) = c ∷ drop_return (d ∷ row)

abbrev pub onto_first : ℕ → List (List ℕ) → List (List ℕ)
onto_first c [] = (c ∷ []) ∷ []
onto_first c (row ∷ rows) = (c ∷ row) ∷ rows

abbrev pub raw_rows : List ℕ → List (List ℕ)
raw_rows [] = []
raw_rows (c ∷ text) = if c == 10 then [] ∷ raw_rows text else onto_first c (raw_rows text)

abbrev pub cut_rows : List ℕ → List (List ℕ)
cut_rows text = map drop_return (raw_rows text)

raw_rows-cut :
    (c : ℕ) (text : List ℕ)
    → raw_rows (c ∷ text) ≡ (cut (c ∷ text)).row ∷ raw_rows (cut (c ∷ text)).rest
unfolding cut
raw_rows-cut c [] = elim (Bool-cases (c == 10)) [ inl t ↦ rw t refl | inr t ↦ rw t refl ]
raw_rows-cut c (d ∷ text) = elim (Bool-cases (c == 10)) [
  | inl t ↦ rw t refl
  | inr t ↦ rw t (ap (onto_first c) (raw_rows-cut d text))
]

strip_return-row : (l : Line) (row : List ℕ) → (strip_return l row).row ≡ drop_return row
unfolding strip_return
strip_return-row l [] = refl
strip_return-row l (c ∷ []) = elim (Bool-cases (c == 13)) [ inl t ↦ rw t refl | inr t ↦ rw t refl ]
strip_return-row l (c ∷ d ∷ row) = ap (λ s. c ∷ s) (strip_return-row l (d ∷ row))

-- Taking a row takes the first of the lines.
pub cut_rows-take_row :
    (c : ℕ) (text : List ℕ)
    → cut_rows (c ∷ text) ≡ (take_row (c ∷ text)).row ∷ cut_rows (take_row (c ∷ text)).rest
unfolding take_row
cut_rows-take_row c text =
    let l = cut (c ∷ text) in
    ap (map drop_return) (raw_rows-cut c text)
    ∙ ap₂ (λ row rest. row ∷ cut_rows rest) (sym (strip_return-row l l.row))
        (sym (cut-rest l l.row))
