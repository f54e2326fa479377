-- ===== src/Binance/Stream/Lines/Runs.antt =====
-- A run of rows takes as many lines off the text as it says.
use quant_platform.Base.{
  ℕ, zero, suc, ◌+◌, ◌≤◌, ◌<◌, ◌≡◌, ◌∙◌, refl, sym, ap, subst, inl, inr, false, List, [], ◌∷◌,
  length, Bool-cases, arith,
}
use quant_platform.Binance.Rows.{is_empty}
use quant_platform.Binance.Stream.Lines.{Line, Run, take_row, widen, shares, widen_run, extend_run}
use quant_platform.Binance.Stream.Lines.Split.{line_count, line_count-take_row, length-take_row}

widen_lem :
    (text : List ℕ) (r : Run)
    → r.left ≡ text
    → is_empty text ≡ false
    → ((widen r).used + line_count (widen r).left ≡ r.used + line_count text)
      × (length (widen r).left < length text)
widen_lem [] r e h = absurd (cc)
widen_lem (c ∷ text) r e h = (
  ap (λ t. r.used + 1 + line_count (take_row t).rest) e ∙ omega (arith, line_count-take_row c text),
  subst (λ t. length (take_row t).rest < length (c ∷ text)) (sym e) (length-take_row c text),
)

widen_run_lem :
    (fuel : ℕ) (key : List ℕ) (r : Run)
    → ((widen_run fuel key r).used + line_count (widen_run fuel key r).left
        ≡ r.used + line_count r.left)
      × (length (widen_run fuel key r).left ≤ length r.left)
unfolding widen_run
widen_run_lem zero key r = (refl, omega arith)
widen_run_lem (suc fuel) key r = elim (Bool-cases (shares key r)) [
  | inl t ↦
      let full : is_empty r.left ≡ false = ground arith in
      let (same, shorter) = widen_lem r.left r refl full in
      let (same', shorter') = widen_run_lem fuel key (widen r) in rw t (same' ∙ same, omega arith)
  | inr t ↦ rw t (refl, omega arith)
]

pub extend_run_lem :
    (l : Line)
    → ((extend_run l).used + line_count (extend_run l).left ≡ 1 + line_count l.rest)
      × (length (extend_run l).left ≤ length l.rest)
unfolding extend_run
extend_run_lem l =
    widen_run_lem (length l.rest) _
      (record { block = l.row; used = 1; after = l.ending; left = l.rest })
