-- ===== src/Binance/Stream/Lines.antt =====
-- Rows of a file: peek_row, take_row and extend_run of stream.hpp. A text is its bytes.
pub mod Split
pub mod Runs
use quant_platform.Base.{
  ℕ, zero, suc, ◌+◌, Bool, true, false, ◌&&◌, not, List, [], ◌∷◌, ◌++◌, if◌then◌else◌, ◌==◌, length,
}
use quant_platform.Core.Subscription.{symbol_eq}
use quant_platform.Binance.Csv.{leading_field}
use quant_platform.Binance.Rows.{is_empty}

-- A row, what stands between it and the next one, and the text from the next one on.
pub record Line : Type 0 where
  pub row : List ℕ
  pub ending : List ℕ
  pub rest : List ℕ

-- The bytes up to the newline; the newline; and the rest. Without one the whole text is the row.
pub cut : List ℕ → Line
cut [] = record { row = []; ending = []; rest = [] }
cut (c ∷ text) =
    let l = cut text in
    if c == 10
    then record { row = []; ending = c ∷ []; rest = text }
    else record l { row = c ∷ l.row }

-- The carriage return at a row's end, moved to what stands after it.
pub strip_return : Line → List ℕ → Line
strip_return l [] = record l { row = [] }
strip_return l (c ∷ []) =
    if c == 13 then record l { row = []; ending = c ∷ l.ending } else record l { row = c ∷ [] }
strip_return l (c ∷ d ∷ row) =
    let tail = strip_return l (d ∷ row) in record tail { row = c ∷ tail.row }

unfoldable pub take_row : List ℕ → Line
unfolding cut strip_return
take_row text = let l = cut text in strip_return l l.row

abbrev pub peek_row : List ℕ → List ℕ
peek_row text = (take_row text).row

-- A block of rows, the rows in it, what stands after it, and the text from there on.
pub record Run : Type 0 where
  pub block : List ℕ
  pub used : ℕ
  pub after : List ℕ
  pub left : List ℕ

-- One round of the loop: the next row, and the bytes before it.
abbrev widen : Run → Run
widen r =
    let l = take_row r.left in
    record {
      block = r.block ++ (r.after ++ l.row);
      used = r.used + 1;
      after = l.ending;
      left = l.rest;
    }

abbrev shares : List ℕ → Run → Bool
shares key r = not (is_empty r.left) && symbol_eq (leading_field (peek_row r.left)) key

-- The loop of `extend_run`, with a round for each byte that is left.
pub widen_run : ℕ → List ℕ → Run → Run
unfolding take_row
widen_run zero key r = r
widen_run (suc fuel) key r = let go = widen_run fuel key (widen r) in if shares key r then go else r

pub extend_run : Line → Run
unfolding widen_run
extend_run first =
    widen_run (length first.rest) (leading_field first.row)
      (record { block = first.row; used = 1; after = first.ending; left = first.rest })
