-- ===== src/Binance/Stream/Files/Steps.antt =====
-- `next` and the landing of files, in any order.
use quant_platform.Base.{
  ℕ, zero, suc, ◌+◌, ◌<◌, ◌≡◌, ◌∙◌, refl, sym, ap, subst, inl, inr, Bool, true, false, Option, none,
  some, List, if◌then◌else◌, length, to_size, Bool-cases, Option-cases, arith,
}
use quant_platform.Core.Types.{Timestamp, EventBase}
use quant_platform.Binance.Rows.{is_empty}
use quant_platform.Binance.Stream.Reader.{Parser, Reader, read_rows}
use quant_platform.Binance.Stream.Reader.Counts.{read_rows_drained, read_rows_files}
use quant_platform.Binance.Stream.Files.{
  FetchedFile, FetchPool, Stream, pump, load_next_file, next_from, next, tick, stamped,
}
use quant_platform.Binance.Stream.Files.Cursors.{
  IsValid, pump-IsValid, pump_plan, load_next_file-Leaves,
}

-- Another reader that has counted the same files.
reader-IsValid :
    (s : Stream) (content : ℕ → Option FetchedFile) (r : Reader)
    → IsValid s content
    → r.stats.files_read + r.stats.files_failed
      ≡ s.reader.stats.files_read + s.reader.stats.files_failed
    → IsValid (record s { reader = r }) content
reader-IsValid s content r v same = record {
  read_first = v.read_first;
  planned = v.planned;
  window = v.window;
  depth_pos = v.depth_pos;
  depth_fits = v.depth_fits;
  accounted = same ∙ v.accounted;
  held = v.held;
  asked = v.asked;
  few = v.few;
}

-- What `next` leaves: a valid stream, and without an event no row and no file at the read cursor.
pub record Answers {ℓ} {A : Type ℓ} (content : ℕ → Option FetchedFile) (found : Option A)
    (s' : Stream) : Type ℓ where
  pub valid : IsValid s' content
  pub no_row : found ≡ none → is_empty s'.reader.rows ≡ true
  pub no_file : found ≡ none → content s'.read_cursor ≡ none

abbrev spare : List ℕ → ℕ
spare rows = if is_empty rows then 0 else 1

module _ {ℓ κ} {Q : Type ℓ} {E : Type κ} (pool : FetchPool Q) (p : Parser E) where
  -- The stream once its rows were read, and what the round of the loop comes to.
  abbrev reading : Stream → Option (Timestamp × E) × Reader
  reading s = read_rows (length s.reader.rows) p s.endpoint s.reader

  abbrev read_on : Stream → Stream
  read_on s = record s { reader = (reading s).1 }

  abbrev scan : ℕ → Q → Stream → Option (EventBase × E) × Q × Stream
  scan fuel q s = elim (reading s).0 [
    | none ↦ next_from pool p fuel q (read_on s)
    | some event ↦ (some (stamped pool p s event), q, read_on s)
  ]

  read_on-IsValid :
      (content : ℕ → Option FetchedFile) (s : Stream)
      → IsValid s content
      → IsValid (read_on s) content
  read_on-IsValid content s v =
      reader-IsValid s content (reading s).1 v
        (read_rows_files (length s.reader.rows) p s.endpoint s.reader)

  scan-Answers :
      (content : ℕ → Option FetchedFile) (fuel : ℕ) (q : Q) (s : Stream)
      → IsValid s content
      → (spare (read_on s).reader.rows ≡ 0
          → Answers content
              (next_from pool p fuel q (read_on s)).0
              (next_from pool p fuel q (read_on s)).2)
      → Answers content (scan fuel q s).0 (scan fuel q s).2
  scan-Answers content fuel q s v rest = elim (Option-cases (reading s).0) [
    | inl nothing ↦
        let drained =
          read_rows_drained (length s.reader.rows) p s.endpoint s.reader (omega arith) nothing in
        rw (nothing, scan) (rest (ap (λ b. if b then 0 else 1) drained))
    | inr (event, found) ↦
        rw (found, scan)
          (record {
            valid = read_on-IsValid content s v;
            no_row = λ e. absurd (cc);
            no_file = λ e. absurd (cc);
          })
  ]

  -- A round, from what is there to be read.
  abbrev round : ℕ → Bool × Q × Stream → Option (EventBase × E) × Q × Stream
  round fuel (there, q, s) = if there then scan fuel q s else (none, q, s)

  abbrev AnswersWith : (ℕ → Option FetchedFile) → Option (EventBase × E) × Q × Stream → Type κ
  AnswersWith content res = Answers content res.0 res.2

  next_from-Answers :
      (content : ℕ → Option FetchedFile) (fuel : ℕ) (q : Q) (s : Stream)
      → IsValid s content
      → length s.paths + spare s.reader.rows < s.read_cursor + fuel
      → AnswersWith content (next_from pool p fuel q s)
  unfolding next_from
  next_from-Answers content zero q s v lt =
      let a = v.read_first in let b = v.planned in absurd (omega arith)
  next_from-Answers content (suc fuel) q s v lt = elim (Bool-cases (is_empty s.reader.rows)) [
    | inl t ↦
        let loaded = load_next_file pool q s in
        let leaves = load_next_file-Leaves pool content q s v in
        let after : AnswersWith content (round fuel loaded) = elim (Bool-cases loaded.0) [
          | inl u ↦
              let on = leaves.moved u in
              let plan = leaves.plan_kept in
              subst
                (λ b.
                  AnswersWith content
                    (if b then scan fuel loaded.1 loaded.2 else (none, loaded.1, loaded.2)))
                (sym u)
                (scan-Answers content fuel loaded.1 loaded.2 leaves.valid (λ z.
                  next_from-Answers content fuel loaded.1 (read_on loaded.2)
                    (read_on-IsValid content loaded.2 leaves.valid) (omega arith)))
          | inr u ↦
              subst
                (λ b.
                  AnswersWith content
                    (if b then scan fuel loaded.1 loaded.2 else (none, loaded.1, loaded.2)))
                (sym u)
                (record {
                  valid = leaves.valid;
                  no_row = λ e. ap is_empty (leaves.rows_kept u) ∙ t;
                  no_file = λ e. leaves.none_landed u;
                })
        ] in
        subst (λ b. AnswersWith content (round fuel (if b then loaded else (true, q, s)))) (sym t)
          after
    | inr t ↦
        let one : spare s.reader.rows ≡ 1 = ap (λ b. if b then 0 else 1) t in
        subst
          (λ b.
            AnswersWith content (round fuel (if b then load_next_file pool q s else (true, q, s))))
          (sym t)
          (scan-Answers content fuel q s v (λ z.
            next_from-Answers content fuel q (read_on s) (read_on-IsValid content s v)
              (omega arith)))
  ]

  -- The tick of the pump is no part of the invariant.
  tick-IsValid :
      (content : ℕ → Option FetchedFile) (s : Stream) (n : ℕ)
      → IsValid s content
      → IsValid (record s { pump_tick = n }) content
  tick-IsValid content s n v = record {
    read_first = v.read_first;
    planned = v.planned;
    window = v.window;
    depth_pos = v.depth_pos;
    depth_fits = v.depth_fits;
    accounted = v.accounted;
    held = v.held;
    asked = v.asked;
    few = v.few;
  }

  pumped-IsValid :
      (content : ℕ → Option FetchedFile) (due : Bool) (q : Q) (s : Stream)
      → IsValid s content
      → let s' = (if due then pump pool q s else (q, s)).1 in
        IsValid s' content × (length s'.paths ≡ length s.paths)
  pumped-IsValid content true q s v =
      (pump-IsValid pool content q s v, (pump_plan pool content q s v).0)
  pumped-IsValid content false q s v = (v, refl)

  ticked-IsValid :
      (content : ℕ → Option FetchedFile) (s : Stream)
      → IsValid s content
      → IsValid (tick pool p s).1 content × (length (tick pool p s).1.paths ≡ length s.paths)
  ticked-IsValid content s v = elim (Bool-cases (is_empty s.reader.rows)) [
    | inl t ↦ rw t (v, refl)
    | inr t ↦ rw t (tick-IsValid content s (to_size (s.pump_tick + 1)) v, refl)
  ]

  -- A call of `next` keeps a valid stream valid, and answers without an event only when no row is left and
  -- the file at the read cursor has not landed.
  pub next-Answers :
      (content : ℕ → Option FetchedFile) (q : Q) (s : Stream)
      → IsValid s content
      → Answers content (next pool p q s).0 (next pool p q s).2
  unfolding next
  next-Answers content q s v =
      let (valid, plan) = ticked-IsValid content s v in
      let (due, s') = tick pool p s in
      let (valid', plan') = pumped-IsValid content due q s' valid in
      let (q', s'') = if due then pump pool q s' else (q, s') in
      next_from-Answers content (length s.paths + 2) q' s'' valid' (
        below (length s''.paths) s''.read_cursor (length s.paths) (is_empty s''.reader.rows)
          (plan' ∙ plan))
    where
      below : (m k n : ℕ) (b : Bool) → m ≡ n → m + (if b then 0 else 1) < k + (n + 2)
      below m k n true e = omega arith
      below m k n false e = omega arith
