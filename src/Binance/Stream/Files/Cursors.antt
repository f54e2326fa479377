-- ===== src/Binance/Stream/Files/Cursors.antt =====
-- The cursors of a stream and its slots: no call loses a file, and none asks for more than fits.
use quant_platform.Base.{
  ℕ, zero, suc, ◌+◌, ◌*◌, ◌^◌, ◌≤◌, ◌<◌, ◌≡◌, ◌∙◌, refl, sym, ap, subst, inl, inr, Bool, true,
  false, Option, none, some, if◌then◌else◌, ltb, length, Bool-cases, Option-cases, arith,
}
use quant_platform.Core.SlotRing.{take}
use quant_platform.Core.SlotRing.Window.{Holds, Window, is_some, take-Holds}
use quant_platform.Binance.Stream.Files.{
  FetchedFile, FetchPool, Stream, slot_bits, is_failure, has_room, path_url, pump_from, pump,
  take_file, count_failed, open_file, load_from, load_next_file,
}

-- `content` is all the files that have landed, by their position.
pub record IsValid (s : Stream) (content : ℕ → Option FetchedFile) : Type 0 where
  pub read_first : s.read_cursor ≤ s.fetch_cursor
  pub planned : s.fetch_cursor ≤ length s.paths
  pub window : s.fetch_cursor ≤ s.read_cursor + s.depth
  pub depth_pos : 1 ≤ s.depth
  pub depth_fits : s.depth ≤ 2 ^ slot_bits
  pub accounted : s.reader.stats.files_read + s.reader.stats.files_failed ≡ s.read_cursor
  pub held : Holds slot_bits s.slots (record { read = s.read_cursor; content = content })
  pub asked : (position : ℕ) → s.fetch_cursor ≤ position → content position ≡ none
  pub few : length s.paths + 2 * 2 ^ slot_bits ≤ 2 ^ 64

-- The stream with another cursor.
abbrev at_fetch : Stream → ℕ → Stream
at_fetch s n = record s { fetch_cursor = n }

-- What a call leaves: a valid stream, and if it found no file, an empty slot at the read cursor.
pub record Leaves (s : Stream) (content : ℕ → Option FetchedFile) (there : Bool) (s' : Stream)
    : Type 0 where
  pub valid : IsValid s' content
  pub plan_kept : length s'.paths ≡ length s.paths
  pub moved : there ≡ true → s.read_cursor < s'.read_cursor
  pub none_landed : there ≡ false → content s'.read_cursor ≡ none
  pub rows_kept : there ≡ false → s'.reader.rows ≡ s.reader.rows

module _ {ℓ} {Q : Type ℓ} (pool : FetchPool Q) where
  -- What `pump` does: it moves the fetch cursor, at most to the end of the window or of the plan.
  Pumps : Stream → Stream → Type 0
  Pumps s s' =
      (n : ℕ) × (s' ≡ at_fetch s n)
      × (s.fetch_cursor ≤ n)
      × (n ≤ length s.paths)
      × (n ≤ s.read_cursor + s.depth)

  pump_from-Pumps :
      (fuel : ℕ) (q : Q) (s : Stream)
      → s.fetch_cursor ≤ length s.paths
      → s.fetch_cursor ≤ s.read_cursor + s.depth
      → Pumps s (pump_from pool fuel q s).1
  unfolding pump_from Pumps
  pump_from-Pumps zero q s a b = (s.fetch_cursor, refl, omega arith, a, b)
  pump_from-Pumps (suc fuel) q s a b = elim (Bool-cases (has_room s)) [
    | inl t ↦
        let (taken, q') = pool.submit q (path_url s s.fetch_cursor) s.fetch_cursor in
        let more : s.fetch_cursor + 1 ≤ length s.paths = ground arith in
        let room : s.fetch_cursor + 1 ≤ s.read_cursor + s.depth = ground arith in
        elim (Bool-cases (pool.submit q (path_url s s.fetch_cursor) s.fetch_cursor).0) [
          | inl u ↦
              let (n, same, x, y, z) =
                pump_from-Pumps fuel q' (at_fetch s (s.fetch_cursor + 1)) more room in
              rw (t, u) (n, same, omega arith, y, z)
          | inr u ↦ rw (t, u) (s.fetch_cursor, refl, omega arith, a, b)
        ]
    | inr t ↦ rw t (s.fetch_cursor, refl, omega arith, a, b)
  ]

  pump-Pumps :
      (q : Q) (s : Stream)
      → s.fetch_cursor ≤ length s.paths
      → s.fetch_cursor ≤ s.read_cursor + s.depth
      → Pumps s (pump pool q s).1
  unfolding pump
  pump-Pumps q s a b = pump_from-Pumps s.depth q s a b

  Pumps-IsValid :
      (content : ℕ → Option FetchedFile) (s s' : Stream)
      → IsValid s content
      → Pumps s s'
      → IsValid s' content
  unfolding Pumps
  Pumps-IsValid content s s' v (n, same, x, y, z) =
      let r = v.read_first in
      subst (λ t. IsValid t content) (sym same)
        (record {
          read_first = omega arith;
          planned = y;
          window = z;
          depth_pos = v.depth_pos;
          depth_fits = v.depth_fits;
          accounted = v.accounted;
          held = v.held;
          asked = λ position h. v.asked position (omega arith);
          few = v.few;
        })

  pub pump-IsValid :
      (content : ℕ → Option FetchedFile) (q : Q) (s : Stream)
      → IsValid s content
      → IsValid (pump pool q s).1 content
  pump-IsValid content q s v =
      Pumps-IsValid content s (pump pool q s).1 v (pump-Pumps q s v.planned v.window)

  pub pump_plan :
      (content : ℕ → Option FetchedFile) (q : Q) (s : Stream)
      → IsValid s content
      → (length (pump pool q s).1.paths ≡ length s.paths)
        × ((pump pool q s).1.read_cursor ≡ s.read_cursor)
        × ((pump pool q s).1.reader ≡ s.reader)
  unfolding Pumps
  pump_plan content q s v =
      let (n, same, x, y, z) = pump-Pumps q s v.planned v.window in
      (ap (λ t. length t.paths) same, ap (λ t. t.read_cursor) same, ap (λ t. t.reader) same)

  -- A file that was taken is counted as failed or as read, before or after the window moves.
  taken-IsValid :
      (content : ℕ → Option FetchedFile) (s : Stream) (f : FetchedFile)
      → IsValid s content
      → content s.read_cursor ≡ some f
      → let t = take_file pool s (take slot_bits s.slots s.read_cursor).1 in
        IsValid (count_failed pool t) content × IsValid (open_file pool t f.body) content
  taken-IsValid content s f v here =
      let w : Window FetchedFile = record { read = s.read_cursor; content = content } in
      let first = v.read_first in
      let last = v.planned in
      let few = v.few in
      let (_, after) = take-Holds slot_bits (omega arith) s.slots w v.held (omega arith) in
      let there : is_some (content s.read_cursor) ≡ true = ap is_some here in
      let window = v.window in
      let accounted = v.accounted in
      let before : s.read_cursor < s.fetch_cursor =
        elim (Bool-cases (ltb s.read_cursor s.fetch_cursor)) [
          | inl t ↦ ground arith
          | inr t ↦
              let le : s.fetch_cursor ≤ s.read_cursor = ground arith in
              let nothing = v.asked s.read_cursor le in absurd (cc)
        ] in
      let moved : Holds slot_bits (take slot_bits s.slots s.read_cursor).1
          (record { read = s.read_cursor + 1; content = content }) =
        subst
          (λ b.
            Holds slot_bits (take slot_bits s.slots s.read_cursor).1
              (record { read = if b then s.read_cursor + 1 else s.read_cursor; content = content }))
          there after in
      (
        record {
          read_first = omega arith;
          planned = v.planned;
          window = omega arith;
          depth_pos = v.depth_pos;
          depth_fits = v.depth_fits;
          accounted = omega arith;
          held = moved;
          asked = v.asked;
          few = v.few;
        },
        record {
          read_first = omega arith;
          planned = v.planned;
          window = omega arith;
          depth_pos = v.depth_pos;
          depth_fits = v.depth_fits;
          accounted = omega arith;
          held = moved;
          asked = v.asked;
          few = v.few;
        },
      )

  failed-IsValid :
      (content : ℕ → Option FetchedFile) (q : Q) (s : Stream) (f : FetchedFile)
      → IsValid s content
      → content s.read_cursor ≡ some f
      → let s' = (pump pool q (take_file pool s (take slot_bits s.slots s.read_cursor).1)).1 in
        IsValid (count_failed pool s') content
        × IsValid (open_file pool s' f.body) content
        × (s'.read_cursor ≡ s.read_cursor + 1)
        × (length s'.paths ≡ length s.paths)
        × (s'.reader.rows ≡ s.reader.rows)
  unfolding Pumps
  failed-IsValid content q s f v here =
      let t = take_file pool s (take slot_bits s.slots s.read_cursor).1 in
      let (failed, opened) = taken-IsValid content s f v here in
      let (n, same, x, y, z) = pump-Pumps q t failed.planned failed.window in
      (
        Pumps-IsValid content (count_failed pool t) (count_failed pool (pump pool q t).1) failed
            (n, ap (count_failed pool) same, x, y, z),
        Pumps-IsValid content (open_file pool t f.body) (open_file pool (pump pool q t).1 f.body)
            opened (n, ap (λ u. open_file pool u f.body) same, x, y, z),
        ap (λ u. u.read_cursor) same,
        ap (λ u. length u.paths) same,
        ap (λ u. u.reader.rows) same,
      )

  load_from-Leaves :
      (content : ℕ → Option FetchedFile) (fuel : ℕ) (q : Q) (s : Stream)
      → IsValid s content
      → length s.paths < s.read_cursor + fuel
      → Leaves s content (load_from pool fuel q s).0 (load_from pool fuel q s).2
  unfolding load_from
  load_from-Leaves content zero q s v lt =
      let a = v.read_first in let b = v.planned in absurd (omega arith)
  load_from-Leaves content (suc fuel) q s v lt =
      let a = v.read_first in
      let b = v.planned in
      let few = v.few in
      let w : Window FetchedFile = record { read = s.read_cursor; content = content } in
      let (got, _) = take-Holds slot_bits (omega arith) s.slots w v.held (omega arith) in
      elim (Option-cases (content s.read_cursor)) [
        | inl empty ↦
            rw (got ∙ empty, load_from)
              (record {
                valid = v;
                plan_kept = refl;
                moved = λ e. absurd (cc);
                none_landed = λ e. empty;
                rows_kept = λ e. refl;
              })
        | inr (f, here) ↦
            let s' = (pump pool q (take_file pool s (take slot_bits s.slots s.read_cursor).1)).1 in
            let q' = (pump pool q (take_file pool s (take slot_bits s.slots s.read_cursor).1)).0 in
            let (failed, opened, read, plan, rows) = failed-IsValid content q s f v here in
            elim (Bool-cases (is_failure f.status)) [
              | inl t ↦
                  let rest =
                    load_from-Leaves content fuel q' (count_failed pool s') failed (omega arith) in
                  rw (got ∙ here, t, load_from)
                    (record {
                      valid = rest.valid;
                      plan_kept = rest.plan_kept ∙ plan;
                      moved = λ e. let on = rest.moved e in omega arith;
                      none_landed = rest.none_landed;
                      rows_kept = λ e. rest.rows_kept e ∙ rows;
                    })
              | inr t ↦
                  rw (got ∙ here, t, load_from)
                    (record {
                      valid = opened;
                      plan_kept = plan;
                      moved = λ e. omega arith;
                      none_landed = λ e. absurd (cc);
                      rows_kept = λ e. absurd (cc);
                    })
            ]
      ]

  pub load_next_file-Leaves :
      (content : ℕ → Option FetchedFile) (q : Q) (s : Stream)
      → IsValid s content
      → Leaves s content (load_next_file pool q s).0 (load_next_file pool q s).2
  unfolding load_next_file
  load_next_file-Leaves content q s v =
      load_from-Leaves content (length s.paths + 1) q s v (omega arith)
