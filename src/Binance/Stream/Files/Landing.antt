-- ===== src/Binance/Stream/Files/Landing.antt =====
-- A stream and the workers of its pool: calls of `next` and landings of files in any order.
use quant_platform.Base.{
  ℕ, ◌+◌, ◌*◌, ◌^◌, ◌≤◌, ◌<◌, ◌≡◌, ◌≢◌, ◌∙◌, refl, ap, subst, inl, inr, Bool, true, false, Option,
  none, some, List, [], ◌∷◌, if◌then◌else◌, length, put, put_ne, Bool-cases, arith,
}
use quant_platform.Core.SlotRing.{place}
use quant_platform.Core.SlotRing.Window.{
  Holds, Window, is_some, is_free, in_free, fresh-Holds, place-Holds,
}
use quant_platform.Core.Subscription.{Instrument}
use quant_platform.Core.Types.{Timestamp}
use quant_platform.Binance.Endpoints.{Endpoint, Cadence}
use quant_platform.Binance.Stream.Reader.{Parser}
use quant_platform.Binance.Stream.Files.{
  FetchedFile, FetchPool, Stream, slot_bits, clamp_depth, open_stream, in_span, keep_in_span, plan,
  next,
}
use quant_platform.Binance.Stream.Files.Cursors.{IsValid}
use quant_platform.Binance.Stream.Files.Steps.{next-Answers}

-- The stream, and all the files that have landed, by their position in the plan.
pub record World : Type 0 where
  pub stream : Stream
  pub content : ℕ → Option FetchedFile

-- A worker places a file that the stream asked for, once.
pub land : World → ℕ → FetchedFile → World
land w position f = record {
  stream = record w.stream { slots = (place slot_bits w.stream.slots position f).1 };
  content = put w.content position (some f);
}

-- The files that the stream has asked for and not got.
pub record IsAwaited (w : World) (position : ℕ) : Type 0 where
  pub not_read : w.stream.read_cursor ≤ position
  pub requested : position < w.stream.fetch_cursor
  pub in_flight : w.content position ≡ none

module _ {ℓ κ} {Q : Type ℓ} {E : Type κ} (pool : FetchPool Q) (p : Parser E) where
  -- The pool may be in any state at a call: its workers are not in step with the stream.
  pub data Step (w : World) : World → Type (ℓ ⊔ κ) where
    called : (q : Q) → Step w (record w { stream = (next pool p q w.stream).2 })
    landed : (position : ℕ) (f : FetchedFile) → IsAwaited w position → Step w (land w position f)

  pub data Reach (w : World) : World → Type (ℓ ⊔ κ) where
    here : Reach w w
    on : {u v : World} → Reach w u → Step u v → Reach w v

-- The slot of a file that is awaited is free.
awaited_free :
    (w : World) (position : ℕ)
    → IsValid w.stream w.content
    → IsAwaited w position
    → is_free slot_bits (record { read = w.stream.read_cursor; content = w.content }) position
      ≡ true
awaited_free w position v a =
    let window = v.window in
    let fits = v.depth_fits in
    let first = a.not_read in
    let last = a.requested in
    in_free slot_bits (omega arith) (record { read = w.stream.read_cursor; content = w.content })
      position first (omega arith)
    ∙ ap (λ o. if is_some o then false else true) a.in_flight

-- A file that a valid stream has asked for finds its slot free, whatever the order in which the
-- files land, and leaves the stream valid: the pool never has to drop one.
pub land_taken :
    (w : World) (position : ℕ) (f : FetchedFile)
    → IsValid w.stream w.content
    → IsAwaited w position
    → ((place slot_bits w.stream.slots position f).0 ≡ true)
      × IsValid (land w position f).stream (land w position f).content
unfolding land
land_taken w position f v a =
    let before : Window FetchedFile = record { read = w.stream.read_cursor; content = w.content } in
    let first = v.read_first in
    let last = v.planned in
    let few = v.few in
    let free = awaited_free w position v a in
    let (taken, held) =
      place-Holds slot_bits (omega arith) w.stream.slots before position f v.held (omega arith) in
    (
      taken
          ∙ ap (λ b. (choice b (record before { content = put w.content position (some f) })).0)
              free,
      record {
        read_first = v.read_first;
        planned = v.planned;
        window = v.window;
        depth_pos = v.depth_pos;
        depth_fits = v.depth_fits;
        accounted = v.accounted;
        held =
            subst
              (λ b.
                Holds slot_bits (place slot_bits w.stream.slots position f).1
                  (choice b (record before { content = put w.content position (some f) })).1)
              free held;
        asked = λ other h.
            let requested = a.requested in
            let ne : position ≢ other = λ e. omega arith in
            put_ne w.content position other (some f) ne ∙ v.asked other h;
        few = v.few;
      },
    )
  where
    choice : Bool → Window FetchedFile → Bool × Window FetchedFile
    choice b filled =
        if b
        then (true, filled)
        else (false, record { read = w.stream.read_cursor; content = w.content })

length-keep_in_span :
    (from to : Timestamp) (keys : List (List ℕ)) → length (keep_in_span from to keys) ≤ length keys
unfolding keep_in_span
length-keep_in_span from to [] = omega arith
length-keep_in_span from to (key ∷ keys) = elim (Bool-cases (in_span from to key)) [
  | inl t ↦ rw t (omega (arith, length-keep_in_span from to keys))
  | inr t ↦ rw t (omega (arith, length-keep_in_span from to keys))
]

clamp_depth_bounds : (n : ℕ) → (1 ≤ clamp_depth n) × (clamp_depth n ≤ 64)
clamp_depth_bounds n = ground arith

-- A stream with a plan, before its first call.
abbrev pub planned_stream :
    Endpoint
    → Cadence
    → (symbol interval : List ℕ) → Instrument
    → (prefetch_depth : ℕ) → (keys : List (List ℕ)) → (from to : Timestamp) → World
planned_stream entry cadence symbol interval instrument prefetch_depth keys from to = record {
  stream = plan (open_stream entry cadence symbol interval instrument prefetch_depth) keys from to;
  content = λ position. none;
}

planned-IsValid :
    (entry : Endpoint) (cadence : Cadence) (symbol interval : List ℕ) (instrument : Instrument)
    (prefetch_depth : ℕ) (keys : List (List ℕ)) (from to : Timestamp)
    → length keys + 2 * 2 ^ slot_bits ≤ 2 ^ 64
    → let w = planned_stream entry cadence symbol interval instrument prefetch_depth keys from to in
      IsValid w.stream w.content
unfolding plan open_stream
planned-IsValid entry cadence symbol interval instrument prefetch_depth keys from to few =
    let (low, high) = clamp_depth_bounds prefetch_depth in
    record {
      read_first = omega arith;
      planned = omega arith;
      window = omega arith;
      depth_pos = low;
      depth_fits = high;
      accounted = refl;
      held = fresh-Holds slot_bits;
      asked = λ position h. refl;
      few = omega (arith, length-keep_in_span from to keys);
    }

module _ {ℓ κ} {Q : Type ℓ} {E : Type κ} (pool : FetchPool Q) (p : Parser E) where
  Reach-IsValid :
      {w w' : World} → IsValid w.stream w.content → Reach pool p w w' → IsValid w'.stream w'.content
  Reach-IsValid v here = v
  Reach-IsValid v (on r (called q)) = (next-Answers pool p _ q _ (Reach-IsValid v r)).valid
  Reach-IsValid v (on {u} r (landed position f a)) =
      (land_taken u position f (Reach-IsValid v r) a).1

  -- From a plan of fewer keys than `2 ^ 64` less two laps on, in every order of calls and landings:
  -- the cursors do not cross and stay in the plan, at most the prefetch depth of files is
  -- outstanding, at most one for each slot, and every file behind the read cursor is counted as read
  -- or as failed, and the slots hold what has landed.
  pub planned-Reach-IsValid :
      (entry : Endpoint) (cadence : Cadence) (symbol interval : List ℕ) (instrument : Instrument)
      (prefetch_depth : ℕ) (keys : List (List ℕ)) (from to : Timestamp) (w : World)
      → length keys + 2 * 2 ^ slot_bits ≤ 2 ^ 64
      → Reach pool p
          (planned_stream entry cadence symbol interval instrument prefetch_depth keys from to)
          w
      → IsValid w.stream w.content
  planned-Reach-IsValid entry cadence symbol interval instrument prefetch_depth keys from to w few
        r =
      Reach-IsValid
        (planned-IsValid entry cadence symbol interval instrument prefetch_depth keys from to few) r
