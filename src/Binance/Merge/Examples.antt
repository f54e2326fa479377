-- ===== src/Binance/Merge/Examples.antt =====
-- A merge of two streams, one of which has a miss.
use quant_platform.Base.{
  ℕ, zero, suc, ◌≡◌, refl, subst, Bool, true, false, Option, none, some, List, [], ◌∷◌, map, All,
  ◌==◌, if◌then◌else◌, arith,
}
use quant_platform.Base.Int.{pos, ◌≤ℤ◌}
use quant_platform.Core.Types.{Timestamp}
use quant_platform.Core.Subscription.{
  Subscription, find_exchange, find_market, symbol_index, resolve,
}
use quant_platform.Binance.Stream.Files.{open_stream}
use quant_platform.Binance.Endpoints.{
  klines, book_depth, monthly, daily, find_endpoint, supports, fallback_cadence, market_of_slot,
}
use quant_platform.Binance.Merge.{EventStream, next_merged, start_merge}
use quant_platform.Binance.Merge.Ascending.{IsAscending, Ascends, pull_merged, merge-Ascends}
use quant_platform.Binance.Merge.Ends.{EndsWell, start_Accounted, next_merged-EndsWell}
use quant_platform.Binance.Merge.Build.{
  Config, IsPublished, build_streams, build_streams-IsPublished,
}

-- A stream is what it still has: stamps, and misses.
abbrev listed : EventStream (List (Option ℕ)) ℕ
listed = record {
  next_event =
      λ s. elim s [ [] ↦ (none, []) | none ∷ rest ↦ (none, rest) | some n ∷ rest ↦ (some n, rest) ];
  is_finished = λ s. elim s [ [] ↦ true | o ∷ rest ↦ false ];
  stamp = λ n. pos n;
}

-- The stamps of a list are at or after `t`, and ascend.
abbrev FromStamp : List (Option ℕ) → Timestamp → Type 0
FromStamp [] t = Unit
FromStamp (none ∷ rest) t = FromStamp rest t
FromStamp (some n ∷ rest) t = (t ≤ℤ pos n) × FromStamp rest (pos n)

listed-IsAscending : IsAscending listed FromStamp
listed-IsAscending = record { event_after = after; none_after = still }
  where
    after :
        (s : List (Option ℕ)) (t : Timestamp) (n : ℕ)
        → FromStamp s t
        → (listed.next_event s).0 ≡ some n
        → (t ≤ℤ pos n) × FromStamp (listed.next_event s).1 (pos n)
    after [] t n b e = absurd (cc)
    after (none ∷ rest) t n b e = absurd (cc)
    after (some m ∷ rest) t n b e =
        let same : m ≡ n = cc in subst (λ k. (t ≤ℤ pos k) × FromStamp rest (pos k)) same b

    still :
        (s : List (Option ℕ)) (t : Timestamp)
        → FromStamp s t
        → (listed.next_event s).0 ≡ none
        → FromStamp (listed.next_event s).1 t
    still [] t b e = b
    still (none ∷ rest) t b e = b
    still (some m ∷ rest) t b e = absurd (cc)

abbrev two_streams : ℕ → List (Option ℕ)
two_streams i = if i == 0 then some 3 ∷ none ∷ some 8 ∷ [] else some 1 ∷ some 5 ∷ []

abbrev first_is_bar : ℕ → Bool
first_is_bar i = i == 0

two_streams_from : (i : ℕ) → FromStamp (two_streams i) (pos 1)
two_streams_from zero = (omega arith, (omega arith, tt))
two_streams_from (suc i) = rw (apart i) (omega arith, (omega arith, tt))
  where
    apart : (i : ℕ) → (suc i == 0) ≡ false
    apart i = ground arith

-- The miss holds the later event of the other stream back.
two_streams_merged :
    pull_merged listed first_is_bar 6 (start_merge two_streams 2) ≡ 1 ∷ 3 ∷ 5 ∷ 8 ∷ []
unfolding pull_merged next_merged start_merge
two_streams_merged = refl

merge-Ascends_example :
    Ascends listed (pos 1) (pull_merged listed first_is_bar 6 (start_merge two_streams 2))
merge-Ascends_example =
    merge-Ascends listed FromStamp listed-IsAscending first_is_bar 6 2 (pos 1) two_streams
      two_streams_from

-- Two streams that have ended.
next_merged-EndsWell_example :
    EndsWell listed first_is_bar 2
      (next_merged listed first_is_bar (start_merge (λ i. []) 2)).0
      (next_merged listed first_is_bar (start_merge (λ i. []) 2)).1
next_merged-EndsWell_example =
    next_merged-EndsWell listed first_is_bar 2 (start_merge (λ i. []) 2)
      (start_Accounted listed first_is_bar 2 (λ i. []))

-- Monthly funding does exist, monthly book depth does not.
abbrev some_config : Config
some_config = record {
  streams =
      record { kind = klines; interval = 49 ∷ 104 ∷ [] }
      ∷ record { kind = book_depth; interval = [] }
      ∷ [];
  cadence = monthly;
  from = pos 0;
  to = pos 10;
  prefetch_depth = 16;
}

-- One symbol of the linear market, and a market that the venue does not have.
abbrev some_universe : Subscription
some_universe =
    record {
      exchange = 0;
      markets =
          record { market = 1; symbols = (66 ∷ []) ∷ [] }
          ∷ record { market = 9; symbols = (66 ∷ []) ∷ [] }
          ∷ [];
    }
    ∷ []

-- Both streams are built, and the depth falls back to daily files.
some_streams :
    map (λ h. h.stream.cadence) (build_streams some_config some_universe) ≡ monthly ∷ daily ∷ []
unfolding build_streams find_exchange find_market symbol_index resolve market_of_slot find_endpoint
    supports fallback_cadence open_stream
some_streams = refl

build_streams-IsPublished_example :
    All (IsPublished some_universe) (build_streams some_config some_universe)
build_streams-IsPublished_example = build_streams-IsPublished some_config some_universe
