-- ===== src/Nbbo/Best.antt =====
-- What a computed NBBO is, in terms of the books that are not stale.
use Prim.Native.String.{String}
use trading_platform.Prelude.{
  ◌+◌, ◌≡◌, inl, inr, refl, true, false, List, [], ◌∷◌, map, arith, if◌then◌else◌, length,
  Bool-cases,
}
use trading_platform.Prelude.Int.{ℤ}
use trading_platform.Prelude.Dict.{string_eq}
use trading_platform.Floats.{Floats}
use trading_platform.Nbbo.{
  Nbbo, NbboManager, Entry, Quote, Scan, first, is_stale, higher, scan_entry, scan_entries,
  start_scan,
}
use trading_platform.Nbbo.Running.{IsStrict, Offer, pick_best, Unbeaten, Offered}

module _ (fl : Floats) where
  open fl use {F, literal, lt, le}

  -- The entries of a symbol, and those of them that are not stale.
  unfoldable pub symbol_entries : String → List (Entry fl) → List (Entry fl)
  symbol_entries symbol [] = []
  symbol_entries symbol (entry ∷ entries) =
      if string_eq.beq entry.0.0 symbol
      then entry ∷ symbol_entries symbol entries
      else symbol_entries symbol entries

  unfoldable pub fresh_entries : ℤ → ℤ → List (Entry fl) → List (Entry fl)
  fresh_entries max_stale_ms now [] = []
  fresh_entries max_stale_ms now (entry ∷ entries) =
      if is_stale fl max_stale_ms now entry.1
      then fresh_entries max_stale_ms now entries
      else entry ∷ fresh_entries max_stale_ms now entries

  abbrev pub bid_offer : Entry fl → Offer fl
  bid_offer entry = (first fl entry.1.order_book.bids, entry.0.1)

  abbrev pub ask_offer : Entry fl → Offer fl
  ask_offer entry = (first fl entry.1.order_book.asks, entry.0.1)

  abbrev pub fresh_books : String → ℤ → NbboManager fl → List (Entry fl)
  fresh_books symbol now m = fresh_entries m.max_stale_ms now (symbol_entries symbol m.order_books)

  pub record Scanned (s t : Scan fl) (fresh : List (Entry fl)) : Type 0 where
    pub bid_picked : t.bid ≡ pick_best fl (higher fl) s.bid (map bid_offer fresh)
    pub ask_picked : t.ask ≡ pick_best fl lt s.ask (map ask_offer fresh)
    pub counted : t.num_exchanges ≡ s.num_exchanges + length fresh

  pub scan_entries-Scanned :
      (max_stale_ms : ℤ) (symbol : String) (now : ℤ) (s : Scan fl) (entries : List (Entry fl))
      → Scanned s
          (scan_entries fl max_stale_ms symbol now s entries)
          (fresh_entries max_stale_ms now (symbol_entries symbol entries))
  unfolding scan_entries scan_entry symbol_entries fresh_entries pick_best
  scan_entries-Scanned x symbol now s [] = record {
    bid_picked = refl;
    ask_picked = refl;
    counted = omega arith;
  }
  scan_entries-Scanned x symbol now s (entry ∷ entries) =
      let ih = scan_entries-Scanned x symbol now (scan_entry fl x symbol now s entry) entries in
      elim (Bool-cases (string_eq.beq entry.0.0 symbol)) [
        | inr other ↦ rw other (rw other at ih)
        | inl same ↦ elim (Bool-cases (is_stale fl x now entry.1)) [
          | inl stale ↦
              let ih' = rw (same, stale) at ih in
              rw (same, stale)
                (record {
                  bid_picked = ih'.bid_picked;
                  ask_picked = ih'.ask_picked;
                  counted = ih'.counted;
                })
          | inr fresh ↦
              let ih' = rw (same, fresh) at ih in
              rw (same, fresh)
                (record {
                  bid_picked = ih'.bid_picked;
                  ask_picked = ih'.ask_picked;
                  counted = omega (arith, ih'.counted);
                })
        ]
      ]

  -- What IEEE 754 says of the comparisons, and f64::MAX of itself.
  pub record IsNumeric (f64_max : F) : Type 0 where
    pub strict : IsStrict lt
    pub le-lt : (a b : F) → le a b ≡ true → lt b a ≡ false
    pub le_zero : le (literal 0) (literal 0) ≡ true
    pub le_max : le f64_max f64_max ≡ true

  module _ (f64_max : F) (laws : IsNumeric f64_max) where
    abbrev pub bid_quote : Nbbo fl → Quote fl
    bid_quote n = record {
      price = n.best_bid;
      quantity = n.best_bid_qty;
      exchange = n.best_bid_exchange;
    }

    abbrev pub ask_quote : Nbbo fl → Quote fl
    ask_quote n = record {
      price = n.best_ask;
      quantity = n.best_ask_qty;
      exchange = n.best_ask_exchange;
    }

    -- An NBBO holds the best bid and the best ask of these books, and their number.
    pub record IsBest (n : Nbbo fl) (books : List (Entry fl)) : Type 0 where
      pub bid_offered : Offered fl (bid_quote n) (map bid_offer books)
      pub bid_unbeaten : Unbeaten fl (higher fl) n.best_bid (map bid_offer books)
      pub ask_offered : Offered fl (ask_quote n) (map ask_offer books)
      pub ask_unbeaten : Unbeaten fl lt n.best_ask (map ask_offer books)
      pub counted : n.num_exchanges ≡ length books

    abbrev scan : String → ℤ → NbboManager fl → Scan fl
    scan symbol now m =
        scan_entries fl m.max_stale_ms symbol now (start_scan fl f64_max) m.order_books
