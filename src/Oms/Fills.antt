-- ===== src/Oms/Fills.antt =====
-- What a fill makes of the positions.
use trading_platform.Prelude.{◌≡◌, true, none, arith}
use trading_platform.Prelude.Int.{ℤ}
use trading_platform.Floats.{Floats}
use trading_platform.MarketTypes.{sell}
use trading_platform.Oms.{trade_position}
use trading_platform.OrderTypes.{Position}

module _ (floats : Floats) where
  open floats use {F, literal, add, neg, signum, eq}

  -- Selling the whole of a long position realises no profit or loss: where the sign of what is
  -- left, nothing, counts as that of the position, as `signum` of 0.0 is 1.0, the position is
  -- emptied and the profit dropped.
  pub closing_long_realizes_nothing :
      (p : Position F) (price : F) (timestamp : ℤ)
      → eq (add p.quantity (neg p.quantity)) (literal 0) ≡ true
      → eq (signum p.quantity) (signum (add p.quantity (neg p.quantity))) ≡ true
      → let (p', pnl) = trade_position floats p sell p.quantity price timestamp in
        (pnl ≡ none)
        × (p'.realized_pnl ≡ p.realized_pnl)
        × (p'.quantity ≡ literal 0)
        × (p'.avg_entry_price ≡ literal 0)
  unfolding trade_position
  closing_long_realizes_nothing p price timestamp none_left same =
      rw (none_left, same) (ground arith)
