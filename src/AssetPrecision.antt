-- ===== src/AssetPrecision.antt =====
-- crates/feeder/src/core/asset_precision.rs: the number of decimals of each asset.
--
-- Texts are their bytes, the maps are association lists, and the lock is left out: each operation
-- takes it once or only reads. The smallest price and quantity, which are f64 quotients of one, and
-- the scaling of f64 values are left out, and so are the files. A scale factor of more than 18
-- decimals is `none`, the panic of a build with overflow checks.
pub mod Update
mod Tests
use Prim.Native.Char.{code}
use Prim.Native.String.{String}
use trading_platform.Prelude.{
  ℕ, suc, ◌+◌, ◌^◌, Bool, true, false, Option, none, some, List, [], ◌∷◌, ◌++◌, ◌==◌, leb,
  if◌then◌else◌, ◌>>=◌, map_some,
}
use trading_platform.Prelude.Dict.{lookup, insert}
use trading_platform.Prelude.Bytes.{Text, text_eq, bytes_of}

pub record AssetPrecision : Type 0 where
  pub symbol : Text
  pub price_decimals : ℕ
  pub quantity_decimals : ℕ
  pub scale_factor : ℕ

-- `AssetPrecision::new`, which also takes ten to the power of the quantity's decimals.
unfoldable pub new_precision : Text → ℕ → ℕ → Option AssetPrecision
new_precision symbol price_decimals quantity_decimals =
    if leb price_decimals 18
    then (if leb quantity_decimals 18
        then some (record {
          symbol = symbol;
          price_decimals = price_decimals;
          quantity_decimals = quantity_decimals;
          scale_factor = 10 ^ price_decimals;
        })
        else none)
    else none

pub record PrecisionManager : Type 0 where
  pub precisions : List (Text × AssetPrecision)
  pub exchange_defaults : List (Text × List (Text × ℕ))

-- The precisions that `PrecisionManager::new` knows: the key, the symbol, and the decimals.
abbrev known_precisions : List (String × String × ℕ × ℕ)
known_precisions =
    ("Binance:BTC/USDT", "BTC/USDT", 2, 6)
    ∷ ("Binance:ETH/USDT", "ETH/USDT", 2, 5)
    ∷ ("Binance:SHIB/USDT", "SHIB/USDT", 8, 0)
    ∷ ("Binance:PEPE/USDT", "PEPE/USDT", 8, 0)
    ∷ ("Upbit:BTC/KRW", "BTC/KRW", 0, 8)
    ∷ ("Upbit:ETH/KRW", "ETH/KRW", 0, 8)
    ∷ ("Upbit:BTC/USDT", "BTC/USDT", 4, 6)
    ∷ ("Upbit:SHIB/KRW", "SHIB/KRW", 2, 0)
    ∷ ("Coinbase:BTC/USD", "BTC/USD", 2, 8)
    ∷ ("Coinbase:ETH/USD", "ETH/USD", 2, 8)
    ∷ ("Coinbase:SHIB/USD", "SHIB/USD", 8, 0)
    ∷ ("Bybit:BTC/USDT", "BTC/USDT", 2, 6)
    ∷ ("Bybit:SHIB/USDT", "SHIB/USDT", 9, 0)
    ∷ ("OKX:BTC/USDT", "BTC/USDT", 1, 8)
    ∷ ("OKX:SHIB/USDT", "SHIB/USDT", 10, 0)
    ∷ ("AAPL", "AAPL", 2, 0)
    ∷ ("TSLA", "TSLA", 2, 0)
    ∷ ("SPY", "SPY", 2, 0)
    ∷ []

abbrev known_defaults : List (Text × List (Text × ℕ))
known_defaults =
    (bytes_of "Binance", (bytes_of "spot", 8) ∷ (bytes_of "futures", 8) ∷ [])
    ∷ (bytes_of "Upbit", (bytes_of "KRW", 0) ∷ (bytes_of "USDT", 8) ∷ [])
    ∷ (bytes_of "Coinbase", (bytes_of "USD", 2) ∷ (bytes_of "USDT", 8) ∷ [])
    ∷ []

-- All decimals of the table are below 18.
abbrev of_table : List (String × String × ℕ × ℕ) → List (Text × AssetPrecision)
of_table [] = []
of_table ((key, symbol, price, quantity) ∷ rest) =
    (
      bytes_of key,
      record {
        symbol = bytes_of symbol;
        price_decimals = price;
        quantity_decimals = quantity;
        scale_factor = 10 ^ price;
      },
    )
    ∷ of_table rest

unfoldable pub new_precision_manager : PrecisionManager
new_precision_manager = record {
  precisions = of_table known_precisions;
  exchange_defaults = known_defaults;
}

-- format!("{}:{}", exchange, symbol)
abbrev pub pair_key : Text → Text → Text
pair_key exchange symbol = exchange ++ b':' ∷ symbol

-- The text after the first slash, and up to the next: `symbol.split('/').nth(1)`.
unfoldable pub before_slash : Text → Text
before_slash [] = []
before_slash (c ∷ cs) = if c == b'/' then [] else c ∷ before_slash cs

unfoldable pub quote_of : Text → Option Text
quote_of [] = none
quote_of (c ∷ cs) = if c == b'/' then some (before_slash cs) else quote_of cs

-- The default of the exchange for the quote currency of the symbol.
unfoldable pub default_decimals : PrecisionManager → Text → Text → Option ℕ
default_decimals m exchange symbol = do
  defaults ← lookup exchange m.exchange_defaults
  quote ← quote_of symbol
  lookup quote defaults

unfoldable pub get_fallback : PrecisionManager → Text → Option AssetPrecision
get_fallback m symbol = elim (lookup symbol m.precisions) [
  | some precision ↦ some precision
  | none ↦ new_precision symbol 8 8
]

unfoldable pub get_precision : PrecisionManager → Text → Option Text → Option AssetPrecision
get_precision m symbol none = get_fallback m symbol
get_precision m symbol (some exchange) = elim (lookup (pair_key exchange symbol) m.precisions) [
  | some precision ↦ some precision
  | none ↦ elim (default_decimals m exchange symbol) [
    | some decimals ↦ new_precision symbol decimals 8
    | none ↦ get_fallback m symbol
  ]
]

unfoldable pub update_from_exchange :
    Text → Text → ℕ → ℕ → PrecisionManager → Option PrecisionManager
update_from_exchange exchange symbol price_decimals quantity_decimals m =
    map_some
      (λ precision. record m {
        precisions = insert (pair_key exchange symbol) precision m.precisions;
      })
      (new_precision symbol price_decimals quantity_decimals)

unfoldable pub get_price_decimals : PrecisionManager → Text → Option Text → Option ℕ
get_price_decimals m symbol exchange =
    map_some (λ p. p.price_decimals) (get_precision m symbol exchange)
