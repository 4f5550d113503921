-- ===== src/AssetPrecision/Tests.antt =====
-- The precisions that the manager starts with, and an update of one.
use trading_platform.Prelude.{◌≡◌, refl, ◌&&◌, some, arith, if◌then◌else◌}
use trading_platform.Prelude.Bytes.{text_eq, bytes_of}
use trading_platform.Prelude.Dict.{lookup, insert}
use trading_platform.AssetPrecision.{
  PrecisionManager, new_precision_manager, pair_key, new_precision, quote_of, before_slash,
  default_decimals, get_precision, get_price_decimals, update_from_exchange,
}
use trading_platform.AssetPrecision.Update.{update_from_exchange_lem}

btc_on_okx :
    get_price_decimals new_precision_manager (bytes_of "BTC/USDT") (some (bytes_of "OKX")) ≡ some 1
unfolding get_price_decimals get_precision new_precision_manager lookup
btc_on_okx = refl

-- No precision of this pair is known: the default of its quote currency is taken.
xrp_on_upbit :
    get_price_decimals new_precision_manager (bytes_of "XRP/KRW") (some (bytes_of "Upbit")) ≡ some 0
unfolding get_price_decimals get_precision new_precision_manager new_precision lookup
    default_decimals quote_of before_slash
xrp_on_upbit = refl

abbrev five_decimals : PrecisionManager
five_decimals = record new_precision_manager {
  precisions =
      insert (pair_key (bytes_of "OKX") (bytes_of "BTC/USDT"))
        (record {
          symbol = bytes_of "BTC/USDT";
          price_decimals = 5;
          quantity_decimals = 8;
          scale_factor = 100000;
        })
        new_precision_manager.precisions;
}

five_decimals_made :
    update_from_exchange (bytes_of "OKX") (bytes_of "BTC/USDT") 5 8 new_precision_manager
    ≡ some five_decimals
unfolding update_from_exchange new_precision
five_decimals_made = refl

update_from_exchange_lem_example :
    get_precision five_decimals (bytes_of "SHIB/USDT") (some (bytes_of "OKX")) ≡ (
      if text_eq.beq (bytes_of "OKX") (bytes_of "OKX")
        && text_eq.beq (bytes_of "BTC/USDT") (bytes_of "SHIB/USDT")
      then new_precision (bytes_of "BTC/USDT") 5 8
      else get_precision new_precision_manager (bytes_of "SHIB/USDT") (some (bytes_of "OKX")))
update_from_exchange_lem_example =
    update_from_exchange_lem (bytes_of "OKX") (bytes_of "BTC/USDT") (bytes_of "OKX")
      (bytes_of "SHIB/USDT") 5 8 new_precision_manager five_decimals (omega arith) (omega arith)
      (omega arith) five_decimals_made
