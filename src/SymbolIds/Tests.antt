-- ===== src/SymbolIds/Tests.antt =====
-- A run of the mapper.
use Prim.Native.String.{String}
use trading_platform.Prelude.{◌≡◌, refl, [], ◌∷◌}
use trading_platform.Prelude.Dict.{lookup, insert}
use trading_platform.SymbolIds.{SymbolMapper, add_name, add_symbol, new_mapper}

abbrev same : String → String
same s = s

abbrev one : SymbolMapper
unfolding new_mapper
one = record new_mapper { symbol_to_id = ("BTCUSDT", 0) ∷ []; id_to_symbol = "BTCUSDT" ∷ [] }

-- A second symbol has the number 1, and keeps it when it is added again.
second_symbol :
    ((add_symbol same same "ETHUSDT" one).1 ≡ 1)
    × ((add_symbol same same "ETHUSDT" (add_symbol same same "ETHUSDT" one).0).1 ≡ 1)
unfolding add_symbol add_name one new_mapper lookup insert
second_symbol = (refl, refl)
