-- ===== src/SymbolIds.antt =====
-- crates/feeder/src/core/symbol_mapper_cache.rs: numbers for the names of exchanges and symbols.
--
-- `to_lowercase` and `to_uppercase` of the standard library are parameters, being Unicode's tables.
-- The maps are association lists. The lock around the one mapper is left out.
pub mod Names
mod Tests
use Prim.Native.String.{String}
use trading_platform.Prelude.{
  ℕ, ◌+◌, ◌-◌, Bool, true, false, Option, none, some, List, [], ◌∷◌, ◌++◌, ◌==◌, if◌then◌else◌,
  length, get_elem?,
}
use trading_platform.Prelude.Dict.{lookup, insert, string_eq}

pub record SymbolMapper : Type 0 where
  pub exchange_to_id : List (String × ℕ)
  pub id_to_exchange : List String
  pub symbol_to_id : List (String × ℕ)
  pub id_to_symbol : List String

unfoldable pub new_mapper : SymbolMapper
new_mapper = record {
  exchange_to_id = [];
  id_to_exchange = [];
  symbol_to_id = [];
  id_to_symbol = [];
}

-- What adding a name does to one map and its list, and the number of the name.
unfoldable pub add_name :
    String → List (String × ℕ) → List String → (List (String × ℕ) × List String) × ℕ
add_name name ids names = elim (lookup name ids) [
  | some id ↦ ((ids, names), id)
  | none ↦ ((insert name (length names) ids, names ++ name ∷ []), length names)
]

module _ (to_lowercase to_uppercase : String → String) where
  unfoldable pub add_exchange : String → SymbolMapper → SymbolMapper × ℕ
  unfolding add_name
  add_exchange name m =
      let ((ids, names), id) = add_name (to_lowercase name) m.exchange_to_id m.id_to_exchange in
      (record m { exchange_to_id = ids; id_to_exchange = names }, id)

  unfoldable pub add_symbol : String → SymbolMapper → SymbolMapper × ℕ
  unfolding add_name
  add_symbol name m =
      let ((ids, names), id) = add_name (to_uppercase name) m.symbol_to_id m.id_to_symbol in
      (record m { symbol_to_id = ids; id_to_symbol = names }, id)

  unfoldable pub add_exchanges : List String → SymbolMapper → SymbolMapper
  unfolding add_exchange
  add_exchanges [] m = m
  add_exchanges (name ∷ names) m = add_exchanges names (add_exchange name m).0

  unfoldable pub new_with_defaults : SymbolMapper
  unfolding add_exchanges new_mapper
  new_with_defaults =
      add_exchanges
        ("binance" ∷ "bybit" ∷ "upbit" ∷ "coinbase" ∷ "okx" ∷ "deribit" ∷ "bithumb" ∷ "ls" ∷ [])
        new_mapper

  unfoldable pub get_exchange_id : String → SymbolMapper → Option ℕ
  get_exchange_id name m = lookup (to_lowercase name) m.exchange_to_id

  unfoldable pub get_symbol_id : String → SymbolMapper → Option ℕ
  get_symbol_id name m = lookup (to_uppercase name) m.symbol_to_id

unfoldable pub get_exchange_name : ℕ → SymbolMapper → Option String
get_exchange_name id m = get_elem? m.id_to_exchange id

unfoldable pub get_symbol_name : ℕ → SymbolMapper → Option String
get_symbol_name id m = get_elem? m.id_to_symbol id

-- The bytes of a name up to the first zero; the source makes a text of them.
unfoldable pub parse_name : List ℕ → List ℕ
parse_name [] = []
parse_name (b ∷ bytes) = let rest = parse_name bytes in if b == 0 then [] else b ∷ rest
