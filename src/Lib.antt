-- ===== src/Lib.antt =====
-- A model of the core of the trading platform: order books, their feed and their packets.
--
-- Market data comes in from the exchanges through the feeder (crates/feeder), which sends it as
-- binary packets; the matching engine (crates/matching-engine) keeps order books from it in two
-- ways and infers order events; crates/market-types holds the data that the crates share.
--
-- Parts and files:
--   MarketTypes      crates/market-types/src: Exchange, PriceLevel, OrderBookUpdate, OrderBook,
--                    OrderEvent.
--   Sequence         crates/market-types/src/sequence.rs: the sequence extractors and `has_gap`.
--   HftBook          crates/matching-engine/src/hft_orderbook.rs: FastOrderBook, `update_bid`,
--                    `remove_bid`, their twins for asks, and `apply_update`.
--   RingBuffer       the same file: RingBuffer with `push` and `pop`; RingBuffer.Threads has the
--                    producer and the consumer as steps, one for each load and store.
--   Processor        the same file: HFTOrderBookProcessor, which registers symbols, converts
--                    updates for a ring, and applies batches from a ring to the books.
--   BuilderState, Builder
--                    crates/matching-engine/src/orderbook_builder.rs: the state machine of
--                    OrderBookBuilder; `step` is one round of the loop of `run`.
--   Engine           crates/matching-engine/src/engine/mod.rs: MatchingEngine.
--   OrderTypes, Oms  crates/matching-engine/src/types.rs and oms/mod.rs: orders and positions.
--   Packet           crates/feeder/src/core/binary_udp_packet.rs, and TimestampUnit of
--                    crates/feeder/src/load_config.rs.
--   MarketCache      crates/feeder/src/core/market_cache.rs: a slot, its writer and its reader as steps.
--   History          crates/feature-engineering/src/history.rs: the books, trades and order events
--                    of the last moments.
--   DataValidator    crates/matching-engine/src/data_ingestion/data_validator.rs.
--   Synchronizer     crates/feeder/src/crypto/feed/binance_snapshot.rs: joining a depth stream to a
--                    snapshot; Synchronizer.Fetch has the requests for the snapshot.
--   ConnectionLimits crates/feeder/src/core/robust_connection.rs: limits on attempts to connect.
--   Timestamps       crates/feeder/src/core/timestamp_filter.rs and timestamp_normalizer.rs.
--   UdpSenders       crates/feeder/src/core/buffered_udp_sender.rs and ordered_udp_sender.rs:
--                    chunks, and the heap that orders packets.
--   FeederTypes      crates/feeder/src/core/types.rs: numbers from text, normalized data, circular
--                    buffers.
--   UdpProtocol      crates/udp-protocol/src/codec.rs and receiver.rs: the binary codec, and what the
--                    receiver makes of a packet.
--   Nbbo             crates/matching-engine/src/nbbo/mod.rs: the best bid and offer across exchanges.
--   ConnectionManager
--                    crates/feeder/src/core/connection_manager.rs: the register of connections.
--   AssetPrecision   crates/feeder/src/core/asset_precision.rs: the decimals of each asset.
--   EnhancedPacket   crates/feeder/src/core/enhanced_packet.rs: packets with the scale of their
--                    numbers, in binary and as text.
--   OrderBookManager
--                    crates/feeder/src/core/orderbook_manager.rs: the builders of order books by
--                    exchange and symbol, and the routing of updates to them.
--   SymbolIds        crates/feeder/src/core/symbol_mapper_cache.rs: numbers for names.
--   PacketMetrics    crates/feeder/src/core/packet_validator.rs: counts of packets out of order.
--   Prices           the comparison of prices that Builder and Engine share, and prices that are no
--                    NaN.
--   Prelude, Floats  shared names and lemmas; the f64 operations as a parameter.
--
-- In Processor, the updates that `convert_update` makes are what RingBuffer carries and what
-- HftBook applies. FeederTypes rescales as Packet does. EnhancedPacket takes the decimals that
-- AssetPrecision answers. UdpProtocol has both ends of its packets. OrderBookManager routes updates
-- to the builders of Builder, of which it sees the channels. The other parts are apart from these
-- and from each other; they share MarketTypes and Prelude.
--
-- State is a record, an operation a function to the state after it. A panic is `none`, an error an
-- `err`. Arrays are lists with checked access, maps are association lists. Unsigned integers wrap
-- where the code counts; i64 prices and quantities of the books are only compared and moved.
-- Machine floats are the record `Floats`, of which no law is assumed; a theorem that needs one has
-- it as a hypothesis. JSON values, the parsing of numbers, and the bytes of f64 values and of texts
-- are parameters as well.
--
-- Each loop has the number of its rounds, or a list, to recurse on; the endless loops are one round
-- each, and reachability is a relation over rounds. Fuel is used where a list is cut up or drained:
-- chunks have the length of the data, and a flush the size of the heap, which is enough as each
-- round takes an element away; the digits of a number have 19 divisions, enough for a u64. The
-- retries of a fetch recurse on the replies of the network, of which three are enough. The
-- constants are those of the source: 20 levels, 10 levels of an update, 65536 cells of a ring, 2048 symbols, 10000
-- buffered updates.
--
-- Not modelled: sockets, files, databases, logging, CPU pinning and prefetching, the exchange
-- feeds but for Binance's snapshot, random delays, Unicode's tables of letter case, weaker memory
-- orders than the interleaving of whole loads and stores, the fast updates and the table of slots
-- of the market cache, the endless repetition and the statistics of `start_processing`, of which
-- `process_round` is one round, and trade packets.
pub mod Prelude
pub mod HftBook
pub mod RingBuffer
pub mod Floats
pub mod MarketTypes
pub mod Processor
pub mod BuilderState
pub mod Builder
pub mod Prices
pub mod Sequence
pub mod Engine
pub mod OrderTypes
pub mod Nbbo
pub mod Oms
pub mod Packet
pub mod MarketCache
pub mod History
pub mod DataValidator
pub mod Synchronizer
pub mod FeederTypes
pub mod ConnectionLimits
pub mod ConnectionManager
pub mod Timestamps
pub mod AssetPrecision
pub mod UdpProtocol
pub mod EnhancedPacket
pub mod OrderBookManager
pub mod UdpSenders
pub mod SymbolIds
pub mod PacketMetrics
