-- ===== src/Binance/Stream.antt =====
-- include/data_source/source/exchange/binance/binance_historical/stream.hpp: the state of one stream,
-- and fetch_pool.hpp: what it asks of the pool. The rows are in Stream/Reader.antt, the files in
-- Stream/Files.antt.
pub mod Lines
pub mod Reader
pub mod Files
