-- ===== src/Binance.antt =====
-- include/data_source/source/exchange/binance/binance_historical: how the rows of the venue's files are
-- read.
pub mod Csv
pub mod Endpoints
pub mod Stamps
pub mod Stream
pub mod Merge
pub mod Rows
mod Examples
