-- ===== src/StatsProvider.antt =====
-- src/client/lib/qos/adapters/statsProvider.js: the statistics of a producer, added up over its streams
-- into a raw snapshot. The report and the time of the platform are arguments, and so is the bitrate that
-- the producer's adapter is configured with. The durations of limitations, that nothing here reads, are
-- left out.
mod Entries
mod Sums
pub mod Freshness
mod Examples
unfoldable pub use Entries.*
unfoldable pub use Sums.*
