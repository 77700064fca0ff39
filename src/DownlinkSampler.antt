-- ===== src/DownlinkSampler.antt =====
-- src/client/lib/qos/downlinkSampler.js: the statistics of the receiving transport, matched with the
-- hints of the user interface. What `getStats` returns is a parameter: a row of reports, or `none` where it
-- is not a map. A numeric field of a report is a number or missing.
mod Arithmetic
mod Sample
pub mod Percent
pub mod Matching
mod Served
pub mod Account
mod Examples
unfoldable pub use Arithmetic.*
unfoldable pub use Sample.*
