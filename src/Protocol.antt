-- ===== src/Protocol.antt =====
-- src/client/lib/qos/protocol.js: the payloads that go between a client and the server, and the parsers
-- that check them. A parsed payload is a record; where the source has a number the record has one.
mod Readers
mod Payloads
mod Parsers
mod Values
mod Validity
mod Promises
mod Naming
pub mod RoundTrip
pub mod Soundness
pub mod Exchange
mod Examples
unfoldable pub use Readers.*
unfoldable pub use Payloads.*
unfoldable pub use Parsers.*
unfoldable pub use Values.*
unfoldable pub use Validity.*
