-- ===== src/Controller.antt =====
-- src/client/lib/qos/controller.js: the publisher's controller, which samples a sender, runs the state
-- machine, plans actions and has them executed, and reports to the server. One call of
-- `processSample` is one step; the executor and the signal channel answer from outside.
mod State
mod Settings
mod Filter
mod Actions
mod Process
mod Policy
mod Levels
mod OnLadder
mod Reports
mod Wire
mod WireExample
mod Rollback
mod Suppression
mod Counts
mod Forcing
mod Policies
mod Life
mod Examples
unfoldable pub use State.*
unfoldable pub use Settings.*
unfoldable pub use Filter.*
unfoldable pub use Actions.*
unfoldable pub use Process.*
