-- ===== src/Profiles.antt =====
-- src/client/lib/qos/profiles.js: the built-in profiles, the registry of named ones, and a profile
-- with parts of it overridden. `cloneProfile` copies; values here are not shared, so it is the
-- identity where it does not throw.
mod Defaults
mod Resolve
pub mod WellFormed
mod Examples
unfoldable pub use Defaults.*
unfoldable pub use Resolve.*
