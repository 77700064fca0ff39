-- ===== src/Types.antt =====
-- The data that the parts of src/client/lib/qos pass to one another: the string unions of
-- types.d.ts as data types, its interfaces as records. A measured number is of a type `W` with
-- `Number W`; levels, counts and milliseconds are natural numbers.
mod Enums
mod Snapshots
mod Profiles
mod Actions
pub use Enums.*
pub use Snapshots.*
pub use Profiles.*
pub use Actions.*
