-- ===== src/Api.antt =====
-- The wire types of api/types.go and api/merged.go. `*T` is `Option T`, `map[string]T` is `Map T`,
-- a time is a number of nanoseconds with 0 for the zero time, and a score is of a type `S` whose
-- order and arithmetic are an interface (`Score`), since there are no floats here.
mod Values
mod Findings
mod Results
mod Decisions
mod Submissions
mod Capabilities
pub use Values.{Json, Fields, Extensions, Time, Duration}
unfoldable pub use Values.{shift}
pub use Findings.*
pub use Results.*
unfoldable pub use Decisions.{decision_value}
pub use Decisions.*
pub use Submissions.*
pub use Capabilities.*
