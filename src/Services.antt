-- ===== src/Services.antt =====
-- What the program calls and does not implement: the Equinix Metal API (packngo), the Kubernetes
-- clients and work queues, YAML, `errors.Wrap`, and the process around it (environment, files, clock,
-- random numbers). `Calls` lists the calls, `Monad` runs Go functions that make them, and `Trace`
-- speaks of the calls that a function has made, `Outcome` of what it returns, `Success` of what it does
-- when no call fails, `Total` of how it then changes the outside.
mod Calls
mod Monad
mod Trace
mod Outcome
mod Success
mod Total
pub use Calls.*
unfoldable pub use Monad.*
pub use Trace.*
pub use Outcome.*
pub use Success.*
pub use Total.*
