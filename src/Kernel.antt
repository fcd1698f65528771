-- ===== src/Kernel.antt =====
-- The state of the kernel and the commands on it.
mod State
mod Command
mod External
mod Outcome
pub use State.*
pub use Command.*
pub use External.*
pub use Outcome.*
