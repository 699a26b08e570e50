-- ===== src/Regs.antt =====
-- sdhci.h: the constants of the controller, one child for each kind.
mod Offsets
mod Control
mod Interrupts
mod Quirks
mod Attributes
pub use Offsets.*
pub use Control.*
pub use Interrupts.*
pub use Quirks.*
pub use Attributes.*
