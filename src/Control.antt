-- ===== src/Control.antt =====
-- internal/control: the methods of the control service, and the client that queries it and lays
-- its answers out. A line of a tabwriter is a list of cells, one for each verb of its format.
mod Cells
mod Client
unfoldable pub use Cells.*
unfoldable pub use Client.*
pub mod Order
pub mod Queries
pub mod Rates
pub mod Server
