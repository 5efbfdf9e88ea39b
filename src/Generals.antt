-- ===== src/Generals.antt =====
-- src/general.h and src/general.cc: what the commander and the lieutenants share, and the two
-- kinds of general.
pub mod Base
pub mod Count
pub mod Clients
pub mod Acks
pub mod Commander
pub mod Forward
pub mod Validation
pub mod Lieutenant
pub mod Protocol
pub mod Made
pub mod Paths
pub mod Senders
pub mod Network
pub mod Scenario
mod CountTests
mod ClientsTests
mod AcksTests
