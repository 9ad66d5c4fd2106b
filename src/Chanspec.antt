-- ===== src/Chanspec.antt =====
-- The chanspec codec of Csi/makecsiparams/bcmwifi_channels.c with D11AC_IOTYPES.
pub mod Fields
pub mod Sideband
pub mod Check
pub mod Control
pub mod Print
pub mod Pair
pub mod Parse
pub mod WellFormed
pub mod RoundTrip
pub mod Build
pub mod Frequency
pub mod Legacy
pub mod Tests
