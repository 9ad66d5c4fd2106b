-- ===== src/Capture.antt =====
-- Csi/csiutil.c: the program that captures packets, prints them and forwards them.
pub mod Options
pub mod Event
pub mod Log
pub mod Csi
pub mod Dot11
pub mod Packet
pub mod Forward
pub mod Session
pub mod Delivery
pub mod Program
mod Tests
