-- ===== src/Inject.antt =====
-- Csi/injectutil.c and Csi/nex_inject.h: the program that injects a frame.
pub mod Radiotap
pub mod Frames
pub mod Options
pub mod Program
pub mod Socket
pub mod Main
pub mod Laws
pub mod Command
mod Tests
