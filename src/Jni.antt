-- ===== src/Jni.antt =====
-- Csi/JNICsi.c: the functions that the Java class CsiUtils calls.
pub mod Csi
pub mod Dot11Rt
pub mod Chanspec
mod Tests
