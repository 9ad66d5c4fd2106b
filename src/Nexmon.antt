-- ===== src/Nexmon.antt =====
-- Csi/nex_csi4339.h and Csi/nex_dot11rt.h: the packed structs that the firmware sends, read from
-- memory.
pub mod Mac
pub mod Csi4339
pub mod Dot11Rt
