-- ===== src/CsiParams.antt =====
-- Csi/makecsiparams/makecsiparams.c: the parameters of the CSI extraction, from the options of
-- the command line to a line of base64.
pub mod Base64
pub mod Store
pub mod Options
pub mod Consistent
pub mod Addresses
pub mod Loop
pub mod Program
pub mod Printed
pub mod Delay
mod Tests
