-- ===== src/Libc.antt =====
-- What the tools use of the C standard library: `strtoul`, `strtol`, `tolower`, `snprintf`
-- and `%d`. Strings are lists of bytes without the NUL at their end.
pub mod Scan
pub mod Decimal
pub mod Argp
pub mod Format
