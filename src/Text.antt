-- ===== src/Text.antt =====
-- Go strings as lists of code points, and what the driver uses of `strings` and `strconv`.
pub mod Split
pub mod Trim
pub mod Cut
pub mod Decimal
