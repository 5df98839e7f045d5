-- ===== src/Kitty.antt =====
-- The decoder of key events of a terminal with the kitty keyboard protocol (kitty_conin.cpp).
pub mod Codes
pub mod Variants
pub mod Ascii
pub mod Keys
pub mod Events
pub mod Reads
pub mod Letters
pub mod Ranges
pub mod Bounds
