-- ===== src/Kitty/Codes.antt =====
-- The codes of keys that kitty_conin.cpp names (ed_edkc.h).
mod Plain
mod Alt
mod Ctrl
pub use Plain.*
pub use Alt.*
pub use Ctrl.*
