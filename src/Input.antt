-- ===== src/Input.antt =====
-- Source input: character escapes.
pub mod CharEscape
