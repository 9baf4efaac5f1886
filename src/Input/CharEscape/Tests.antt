-- ===== src/Input/CharEscape/Tests.antt =====
-- Runs of the escapes, and the theorem at a concrete input.
use novus.Base.{◌≡◌, refl, some, none, ◌↔◌, codes}
use novus.Input.CharEscape.{
  escape, unescape, escape_char, escape_loop, escape_str, unescape-escape_iff,
}

escape_tab : escape_str (codes "a\tb\"") ≡ codes "a\\tb\\\""
unfolding escape_str escape_loop escape_char escape
escape_tab = refl

unescape_other : unescape b'x' ≡ none
unfolding unescape
unescape_other = refl

unescape-escape_iff_example : (escape 10 ≡ some b'n') ↔ (unescape b'n' ≡ some 10)
unescape-escape_iff_example = unescape-escape_iff 10 b'n'
