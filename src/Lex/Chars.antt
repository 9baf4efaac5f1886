-- ===== src/Lex/Chars.antt =====
-- The classes of characters of src/lex/lexer.cpp, on unsigned char codes.
use novus.Base.{ℕ, Bool, true, false, List, [], ◌∷◌, ◌&&◌, ◌||◌, leb, ◌==◌, if◌then◌else◌}

abbrev elem : ℕ → List ℕ → Bool
elem c [] = false
elem c (x ∷ xs) = if c == x then true else elem c xs

-- \0 \t \n \r and space, then ! " # $ % & ( ) * + , - . / : ; < = > ? @ [ \ ] ^ ` { | } ~
abbrev seperators : List ℕ
seperators =
    0 ∷ 9 ∷ 10 ∷ 13 ∷ 32 ∷ 33 ∷ 34 ∷ 35 ∷ 36 ∷ 37 ∷ 38 ∷ 40 ∷ 41 ∷ 42 ∷ 43 ∷ 44 ∷ 45 ∷ 46 ∷ 47 ∷ 58
    ∷ 59 ∷ 60 ∷ 61 ∷ 62 ∷ 63 ∷ 64 ∷ 91 ∷ 92 ∷ 93 ∷ 94 ∷ 96 ∷ 123 ∷ 124 ∷ 125 ∷ 126 ∷ []

unfoldable pub is_token_seperator : ℕ → Bool
is_token_seperator c = elem c seperators

unfoldable pub is_digit : ℕ → Bool
is_digit c = leb b'0' c && leb c b'9'

unfoldable pub is_word_start : ℕ → Bool
is_word_start c = (leb b'A' c && leb c b'Z') || (leb b'a' c && leb c b'z') || leb 0xC0 c

unfoldable pub is_word_continuation : ℕ → Bool
is_word_continuation c = (leb b'A' c && leb c b'Z') || (leb b'a' c && leb c b'z') || leb 0x80 c
