-- ===== src/Lex/Number/Decimal.antt =====
-- Decimal integer literals: the token is decided by the value of the digits, however many there are.
use novus.Base.{
  ℕ, ◌+◌, ◌-◌, ◌*◌, ◌^◌, ◌≤◌, ◌<◌, ◌≡◌, refl, ◌∙◌, ap, Bool, true, false, List, [], ◌∷◌, ◌++◌, ◌⊎◌,
  inl, arith, All, ltb, ◌==◌, if◌then◌else◌, ◌≢◌,
}
use novus.Lex.Token.{
  Payload, error, lit_int, lit_long, lit_int_too_big, lit_long_too_big,
  lit_number_ends_with_seperator,
}
use novus.Lex.Chars.{is_token_seperator, is_digit}
use novus.Lex.Source.{Source, source, advance, head_or_nul}
use novus.Lex.Number.{
  Number, add_digit, number_step, number_loop, finish_number, start_number, next_lit_number,
}

-- A character of a literal: a digit or the separator '_'.
abbrev pub IsDigitOrLine : ℕ → Type 0
IsDigitOrLine c = ((b'0' ≤ c) × (c ≤ b'9')) ⊎ (c ≡ b'_')

-- The value of the digits, the separators left out.
unfoldable pub value : ℕ → List ℕ → ℕ
value acc [] = acc
value acc (c ∷ cs) = value (if c == b'_' then acc else acc * 10 + (c - b'0')) cs

unfoldable pub last_of : ℕ → List ℕ → ℕ
last_of c [] = c
last_of c (d ∷ ds) = last_of d ds

-- The loop's variables after the digits so far have the value `v`, up to what fits 64 bits.
pub record Counts (v : ℕ) (n : Number) : Type 0 where
  pub exact : n.too_big ≡ false → n.result ≡ v
  pub fits : n.too_big ≡ false → v < 2 ^ 64
  pub over : n.too_big ≡ true → 2 ^ 64 ≤ v
  pub no_point : n.passed_dec_point ≡ false
  pub no_error : n.contains_invalid_char ≡ false
  pub no_long : n.is_long ≡ false

add_digit-Counts :
    (v d : ℕ) (n : Number) → d < 10 → Counts v n → Counts (v * 10 + d) (add_digit d n)
unfolding add_digit
add_digit-Counts v d n hd k = ground arith

number_step-Counts :
    (v c : ℕ) (n : Number)
    → IsDigitOrLine c
    → Counts v n
    → Counts (if c == b'_' then v else v * 10 + (c - b'0')) (number_step n c)
      × ((number_step n c).cur_char ≡ c)
unfolding number_step is_digit add_digit
number_step-Counts v c n h k = ground arith

digit-not-seperator : (c : ℕ) → IsDigitOrLine c → is_token_seperator c ≡ false
unfolding is_token_seperator
digit-not-seperator c h = ground arith

-- The state that the loop reaches behind the digits.
record Run (v c : ℕ) (n : Number) (pos : ℕ) (cs rest : List ℕ) : Type 0 where
  final : Number
  final_pos : ℕ
  counts : Counts v final
  last : final.cur_char ≡ c
  loop : number_loop n pos cs ≡ number_loop final final_pos rest

number_loop_go :
    (n : Number) (pos c : ℕ) (cs : List ℕ)
    → is_token_seperator c ≡ false
    → (number_step n c).is_long ≡ false
    → number_loop n pos (c ∷ cs) ≡ number_loop (number_step n c) (advance c pos) cs
unfolding number_loop
number_loop_go n pos c cs h k = ground arith

number_loop-Run :
    (ds rest : List ℕ) (v pos : ℕ) (n : Number)
    → All IsDigitOrLine ds
    → Counts v n
    → Run (value v ds) (last_of n.cur_char ds) n pos (ds ++ rest) rest
unfolding value last_of
number_loop-Run [] rest v pos n h k = record {
  final = n;
  final_pos = pos;
  counts = k;
  last = refl;
  loop = refl;
}
number_loop-Run (c ∷ ds) rest v pos n (hc, hs) k =
    let (k', l) = number_step-Counts v c n hc k in
    let r = number_loop-Run ds rest _ (advance c pos) (number_step n c) hs k' in
    record {
      final = r.final;
      final_pos = r.final_pos;
      counts = r.counts;
      last = r.last ∙ ap (λ (t : ℕ). last_of t ds) l;
      loop = number_loop_go n pos c (ds ++ rest) (digit-not-seperator c hc) k'.no_long ∙ r.loop;
    }

-- The loop stops at a separator that is no decimal point, and at the end of the input.
abbrev pub Stops : List ℕ → Type 0
Stops rest = (is_token_seperator (head_or_nul rest) ≡ true) × (head_or_nul rest ≢ b'.')

number_loop_stop :
    (n : Number) (pos : ℕ) (rest : List ℕ)
    → Stops rest
    → number_loop n pos rest ≡ (n, source pos rest)
unfolding number_loop
number_loop_stop n pos [] h = refl
number_loop_stop n pos (c ∷ cs) h = ground arith

start_number-Counts :
    (c : ℕ)
    → b'0' ≤ c
    → c ≤ b'9'
    → Counts (c - b'0') (start_number c) × ((start_number c).cur_char ≡ c)
unfolding start_number
start_number-Counts c h k = ground arith

-- The token of an integer literal, from its value, its last character, and the suffix for longs.
unfoldable pub int_token : Bool → ℕ → ℕ → Payload
int_token is_long v last =
    if last == b'_'
    then error lit_number_ends_with_seperator
    else if is_long
    then if ltb v (2 ^ 63) then lit_long v else error lit_long_too_big
    else if ltb v (2 ^ 31)
    then lit_int v
    else error lit_int_too_big

finish_number-Counts :
    (first v : ℕ) (n : Number) (s : Source)
    → Counts v n
    → n.cur_char ≢ b'.'
    → ((finish_number first (n, s)).0.payload ≡ int_token false v n.cur_char)
      × ((finish_number first (n, s)).1 ≡ s)
unfolding finish_number int_token
finish_number-Counts first v n s k h = ground arith

last_of-IsDigitOrLine :
    (c : ℕ) (ds : List ℕ) → IsDigitOrLine c → All IsDigitOrLine ds → IsDigitOrLine (last_of c ds)
unfolding last_of
last_of-IsDigitOrLine c [] h hs = h
last_of-IsDigitOrLine c (d ∷ ds) h (hd, hs) = last_of-IsDigitOrLine d ds hd hs

IsDigitOrLine-ne-dot : (c : ℕ) → IsDigitOrLine c → c ≢ b'.'
IsDigitOrLine-ne-dot c h = ground arith

value_first : (c : ℕ) (ds : List ℕ) → b'0' ≤ c → c ≤ b'9' → value 0 (c ∷ ds) ≡ value (c - b'0') ds
unfolding value
value_first c ds lo hi = ap (λ (v : ℕ). value v ds) (ground arith)

-- An integer literal without a suffix, of digits and '_' and of any length, gives its value as an
-- int if that is below 2 ^ 31, and otherwise the error for a literal that is too big; if it ends in
-- '_' it gives the error for that. The input behind the literal is left.
pub next_lit_number_int :
    (c : ℕ) (ds rest : List ℕ) (pos : ℕ)
    → (b'0' ≤ c) × (c ≤ b'9')
    → All IsDigitOrLine ds
    → Stops rest
    → ((next_lit_number c (source pos (ds ++ rest))).0.payload
        ≡ int_token false (value 0 (c ∷ ds)) (last_of c ds))
      × ((next_lit_number c (source pos (ds ++ rest))).1.input ≡ rest)
unfolding next_lit_number
next_lit_number_int c ds rest pos (lo, hi) hs stop =
    let (k, l) = start_number-Counts c lo hi in
    let r = number_loop-Run ds rest (c - b'0') pos (start_number c) hs k in
    let last : r.final.cur_char ≡ last_of c ds = r.last ∙ ap (λ (t : ℕ). last_of t ds) l in
    let no_dot : r.final.cur_char ≢ b'.' =
      rw last (IsDigitOrLine-ne-dot _ (last_of-IsDigitOrLine c ds (inl (lo, hi)) hs)) in
    let f =
      finish_number-Counts (pos - 1) (value (c - b'0') ds) r.final (source r.final_pos rest)
        r.counts no_dot in
    rw (r.loop ∙ number_loop_stop r.final r.final_pos rest stop)
      (f.0 ∙ rw (last, value_first c ds lo hi), ap (λ (t : Source). t.input) f.1)

-- The suffix ends the loop.
abbrev pub IsSuffix : ℕ → Type 0
IsSuffix l = (l ≡ b'l') ⊎ (l ≡ b'L')

number_loop_suffix :
    (v : ℕ) (n : Number) (pos l : ℕ) (rest : List ℕ)
    → IsSuffix l
    → Counts v n
    → number_loop n pos (l ∷ rest)
      ≡ (record n { is_long = true; cur_char = l }, source (advance l pos) rest)
unfolding number_loop number_step is_digit is_token_seperator
number_loop_suffix v n pos l rest h k = ground arith

finish_number_long :
    (first v l : ℕ) (n : Number) (s : Source)
    → Counts v n
    → IsSuffix l
    → ((finish_number first (record n { is_long = true; cur_char = l }, s)).0.payload
        ≡ int_token true v l)
      × ((finish_number first (record n { is_long = true; cur_char = l }, s)).1 ≡ s)
unfolding finish_number int_token
finish_number_long first v l n s k h = ground arith

-- An integer literal with the suffix l or L, of digits and '_' and of any length, gives its value as
-- a long if that is below 2 ^ 63, and otherwise the error for a literal that is too big; a '_' before
-- the suffix is allowed. The input behind the suffix is left.
pub next_lit_number_long :
    (c l : ℕ) (ds rest : List ℕ) (pos : ℕ)
    → (b'0' ≤ c) × (c ≤ b'9')
    → All IsDigitOrLine ds
    → IsSuffix l
    → ((next_lit_number c (source pos (ds ++ (l ∷ rest)))).0.payload
        ≡ int_token true (value 0 (c ∷ ds)) l)
      × ((next_lit_number c (source pos (ds ++ (l ∷ rest)))).1.input ≡ rest)
unfolding next_lit_number
next_lit_number_long c l ds rest pos (lo, hi) hs suffix =
    let (k, _) = start_number-Counts c lo hi in
    let r = number_loop-Run ds (l ∷ rest) (c - b'0') pos (start_number c) hs k in
    let v = value (c - b'0') ds in
    let s = source (advance l r.final_pos) rest in
    let f = finish_number_long (pos - 1) v l r.final s r.counts suffix in
    rw (r.loop ∙ number_loop_suffix v r.final r.final_pos l rest suffix r.counts)
      (f.0 ∙ rw (value_first c ds lo hi), ap (λ (t : Source). t.input) f.1)
