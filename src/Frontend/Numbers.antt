-- ===== src/Frontend/Numbers.antt =====
-- `std::stoll` as src/frontend/impl/memory_trace/aim_trace.cpp uses it, in `token_decoder`.
use Prim.Native.Char.{code}
use Prim.Native.String.{String}
use aim_simulator.Base.{
  ℕ, zero, suc, ◌+◌, ◌-◌, ◌*◌, ◌^◌, Bool, true, false, ◌&&◌, ◌||◌, ℤ, pos, negsuc, to_uint, Result,
  ok, err, Option, none, some, invalid_argument, out_of_range, ltb, leb, ◌==◌, ◌>>=◌, or_fail,
  if◌then◌else◌,
}
use aim_simulator.Frontend.Tokens.{is_space}

-- The value of a digit or a letter; 36 for any other character.
abbrev pub digit_of : ℕ → ℕ
digit_of c =
    if leb b'0' c && leb c b'9'
    then c - b'0'
    else if leb b'a' c && leb c b'z'
    then c - b'a' + 10
    else if leb b'A' c && leb c b'Z'
    then c - b'A' + 10
    else 36

-- The digits at the front of a text, as a number, after those that have been read.
unfoldable pub scan_digits : ℕ → String → ℕ → ℕ
scan_digits base String.[] n = n
scan_digits base (String.◌∷◌ c s) n =
    let rest = scan_digits base s (n * base + digit_of (code c)) in
    if ltb (digit_of (code c)) base then rest else n

-- A number has a digit.
unfoldable pub scan_number : ℕ → String → Option ℕ
scan_number base String.[] = none
scan_number base (String.◌∷◌ c s) =
    if ltb (digit_of (code c)) base then some (scan_digits base (String.◌∷◌ c s) 0) else none

abbrev pub is_x : ℕ → Bool
is_x c = c == b'x' || c == b'X'

-- Base 16 allows the prefix 0x before a digit.
unfoldable pub scan_magnitude : ℕ → String → Option ℕ
scan_magnitude base (String.◌∷◌ z (String.◌∷◌ x (String.◌∷◌ c s))) =
    if base == 16 && code z == b'0' && is_x (code x) && ltb (digit_of (code c)) 16
    then scan_number base (String.◌∷◌ c s)
    else scan_number base (String.◌∷◌ z (String.◌∷◌ x (String.◌∷◌ c s)))
scan_magnitude base s = scan_number base s

abbrev pub negate : ℕ → ℤ
negate zero = pos 0
negate (suc n) = negsuc n

-- `long long` has 64 bits.
unfoldable pub in_long_long : Bool → ℕ → Result ℤ
in_long_long negative n =
    if negative
    then (if leb n (2 ^ 63) then ok (negate n) else err out_of_range)
    else if ltb n (2 ^ 63)
    then ok (pos n)
    else err out_of_range

abbrev pub signed : ℕ → Bool → String → Result ℤ
signed base negative s = do
  n ← or_fail (scan_magnitude base s) invalid_argument
  in_long_long negative n

-- `std::stoll(s, nullptr, base)`: white space, a sign, and the digits; what follows is ignored.
unfoldable pub stoll : ℕ → String → Result ℤ
stoll base String.[] = err invalid_argument
stoll base (String.◌∷◌ c s) =
    let skipped = stoll base s in
    if is_space (code c)
    then skipped
    else if code c == b'-'
    then signed base true s
    else if code c == b'+'
    then signed base false s
    else signed base false (String.◌∷◌ c s)

-- The conversion of a `long long` to an integer of `w` bits.
abbrev pub of_bits : ℕ → ℕ → ℤ
of_bits w n = if ltb n (2 ^ (w - 1)) then pos n else negsuc (2 ^ w - 1 - n)

unfoldable pub narrow : ℕ → ℤ → ℤ
narrow w a = of_bits w (to_uint w a)

-- `token_decoder<T>` for a type of `w` bits.
unfoldable pub token_decoder : ℕ → String → Result ℤ
token_decoder w (String.◌∷◌ z (String.◌∷◌ x s)) =
    let base = if code z == b'0' && is_x (code x) then 16 else 10 in
    let digits = if code z == b'0' && is_x (code x) then s else String.◌∷◌ z (String.◌∷◌ x s) in
    do n ← stoll base digits; ok (narrow w n)
token_decoder w s = do n ← stoll 10 s; ok (narrow w n)
