-- ===== src/Common/Chars.antt =====
-- Tests on code units, and what the source's regular expressions and string methods do with them.
use Prim.Native.Nat.{ℕ, ◌+◌, ◌-◌, ◌*◌}
use mathlib.Core.Bool.{Bool, ◌&&◌, ◌||◌, not}
use mathlib.Core.List.{[], ◌∷◌, map, reverse}
use qrib.Common.Tests.{leb, ltb, ◌==◌, if◌then◌else◌}
use qrib.Common.Lists.{all}
use qrib.Common.Strings.{Text, text_eq}

abbrev pub is_digit : ℕ → Bool
is_digit c = leb b'0' c && leb c b'9'

-- The number that decimal digits spell after `acc`.
abbrev pub decimal_from : ℕ → Text → ℕ
decimal_from acc [] = acc
decimal_from acc (c ∷ rest) = decimal_from (acc * 10 + (c - b'0')) rest

-- `/^\d+$/`
abbrev pub is_decimal : Text → Bool
is_decimal s = not (text_eq s []) && all is_digit s

-- A code unit that `trim` removes.
abbrev pub is_space : ℕ → Bool
is_space c =
    (leb 9 c && leb c 13)
    || c == 32
    || c == 0xa0
    || c == 0x1680
    || (leb 0x2000 c && leb c 0x200a)
    || c == 0x2028
    || c == 0x2029
    || c == 0x202f
    || c == 0x205f
    || c == 0x3000
    || c == 0xfeff

abbrev pub trim_start : Text → Text
trim_start [] = []
trim_start (c ∷ s) = if is_space c then trim_start s else c ∷ s

-- `trim`
abbrev pub trim : Text → Text
trim s = reverse (trim_start (reverse (trim_start s)))

-- A lower-case ASCII letter in upper case.
abbrev pub upper : ℕ → ℕ
upper c = if leb b'a' c && leb c b'z' then c - 32 else c

-- `toUpperCase` on ASCII.
abbrev pub to_upper : Text → Text
to_upper s = map upper s

-- A digit below 16, in upper case.
abbrev pub hex_digit : ℕ → ℕ
hex_digit d = if ltb d 10 then b'0' + d else b'A' + (d - 10)

abbrev pub is_hex : ℕ → Bool
is_hex c = is_digit c || (leb b'a' c && leb c b'f') || (leb b'A' c && leb c b'F')
