-- ===== src/Text.antt =====
-- `&str` and `String` as lists of code points, and what the program uses of their methods.
-- `len` counts UTF-8 bytes, as `str::len` does.
pub mod Laws
pub mod Decimal
use Prim.Native.Char.{code}
use Prim.Native.String
use fastrapi.Prelude.{
  ℕ, ◌+◌, ◌-◌, ◌<◌, String, Bool, true, false, ◌&&◌, ◌||◌, Option, none, some, List, [], ◌∷◌, ◌++◌,
  reverse, ltb, leb, ◌==◌, if◌then◌else◌, is_empty,
}

abbrev pub Str : Type 0
Str = List ℕ

-- The text of a literal.
abbrev pub codes : String → Str
codes String.[] = []
codes (String.◌∷◌ c s) = code c ∷ codes s

unfoldable pub str_eq : Str → Str → Bool
str_eq [] [] = true
str_eq [] (d ∷ t) = false
str_eq (c ∷ s) [] = false
str_eq (c ∷ s) (d ∷ t) = (c == d) && str_eq s t

-- `char::len_utf8`.
abbrev pub len_utf8 : ℕ → ℕ
len_utf8 c = if ltb c 0x80 then 1 else if ltb c 0x800 then 2 else if ltb c 0x10000 then 3 else 4

-- `str::len`.
unfoldable pub len : Str → ℕ
len [] = 0
len (c ∷ s) = len_utf8 c + len s

-- `starts_with(char)` and `ends_with(char)`.
unfoldable pub starts_with_char : Str → ℕ → Bool
starts_with_char [] x = false
starts_with_char (c ∷ s) x = c == x

unfoldable pub ends_with_char : Str → ℕ → Bool
ends_with_char [] x = false
ends_with_char (c ∷ []) x = c == x
ends_with_char (c ∷ d ∷ s) x = ends_with_char (d ∷ s) x

-- `strip_prefix(&str)`.
unfoldable pub strip_prefix : Str → Str → Option Str
strip_prefix s [] = some s
strip_prefix [] (d ∷ p) = none
strip_prefix (c ∷ s) (d ∷ p) = if c == d then strip_prefix s p else none

-- `starts_with(&str)`.
unfoldable pub starts_with : Str → Str → Bool
starts_with s [] = true
starts_with [] (d ∷ p) = false
starts_with (c ∷ s) (d ∷ p) = (c == d) && starts_with s p

-- `contains(&str)`.
unfoldable pub contains : Str → Str → Bool
unfolding starts_with
contains [] p = is_empty p
contains (c ∷ s) p = starts_with (c ∷ s) p || contains s p

-- `contains(char)`.
unfoldable pub contains_char : Str → ℕ → Bool
contains_char [] x = false
contains_char (c ∷ s) x = (c == x) || contains_char s x

-- `trim_start_matches(char)`.
unfoldable pub trim_start_matches : Str → ℕ → Str
trim_start_matches [] x = []
trim_start_matches (c ∷ s) x = if c == x then trim_start_matches s x else c ∷ s

-- Drop `c` where what follows is empty: one step of the trimming at the end.
abbrev pub cons_unless : Bool → ℕ → Str → Str
cons_unless drops c [] = if drops then [] else c ∷ []
cons_unless drops c (d ∷ s) = c ∷ d ∷ s

-- `trim_end_matches(char)`.
unfoldable pub trim_end_matches : Str → ℕ → Str
trim_end_matches [] x = []
trim_end_matches (c ∷ s) x = cons_unless (c == x) c (trim_end_matches s x)

-- `char::is_whitespace`: the Unicode property White_Space.
unfoldable pub is_whitespace : ℕ → Bool
is_whitespace c =
    leb 9 c && leb c 13
    || c == 0x20
    || c == 0x85
    || c == 0xa0
    || c == 0x1680
    || leb 0x2000 c && leb c 0x200a
    || c == 0x2028
    || c == 0x2029
    || c == 0x202f
    || c == 0x205f
    || c == 0x3000

unfoldable pub trim_start : Str → Str
trim_start [] = []
trim_start (c ∷ s) = if is_whitespace c then trim_start s else c ∷ s

unfoldable pub trim_end : Str → Str
trim_end [] = []
trim_end (c ∷ s) = cons_unless (is_whitespace c) c (trim_end s)

-- `str::trim`.
unfoldable pub trim : Str → Str
unfolding trim_start trim_end is_whitespace
trim s = trim_start (trim_end s)

-- `replace(char, char)`.
unfoldable pub replace_char : Str → ℕ → ℕ → Str
replace_char [] x y = []
replace_char (c ∷ s) x y = (if c == x then y else c) ∷ replace_char s x y

-- `to_ascii_lowercase` and `to_ascii_uppercase`.
unfoldable pub to_ascii_lowercase : Str → Str
to_ascii_lowercase [] = []
to_ascii_lowercase (c ∷ s) = (if leb b'A' c && leb c b'Z' then c + 32 else c) ∷ to_ascii_lowercase s

unfoldable pub to_ascii_uppercase : Str → Str
to_ascii_uppercase [] = []
to_ascii_uppercase (c ∷ s) = (if leb b'a' c && leb c b'z' then c - 32 else c) ∷ to_ascii_uppercase s

-- Put a character on the first of the parts that follow it.
abbrev pub onto_first : ℕ → List Str → List Str
onto_first c [] = (c ∷ []) ∷ []
onto_first c (part ∷ parts) = (c ∷ part) ∷ parts

-- `split(char)`.
unfoldable pub split : Str → ℕ → List Str
split [] x = [] ∷ []
split (c ∷ s) x = let rest = split s x in if c == x then [] ∷ rest else onto_first c rest

abbrev pub onto_left : ℕ → Option (Str × Str) → Option (Str × Str)
onto_left c none = none
onto_left c (some (a, b)) = some (c ∷ a, b)

-- `split_once(char)`.
unfoldable pub split_once : Str → ℕ → Option (Str × Str)
split_once [] x = none
split_once (c ∷ s) x =
    let rest = split_once s x in if c == x then some ([], s) else onto_left c rest
