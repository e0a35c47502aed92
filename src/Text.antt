-- ===== src/Text.antt =====
-- common/string_utils.{h,cpp}: a text is the list of its bytes. `strtoul`, `std::to_string` and the
-- tests of <cctype> are those of the C locale; the results in out parameters are options.
pub mod RoundTrip
pub mod Normal
use Prim.Native.Char.{code}
use harmony_windows_bridge.Base.{
  ℕ, zero, suc, ◌+◌, ◌-◌, ◌*◌, ◌/◌, ◌%◌, ◌^◌, Bool, true, false, not, ◌&&◌, ◌||◌, Option, none,
  some, List, [], ◌∷◌, map, String, ltb, leb, ◌==◌, if◌then◌else◌,
}
use harmony_windows_bridge.Base.Word.{u32_max, u64}

-- The bytes of a literal.
abbrev pub bytes : String → List ℕ
bytes String.[] = []
bytes (String.◌∷◌ c s) = code c ∷ bytes s

abbrev pub eq_bytes : List ℕ → List ℕ → Bool
eq_bytes [] [] = true
eq_bytes [] (d ∷ ds) = false
eq_bytes (c ∷ cs) [] = false
eq_bytes (c ∷ cs) (d ∷ ds) = c == d && eq_bytes cs ds

unfoldable pub is_space : ℕ → Bool
is_space c = c == 32 || leb 9 c && leb c 13

unfoldable pub is_digit : ℕ → Bool
is_digit c = leb 48 c && leb c 57

unfoldable pub drop_spaces : List ℕ → List ℕ
unfolding is_space
drop_spaces [] = []
drop_spaces (c ∷ cs) = if is_space c then drop_spaces cs else c ∷ cs

-- `c_str` as a text that ends at the first NUL.
unfoldable pub c_str : List ℕ → List ℕ
c_str [] = []
c_str (c ∷ cs) = if c == 0 then [] else c ∷ c_str cs

-- The digits at the start of a text: the number they write after `value`, and what follows them.
unfoldable pub digits : ℕ → List ℕ → ℕ × List ℕ
unfolding is_digit
digits value [] = (value, [])
digits value (c ∷ cs) = if is_digit c then digits (value * 10 + (c - 48)) cs else (value, c ∷ cs)

-- `strtoul` without its spaces and sign: `none` where it converts nothing or sets `errno`.
unfoldable pub magnitude : List ℕ → Option (ℕ × List ℕ)
unfolding is_digit digits
magnitude [] = none
magnitude (c ∷ cs) =
    let (value, rest) = digits 0 (c ∷ cs) in
    if not (is_digit c) || leb (2 ^ 64) value then none else some (value, rest)

-- A minus sign negates the value as an unsigned long.
abbrev pub negated : Option (ℕ × List ℕ) → Option (ℕ × List ℕ)
negated none = none
negated (some (value, rest)) = some (u64 (2 ^ 64 - value), rest)

abbrev pub signed : List ℕ → Option (ℕ × List ℕ)
signed [] = none
signed (c ∷ cs) =
    if c == 45 then negated (magnitude cs) else if c == 43 then magnitude cs else magnitude (c ∷ cs)

unfoldable pub strtoul : List ℕ → Option (ℕ × List ℕ)
unfolding drop_spaces magnitude
strtoul s = signed (drop_spaces s)

-- The tests on what `strtoul` gave.
abbrev pub whole_uint32 : Option (ℕ × List ℕ) → Option ℕ
whole_uint32 none = none
whole_uint32 (some (value, c ∷ rest)) = none
whole_uint32 (some (value, [])) = if ltb u32_max value then none else some value

unfoldable pub parse_uint32 : List ℕ → Option ℕ
unfolding c_str strtoul
parse_uint32 [] = none
parse_uint32 (c ∷ cs) = whole_uint32 (strtoul (c_str (c ∷ cs)))

abbrev pub port_in_range : Option ℕ → Option ℕ
port_in_range none = none
port_in_range (some parsed) = if parsed == 0 || ltb 65535 parsed then none else some parsed

unfoldable pub parse_port : List ℕ → Option ℕ
unfolding parse_uint32
parse_port value = port_in_range (parse_uint32 value)

-- `find` and the two calls of `substr`: what stands before and after the first `c`.
unfoldable pub split_at : ℕ → List ℕ → Option (List ℕ × List ℕ)
split_at c [] = none
split_at c (d ∷ ds) =
    let rest = split_at c ds in
    if d == c
    then some ([], ds)
    else elim rest [ none ↦ none | some (before, after) ↦ some (d ∷ before, after) ]

abbrev pub or_split_at : List ℕ → Option (List ℕ × List ℕ) → Option (List ℕ × List ℕ)
or_split_at value none = split_at 88 value
or_split_at value (some parts) = some parts

abbrev pub large_enough : Option ℕ → Option ℕ → Option (ℕ × ℕ)
large_enough none height = none
large_enough (some width) none = none
large_enough (some width) (some height) =
    if ltb width 320 || ltb height 240 then none else some (width, height)

abbrev pub parse_parts : Option (List ℕ × List ℕ) → Option (ℕ × ℕ)
parse_parts none = none
parse_parts (some (before, after)) = large_enough (parse_uint32 before) (parse_uint32 after)

-- The separator is the first x, or the first X of a text without x.
unfoldable pub parse_resolution : List ℕ → Option (ℕ × ℕ)
unfolding split_at parse_uint32
parse_resolution value = parse_parts (or_split_at value (split_at 120 value))

unfoldable pub to_lower : ℕ → ℕ
to_lower c = if leb 65 c && leb c 90 then c + 32 else c

unfoldable pub to_lower_ascii : List ℕ → List ℕ
unfolding to_lower
to_lower_ascii value = map to_lower value

-- The second loop of `TrimAscii`: the spaces at the end.
unfoldable pub drop_trailing_spaces : List ℕ → List ℕ
unfolding is_space
drop_trailing_spaces [] = []
drop_trailing_spaces (c ∷ cs) =
    let rest = drop_trailing_spaces cs in
    elim rest [ [] ↦ if is_space c then [] else c ∷ [] | d ∷ ds ↦ c ∷ d ∷ ds ]

unfoldable pub trim_ascii : List ℕ → List ℕ
unfolding drop_spaces drop_trailing_spaces
trim_ascii value = drop_trailing_spaces (drop_spaces value)

unfoldable pub is_auto_resolution : List ℕ → Bool
unfolding to_lower_ascii trim_ascii
is_auto_resolution value =
    let normalized = to_lower_ascii (trim_ascii value) in
    eq_bytes normalized []
    || (eq_bytes normalized (bytes "auto") || eq_bytes normalized (bytes "window"))

-- `std::to_string` of an unsigned number: its digits before `rest`, with fuel for the digits.
unfoldable pub decimal : ℕ → ℕ → List ℕ → List ℕ
decimal zero n rest = rest
decimal (suc fuel) n rest =
    let more = decimal fuel (n / 10) ((48 + n % 10) ∷ rest) in
    if ltb n 10 then (48 + n) ∷ rest else more

-- Twenty digits write every number of 64 bits.
unfoldable pub to_string : ℕ → List ℕ
unfolding decimal
to_string n = decimal 20 n []
