-- ===== src/Text/RoundTrip.antt =====
-- Numbers and resolutions of common/string_utils.cpp that are printed and parsed again.
use harmony_windows_bridge.Base.{
  ℕ, zero, suc, ◌+◌, ◌-◌, ◌*◌, ◌/◌, ◌%◌, ◌^◌, ◌≤◌, ◌<◌, ◌≡◌, refl, ap, inl, inr, true, ◌||◌, none,
  some, List, [], ◌∷◌, ◌++◌, arith, ltb, leb, ◌==◌, if◌then◌else◌, Bool-cases, length, All,
}
use harmony_windows_bridge.Text.{
  is_digit, digits, c_str, magnitude, strtoul, parse_uint32, decimal, to_string, bytes, parse_port,
  split_at, parse_resolution, large_enough, or_split_at, parse_parts,
}
use harmony_windows_bridge.Base.Word.{u32_max}

abbrev pub IsNumeral : List ℕ → Type 0
IsNumeral = All (λ c. is_digit c ≡ true)

digits-decimal :
    (fuel n : ℕ) (rest : List ℕ) → n < 10 ^ fuel → digits 0 (decimal fuel n rest) ≡ digits n rest
unfolding digits decimal
digits-decimal zero n rest h = ground arith
digits-decimal (suc fuel) n rest h =
    ground (arith, digits-decimal fuel (n / 10) ((48 + n % 10) ∷ rest))

decimal-IsNumeral : (fuel n : ℕ) (rest : List ℕ) → IsNumeral rest → IsNumeral (decimal fuel n rest)
unfolding decimal is_digit
decimal-IsNumeral zero n rest p = p
decimal-IsNumeral (suc fuel) n rest p = elim (Bool-cases (ltb n 10)) [
  | inl e ↦ rw e (ground arith, p)
  | inr e ↦ rw e (decimal-IsNumeral fuel (n / 10) ((48 + n % 10) ∷ rest) (ground arith, p))
]

digits-rest : (value : ℕ) (s : List ℕ) → IsNumeral s → (digits value s).1 ≡ []
unfolding digits
digits-rest value [] p = refl
digits-rest value (c ∷ cs) p = rw p.0 (digits-rest (value * 10 + (c - 48)) cs p.1)

c_str-IsNumeral : (s : List ℕ) → IsNumeral s → c_str s ≡ s
unfolding c_str is_digit
c_str-IsNumeral [] p = refl
c_str-IsNumeral (c ∷ cs) p = ground (arith, p.0, c_str-IsNumeral cs p.1)

-- A text of digits has no space or sign to skip.
strtoul-IsNumeral :
    (c : ℕ) (cs : List ℕ) → IsNumeral (c ∷ cs) → strtoul (c ∷ cs) ≡ magnitude (c ∷ cs)
unfolding strtoul is_digit
strtoul-IsNumeral c cs p = ground (arith, p.0)

magnitude-IsNumeral :
    (c : ℕ) (cs : List ℕ) (value : ℕ)
    → IsNumeral (c ∷ cs)
    → digits 0 (c ∷ cs) ≡ (value, [])
    → magnitude (c ∷ cs) ≡ (if leb (2 ^ 64) value then none else some (value, []))
unfolding magnitude
magnitude-IsNumeral c cs value p e = rw (e, p.0) refl

parse_value :
    (c : ℕ) (cs : List ℕ) (value : ℕ)
    → IsNumeral (c ∷ cs)
    → digits 0 (c ∷ cs) ≡ (value, [])
    → parse_uint32 (c ∷ cs) ≡ (if leb value u32_max then some value else none)
unfolding parse_uint32
parse_value c cs value p e =
    rw (c_str-IsNumeral (c ∷ cs) p, strtoul-IsNumeral c cs p, magnitude-IsNumeral c cs value p e)
      (ground arith)

-- A text of digits, at least one, is the number that they write if it is at most UINT32_MAX, and is
-- refused otherwise.
pub parse_uint32-IsNumeral :
    (c : ℕ) (cs : List ℕ)
    → IsNumeral (c ∷ cs)
    → let value = (digits 0 (c ∷ cs)).0 in
      parse_uint32 (c ∷ cs) ≡ (if leb value u32_max then some value else none)
parse_uint32-IsNumeral c cs p =
    parse_value c cs (digits 0 (c ∷ cs)).0 p
      (ap (λ rest. ((digits 0 (c ∷ cs)).0, rest)) (digits-rest 0 (c ∷ cs) p))

to_string-IsNumeral : (n : ℕ) → IsNumeral (to_string n)
unfolding to_string
to_string-IsNumeral n = decimal-IsNumeral 20 n [] tt

decimal-nonempty : (fuel n : ℕ) (rest : List ℕ) → 0 < length rest → 0 < length (decimal fuel n rest)
unfolding decimal
decimal-nonempty zero n rest h = h
decimal-nonempty (suc fuel) n rest h =
    ground (arith, decimal-nonempty fuel (n / 10) ((48 + n % 10) ∷ rest))

to_string-nonempty : (n : ℕ) → 0 < length (to_string n)
unfolding to_string
to_string-nonempty n = ground (arith, decimal-nonempty 19 (n / 10) ((48 + n % 10) ∷ []))

parse_printed :
    (n : ℕ) (s : List ℕ)
    → n < 2 ^ 32
    → IsNumeral s
    → digits 0 s ≡ (n, [])
    → 0 < length s
    → parse_uint32 s ≡ some n
parse_printed n [] h p e q = ground arith
parse_printed n (c ∷ cs) h p e q = rw (parse_value c cs n p e) (ground arith)

digits-to_string : (n : ℕ) → n < 2 ^ 32 → digits 0 (to_string n) ≡ (n, [])
unfolding to_string digits
digits-to_string n h = digits-decimal 20 n [] (omega arith)

-- A number of 32 bits that is printed is parsed back.
pub parse_uint32-to_string : (n : ℕ) → n < 2 ^ 32 → parse_uint32 (to_string n) ≡ some n
parse_uint32-to_string n h =
    parse_printed n (to_string n) h (to_string-IsNumeral n) (digits-to_string n h)
      (to_string-nonempty n)

split_at-IsNumeral : (s t : List ℕ) → IsNumeral s → split_at 120 (s ++ 120 ∷ t) ≡ some (s, t)
unfolding split_at is_digit
split_at-IsNumeral [] t p = refl
split_at-IsNumeral (c ∷ cs) t p = rw (split_at-IsNumeral cs t p.1) (ground (arith, p.0))

parse_split :
    (value before after : List ℕ)
    → split_at 120 value ≡ some (before, after)
    → parse_resolution value ≡ large_enough (parse_uint32 before) (parse_uint32 after)
unfolding parse_resolution
parse_split value before after e = ap (λ o. parse_parts (or_split_at value o)) e

-- A desktop size of at least 320 by 240, printed with an x between its numbers, is parsed back.
pub parse_resolution-to_string :
    (width height : ℕ)
    → 320 ≤ width
    → width < 2 ^ 32
    → 240 ≤ height
    → height < 2 ^ 32
    → parse_resolution (to_string width ++ (bytes "x" ++ to_string height)) ≡ some (width, height)
parse_resolution-to_string w h a a' b b' =
    rw
      (
        parse_split (to_string w ++ 120 ∷ to_string h) (to_string w) (to_string h)
            (split_at-IsNumeral (to_string w) (to_string h) (to_string-IsNumeral w)),
        parse_uint32-to_string w a',
        parse_uint32-to_string h b',
      )
      (ground arith)

-- What `ParsePort` accepts lies between 1 and 65535, and each of these numbers is parsed back from its
-- digits.
pub parse_port-to_string :
    (n : ℕ)
    → n < 2 ^ 32
    → parse_port (to_string n) ≡ (if n == 0 || ltb 65535 n then none else some n)
unfolding parse_port
parse_port-to_string n h = rw (parse_uint32-to_string n h) refl
