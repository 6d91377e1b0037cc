-- ===== src/Strconv.antt =====
-- What the operator uses of Go's `strconv` and `strings`: decimal numbers, Booleans, substrings.
pub mod RoundTrip
use Prim.Native.Char.{Char, code}
use Prim.Native.String.{[], ◌∷◌}
use slinky_on_openshift.Prelude.{
  ℕ, zero, suc, ◌+◌, ◌-◌, ◌*◌, ◌/◌, ◌%◌, ◌^◌, Bool, true, false, ◌&&◌, ◌||◌, Option, none, some,
  String, ltb, leb, ◌==◌, str_eq, if◌then◌else◌,
}
use slinky_on_openshift.Prelude.Int.{ℤ, pos, negsuc}

-- the digits of `s` read behind the number `n`; none if `s` has anything else
unfoldable pub read_digits : ℕ → String → Option ℕ
read_digits n [] = some n
read_digits n (c ∷ s) =
    let d = code c in
    let rest = read_digits (n * 10 + (d - b'0')) s in
    if leb b'0' d && leb d b'9' then rest else none

abbrev pub is_empty : String → Bool
is_empty [] = true
is_empty (c ∷ s) = false

-- one or more digits
unfoldable pub parse_digits : String → Option ℕ
unfolding read_digits
parse_digits s = if is_empty s then none else read_digits 0 s

abbrev positive : Option ℕ → Option ℤ
positive none = none
positive (some n) = if ltb n (2 ^ 31) then some (pos n) else none

abbrev negative : Option ℕ → Option ℤ
negative none = none
negative (some zero) = some (pos 0)
negative (some (suc n)) = if ltb n (2 ^ 31) then some (negsuc n) else none

-- `strconv.ParseInt(s, 10, 32)`; none where it returns an error
unfoldable pub parse_int32 : String → Option ℤ
unfolding parse_digits
parse_int32 [] = none
parse_int32 (c ∷ s) =
    if code c == b'-'
    then negative (parse_digits s)
    else if code c == b'+'
    then positive (parse_digits s)
    else positive (parse_digits (c ∷ s))

-- `strconv.ParseBool`
unfoldable pub parse_bool : String → Option Bool
parse_bool s =
    if str_eq s "1"
      || str_eq s "t"
      || str_eq s "T"
      || str_eq s "TRUE"
      || str_eq s "true"
      || str_eq s "True"
    then some true
    else if str_eq s "0"
        || str_eq s "f"
        || str_eq s "F"
        || str_eq s "FALSE"
        || str_eq s "false"
        || str_eq s "False"
    then some false
    else none

unfoldable pub digit : ℕ → Char
digit zero = "0"
digit (suc zero) = "1"
digit (suc (suc zero)) = "2"
digit (suc (suc (suc zero))) = "3"
digit (suc (suc (suc (suc zero)))) = "4"
digit (suc (suc (suc (suc (suc zero))))) = "5"
digit (suc (suc (suc (suc (suc (suc zero)))))) = "6"
digit (suc (suc (suc (suc (suc (suc (suc zero))))))) = "7"
digit (suc (suc (suc (suc (suc (suc (suc (suc zero)))))))) = "8"
digit (suc (suc (suc (suc (suc (suc (suc (suc (suc n))))))))) = "9"

-- the digits of `n` in front of `out`; each round divides by ten, so `n + 1` rounds are enough
unfoldable pub write_digits : ℕ → ℕ → String → String
unfolding digit
write_digits zero n out = out
write_digits (suc fuel) n out =
    let rest = write_digits fuel (n / 10) (digit (n % 10) ∷ out) in
    if ltb n 10 then digit (n % 10) ∷ out else rest

-- `strconv.Itoa` and the verb `%d`
unfoldable pub itoa : ℤ → String
unfolding write_digits
itoa (pos n) = write_digits (suc n) n ""
itoa (negsuc n) = "-" ∷ write_digits (suc (suc n)) (suc n) ""

unfoldable pub has_prefix : String → String → Bool
has_prefix s [] = true
has_prefix [] (d ∷ p) = false
has_prefix (c ∷ s) (d ∷ p) = code c == code d && has_prefix s p

-- `strings.Contains(s, p)`
unfoldable pub contains : String → String → Bool
unfolding has_prefix
contains [] p = has_prefix [] p
contains (c ∷ s) p = has_prefix (c ∷ s) p || contains s p
