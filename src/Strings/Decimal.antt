-- ===== src/Strings/Decimal.antt =====
-- `strconv.Itoa`, `strconv.FormatInt(n, 10)` and `strconv.Atoi`, for the 64-bit int.
pub mod RoundTrip
pub mod Bounds
use aergia_controller.Base.{
  ℕ, zero, suc, ◌+◌, ◌-◌, ◌*◌, ◌/◌, ◌%◌, ◌^◌, ◌≤◌, ◌<◌, Char, code, String, ◌<>◌, ◌≡◌, refl, Bool,
  true, false, ◌&&◌, arith, ltb, leb, eqb, if◌then◌else◌, ℤ, pos, negsuc, negate,
}

-- The decimal digit of a number below ten.
abbrev pub digit : ℕ → Char
digit zero = "0"
digit (suc zero) = "1"
digit (suc (suc zero)) = "2"
digit (suc (suc (suc zero))) = "3"
digit (suc (suc (suc (suc zero)))) = "4"
digit (suc (suc (suc (suc (suc zero))))) = "5"
digit (suc (suc (suc (suc (suc (suc zero)))))) = "6"
digit (suc (suc (suc (suc (suc (suc (suc zero))))))) = "7"
digit (suc (suc (suc (suc (suc (suc (suc (suc zero)))))))) = "8"
digit (suc (suc (suc (suc (suc (suc (suc (suc (suc n))))))))) = "9"

-- The digits of a number, on fuel above it.
unfoldable pub digits : ℕ → ℕ → String
digits zero n = ""
digits (suc f) n =
    let front = digits f (n / 10) in
    if ltb n 10 then String.◌∷◌ (digit n) "" else front <> String.◌∷◌ (digit (n % 10)) ""

unfoldable pub itoa : ℤ → String
unfolding digits
itoa (pos n) = digits (suc n) n
itoa (negsuc n) = "-" <> digits (suc (suc n)) (suc n)

-- What `ParseUint` finds: a number, a character that is no digit, or a number of more than 64 bits.
pub data Scan : Type 0 where
  value : ℕ → Scan
  syntax : Scan
  range : Scan

abbrev is_digit : Char → Bool
is_digit c = leb b'0' (code c) && leb (code c) b'9'

scan : String → ℕ → Scan
scan String.[] n = value n
scan (String.◌∷◌ c s) n =
    let m = n * 10 + (code c - b'0') in
    let rest = scan s m in if is_digit c then (if ltb m (2 ^ 64) then rest else range) else syntax

-- The number and whether there was no error. Out of range the number is the nearest in range.
abbrev signed : Bool → Scan → ℤ × Bool
signed neg syntax = (pos 0, false)
signed true range = (negsuc (2 ^ 63 - 1), false)
signed false range = (pos (2 ^ 63 - 1), false)
signed true (value n) = if leb n (2 ^ 63) then (negate n, true) else (negsuc (2 ^ 63 - 1), false)
signed false (value n) = if ltb n (2 ^ 63) then (pos n, true) else (pos (2 ^ 63 - 1), false)

unsigned : String → Scan
unfolding scan
unsigned String.[] = syntax
unsigned (String.◌∷◌ c s) = scan (String.◌∷◌ c s) 0

unfoldable pub atoi : String → ℤ × Bool
unfolding unsigned
atoi String.[] = (pos 0, false)
atoi (String.◌∷◌ c s) =
    if eqb (code c) b'-'
    then signed true (unsigned s)
    else if eqb (code c) b'+'
    then signed false (unsigned s)
    else signed false (unsigned (String.◌∷◌ c s))

test_atoi :
    (atoi "503" ≡ (pos 503, true))
    × (atoi "-7" ≡ (negsuc 6, true))
    × (atoi "+0" ≡ (pos 0, true))
    × (atoi "" ≡ (pos 0, false))
    × (atoi "5x" ≡ (pos 0, false))
    × (atoi "9223372036854775808" ≡ (pos 9223372036854775807, false))
    × (atoi "-9223372036854775808" ≡ (negsuc 9223372036854775807, true))
unfolding atoi
test_atoi = (refl, refl, refl, refl, refl, refl, refl)

test_itoa : (itoa (pos 503) ≡ "503") × (itoa (pos 0) ≡ "0") × (itoa (negsuc 11) ≡ "-12")
unfolding itoa
test_itoa = (refl, refl, refl)
