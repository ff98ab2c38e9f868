-- ===== src/Strings/Hex.antt =====
-- `hex.EncodeToString` and `hex.DecodeString`, and `hmac.Equal`. Bytes are numbers.
use aergia_controller.Base.{
  ℕ, zero, suc, ◌+◌, ◌-◌, ◌*◌, ◌/◌, ◌%◌, ◌<◌, Char, code, String, ◌≡◌, ◌↔◌, refl, Bool, true, false,
  ◌&&◌, Option, none, some, List, [], ◌∷◌, arith, leb, eqb, if◌then◌else◌,
}

abbrev pub Bytes : Type 0
Bytes = List ℕ

-- The byte as two characters.
abbrev nibble : ℕ → Char
nibble zero = "0"
nibble (suc zero) = "1"
nibble (suc (suc zero)) = "2"
nibble (suc (suc (suc zero))) = "3"
nibble (suc (suc (suc (suc zero)))) = "4"
nibble (suc (suc (suc (suc (suc zero))))) = "5"
nibble (suc (suc (suc (suc (suc (suc zero)))))) = "6"
nibble (suc (suc (suc (suc (suc (suc (suc zero))))))) = "7"
nibble (suc (suc (suc (suc (suc (suc (suc (suc zero)))))))) = "8"
nibble (suc (suc (suc (suc (suc (suc (suc (suc (suc zero))))))))) = "9"
nibble (suc (suc (suc (suc (suc (suc (suc (suc (suc (suc zero)))))))))) = "a"
nibble (suc (suc (suc (suc (suc (suc (suc (suc (suc (suc (suc zero))))))))))) = "b"
nibble (suc (suc (suc (suc (suc (suc (suc (suc (suc (suc (suc (suc zero)))))))))))) = "c"
nibble (suc (suc (suc (suc (suc (suc (suc (suc (suc (suc (suc (suc (suc zero))))))))))))) = "d"
nibble (suc (suc (suc (suc (suc (suc (suc (suc (suc (suc (suc (suc (suc (suc zero)))))))))))))) =
    "e"
nibble (suc (suc (suc (suc (suc (suc (suc (suc (suc (suc (suc (suc (suc (suc (suc n))))))))))))))) =
    "f"

unfoldable pub encode : Bytes → String
encode [] = ""
encode (b ∷ bs) = String.◌∷◌ (nibble (b / 16)) (String.◌∷◌ (nibble (b % 16)) (encode bs))

-- The value of a hexadecimal character, of either case.
from_hex : Char → Option ℕ
from_hex c =
    if leb b'0' (code c) && leb (code c) b'9'
    then some (code c - b'0')
    else if leb b'a' (code c) && leb (code c) b'f'
    then some (code c - b'a' + 10)
    else if leb b'A' (code c) && leb (code c) b'F'
    then some (code c - b'A' + 10)
    else none

abbrev push : Option ℕ → Option ℕ → Option Bytes → Option Bytes
push (some a) (some b) (some bs) = some ((a * 16 + b) ∷ bs)
push _ _ _ = none

-- `none` is an error: a character that is none of a number, or one left over.
unfoldable pub decode : String → Option Bytes
unfolding from_hex
decode String.[] = some []
decode (String.◌∷◌ c String.[]) = none
decode (String.◌∷◌ c (String.◌∷◌ d s)) = push (from_hex c) (from_hex d) (decode s)

test_encode : encode (0 ∷ 171 ∷ 255 ∷ []) ≡ "00abff"
unfolding encode
test_encode = refl

test_decode :
    (decode "00aBfF" ≡ some (0 ∷ 171 ∷ 255 ∷ [])) × (decode "abc" ≡ none) × (decode "zz" ≡ none)
unfolding decode
test_decode = (refl, refl, refl)

from_hex-nibble : (n : ℕ) → n < 16 → from_hex (nibble n) ≡ some n
unfolding from_hex
from_hex-nibble zero h = refl
from_hex-nibble (suc zero) h = refl
from_hex-nibble (suc (suc zero)) h = refl
from_hex-nibble (suc (suc (suc zero))) h = refl
from_hex-nibble (suc (suc (suc (suc zero)))) h = refl
from_hex-nibble (suc (suc (suc (suc (suc zero))))) h = refl
from_hex-nibble (suc (suc (suc (suc (suc (suc zero)))))) h = refl
from_hex-nibble (suc (suc (suc (suc (suc (suc (suc zero))))))) h = refl
from_hex-nibble (suc (suc (suc (suc (suc (suc (suc (suc zero)))))))) h = refl
from_hex-nibble (suc (suc (suc (suc (suc (suc (suc (suc (suc zero))))))))) h = refl
from_hex-nibble (suc (suc (suc (suc (suc (suc (suc (suc (suc (suc zero)))))))))) h = refl
from_hex-nibble (suc (suc (suc (suc (suc (suc (suc (suc (suc (suc (suc zero))))))))))) h = refl
from_hex-nibble (suc (suc (suc (suc (suc (suc (suc (suc (suc (suc (suc (suc zero)))))))))))) h =
    refl
from_hex-nibble (suc (suc (suc (suc (suc (suc (suc (suc (suc (suc (suc (suc (suc zero)))))))))))))
      h =
    refl
from_hex-nibble
      (suc (suc (suc (suc (suc (suc (suc (suc (suc (suc (suc (suc (suc (suc zero)))))))))))))) h =
    refl
from_hex-nibble
      (suc (suc (suc (suc (suc (suc (suc (suc (suc (suc (suc (suc (suc (suc (suc zero)))))))))))))))
      h =
    refl
from_hex-nibble
      (suc
        (suc (suc (suc (suc (suc (suc (suc (suc (suc (suc (suc (suc (suc (suc (suc n))))))))))))))))
      h =
    absurd (omega arith)

abbrev pub AreBytes : Bytes → Type 0
AreBytes [] = Unit
AreBytes (b ∷ bs) = (b < 256) × AreBytes bs

-- Bytes are read back from their print.
pub decode-encode : (bs : Bytes) → AreBytes bs → decode (encode bs) ≡ some bs
unfolding decode encode
decode-encode [] h = refl
decode-encode (b ∷ bs) (h, hs) = ground (
  arith,
  from_hex-nibble (b / 16) (omega arith),
  from_hex-nibble (b % 16) (omega arith),
  decode-encode bs hs,
)

-- `hmac.Equal`
unfoldable pub bytes_eq : Bytes → Bytes → Bool
bytes_eq [] [] = true
bytes_eq (a ∷ xs) (b ∷ ys) = eqb a b && bytes_eq xs ys
bytes_eq _ _ = false

pub bytes_eq_iff : (xs ys : Bytes) → (bytes_eq xs ys ≡ true) ↔ (xs ≡ ys)
unfolding bytes_eq
bytes_eq_iff [] [] = ground arith
bytes_eq_iff (a ∷ xs) (b ∷ ys) = ground (arith, bytes_eq_iff xs ys)
bytes_eq_iff [] (b ∷ ys) = ground arith
bytes_eq_iff (a ∷ xs) [] = ground arith
