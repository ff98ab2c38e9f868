-- ===== src/Strings/Trim.antt =====
-- `strings.TrimSpace`, and the slice `s[len(s)-1:]`.
pub mod Decimal
use aergia_controller.Base.{
  Char, code, String, ◌≡◌, refl, Bool, ◌&&◌, ◌||◌, Option, none, some, leb, eqb, if◌then◌else◌,
}

-- `unicode.IsSpace`
unfoldable pub is_space : Char → Bool
is_space c =
    let n = code c in
    (leb 9 n && leb n 13)
    || eqb n 32
    || eqb n 0x85
    || eqb n 0xA0
    || eqb n 0x1680
    || (leb 0x2000 n && leb n 0x200A)
    || eqb n 0x2028
    || eqb n 0x2029
    || eqb n 0x202F
    || eqb n 0x205F
    || eqb n 0x3000

unfoldable pub trim_left : String → String
trim_left String.[] = ""
trim_left (String.◌∷◌ c s) = let rest = trim_left s in if is_space c then rest else String.◌∷◌ c s

-- A space is kept if something is left behind it.
abbrev pub keep : Char → String → String
keep c String.[] = if is_space c then "" else String.◌∷◌ c ""
keep c (String.◌∷◌ d s) = String.◌∷◌ c (String.◌∷◌ d s)

unfoldable pub trim_right : String → String
trim_right String.[] = ""
trim_right (String.◌∷◌ c s) = keep c (trim_right s)

unfoldable pub trim_space : String → String
unfolding is_space trim_left trim_right
trim_space s = trim_right (trim_left s)

-- The last character as a text. `none` is the panic at the slice of an empty text. The source
-- takes the last byte, which differs from the last character only where that is not ASCII.
unfoldable pub last_slice : String → Option String
last_slice String.[] = none
last_slice (String.◌∷◌ c String.[]) = some (String.◌∷◌ c "")
last_slice (String.◌∷◌ c (String.◌∷◌ d s)) = last_slice (String.◌∷◌ d s)

test_trim_space :
    (trim_space " 1 2\n" ≡ "1 2") × (last_slice "12" ≡ some "2") × (trim_space "\n" ≡ "")
unfolding trim_space last_slice
test_trim_space = (refl, refl, refl)
