-- ===== src/Unidler/Helpers.antt =====
-- internal/handlers/unidler/helpers.go
pub mod Codes
use aergia_controller.Base.{
  ℕ, Char, code, String, ◌<>◌, ◌≡◌, refl, Bool, true, false, Option, none, some, List, [], ◌∷◌, map,
  eqb, ◌==◌, if◌then◌else◌,
}
use aergia_controller.Strings.Split.{split, join}
use aergia_controller.Strings.Hex.{Bytes, encode, decode, bytes_eq}
use aergia_controller.Stdlib.{Stdlib}

-- The loop: the parts other than the code, in order.
unfoldable pub other_codes : List String → String → List String
other_codes [] code = []
other_codes (c ∷ cs) code = let rest = other_codes cs code in if c == code then rest else c ∷ rest

-- A nil pointer for an empty list.
abbrev pub join_codes : List String → Option String
join_codes [] = none
join_codes (c ∷ cs) = some (join (c ∷ cs))

unfoldable pub remove_status_code : String → String → Option String
unfolding other_codes split join
remove_status_code codes code = join_codes (other_codes (split codes) code)

test_remove_status_code :
    (remove_status_code "404,503,500" "503" ≡ some "404,500")
    × (remove_status_code "503" "503" ≡ none)
    × (remove_status_code "" "503" ≡ some "")
unfolding remove_status_code ◌==◌
test_remove_status_code = (refl, refl, refl)

-- A line without the carriage return at its end.
drop_return : String → String
drop_return String.[] = ""
drop_return (String.◌∷◌ c String.[]) = if eqb (code c) 13 then "" else String.◌∷◌ c ""
drop_return (String.◌∷◌ c (String.◌∷◌ d s)) = String.◌∷◌ c (drop_return (String.◌∷◌ d s))

-- The text up to the first line feed, and the lines behind it.
cut_line : String → String × List String
cut_line String.[] = ("", [])
cut_line (String.◌∷◌ c s) =
    let (l, ls) = cut_line s in if eqb (code c) 10 then ("", l ∷ ls) else (String.◌∷◌ c l, ls)

-- The last line counts only if there is something in it.
drop_last : List String → List String
drop_last [] = []
drop_last (l ∷ []) = if l == "" then [] else l ∷ []
drop_last (l ∷ k ∷ ls) = l ∷ drop_last (k ∷ ls)

abbrev nil_if_empty : List String → Option (List String)
nil_if_empty [] = none
nil_if_empty (l ∷ ls) = some (l ∷ ls)

-- `ReadSliceFromFile` on the content of the file; none where it cannot be opened. The slice is nil
-- if there is no line. Lines are taken to be shorter than the 64 KiB of the scanner.
unfoldable pub read_slice_from_file : Option String → Option (List String)
unfolding cut_line drop_last drop_return
read_slice_from_file none = none
read_slice_from_file (some text) =
    let (l, ls) = cut_line text in nil_if_empty (map drop_return (drop_last (l ∷ ls)))

test_read_slice_from_file :
    (read_slice_from_file (some "1.2.3.4\r\n5.6.7.8\n") ≡ some ("1.2.3.4" ∷ "5.6.7.8" ∷ []))
    × (read_slice_from_file (some "a\n\nb") ≡ some ("a" ∷ "" ∷ "b" ∷ []))
    × (read_slice_from_file (some "") ≡ none)
unfolding read_slice_from_file ◌==◌
test_read_slice_from_file = (refl, refl, refl)

unfoldable pub hmac_sign : Stdlib → String → String → Bytes
hmac_sign L ns secret = L.hmac_sha256 secret ns

-- An error of the decoding, or the comparison.
unfoldable pub equal_if_decoded : Bytes → Option Bytes → Bool
equal_if_decoded verified_hmac none = false
equal_if_decoded verified_hmac (some hmac_hex) = bytes_eq verified_hmac hmac_hex

unfoldable pub hmac_verifier : Stdlib → String → String → String → Bool
unfolding hmac_sign
hmac_verifier L verify to_verify secret =
    equal_if_decoded (hmac_sign L verify secret) (decode to_verify)

unfoldable pub hmac_signer : Stdlib → String → String → String
unfolding hmac_sign
hmac_signer L ns secret = encode (hmac_sign L ns secret)
