-- ===== src/Strings.antt =====
-- The functions of Go's standard library on texts that the program calls. A text is the list of
-- its characters: what the program reads is UTF-8.
pub mod Split
pub mod Dashes
pub mod Decimal
pub mod Hex
pub mod Trim
use aergia_controller.Base.{String, Bool, List, [], ◌∷◌, contains}

-- The value of `strconv.ParseBool`: false for the words of falsehood, and where there is an error.
unfoldable pub parse_bool : String → Bool
parse_bool s = contains ("1" ∷ "t" ∷ "T" ∷ "TRUE" ∷ "true" ∷ "True" ∷ []) s
