-- ===== src/Stdlib.antt =====
-- The functions of Go's standard library that the program calls and whose values only pass through
-- it: regular expressions given by users, durations, HMAC-SHA256, URLs and the texts of HTTP codes.
use aergia_controller.Base.{Bool, String, Option, ℤ}
use aergia_controller.Strings.Hex.{Bytes}

-- `match_string` gives none for a pattern that does not compile. `parse_duration` gives
-- nanoseconds, or none for an error. `hmac_sha256` takes the secret and the message.
-- `url_hostname` parses a URL and gives its host name, or none for an error. `template_error` is the
-- error of reading and parsing a template file, if there is one.
pub record Stdlib : Type 0 where
  pub match_string : String → String → Option Bool
  pub parse_duration : String → Option ℤ
  pub duration_string : ℤ → String
  pub hmac_sha256 : String → String → Bytes
  pub url_hostname : String → Option String
  pub status_text : ℤ → String
  pub template_error : String → Option String
  pub getenv : String → String
