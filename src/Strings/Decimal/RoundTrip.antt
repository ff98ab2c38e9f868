-- ===== src/Strings/Decimal/RoundTrip.antt =====
-- The print of an int and how it is read.
use text.Mathlib.TextLemmas
use aergia_controller.Base.{
  ℕ, zero, suc, ◌+◌, ◌-◌, ◌*◌, ◌/◌, ◌%◌, ◌^◌, ◌<◌, Char, code, String, ◌<>◌, ◌≡◌, refl, ap, true,
  false, ◌∙◌, ◌≢◌, inl, inr, arith, ltb, if◌then◌else◌, Bool-cases, pos,
}
use aergia_controller.Strings.Decimal.{
  digit, digits, itoa, Scan, value, syntax, range, is_digit, scan, atoi,
}

-- Reading goes on behind a text that has been read.
abbrev scan_from : String → Scan → Scan
scan_from t (value n) = scan t n
scan_from t syntax = syntax
scan_from t range = range

scan_cons :
    (c : Char) (s : String) (n : ℕ)
    → scan (String.◌∷◌ c s) n ≡ (
        if is_digit c
        then (if ltb (n * 10 + (code c - b'0')) (2 ^ 64)
            then scan s (n * 10 + (code c - b'0'))
            else range)
        else syntax)
unfolding scan
scan_cons c s n = refl

scan-append : (s t : String) (n : ℕ) → scan (s <> t) n ≡ scan_from t (scan s n)
scan-append String.[] t n = rw (TextLemmas.nil-append t) (unfold scan in refl)
scan-append (String.◌∷◌ c s) t n =
    rw (TextLemmas.cons-append c s t, scan_cons c (s <> t) n, scan_cons c s n, scan-append s t)
      (ground arith)

code-digit : (d : ℕ) → d < 10 → code (digit d) ≡ b'0' + d
code-digit zero h = refl
code-digit (suc zero) h = refl
code-digit (suc (suc zero)) h = refl
code-digit (suc (suc (suc zero))) h = refl
code-digit (suc (suc (suc (suc zero)))) h = refl
code-digit (suc (suc (suc (suc (suc zero))))) h = refl
code-digit (suc (suc (suc (suc (suc (suc zero)))))) h = refl
code-digit (suc (suc (suc (suc (suc (suc (suc zero))))))) h = refl
code-digit (suc (suc (suc (suc (suc (suc (suc (suc zero)))))))) h = refl
code-digit (suc (suc (suc (suc (suc (suc (suc (suc (suc zero))))))))) h = refl
code-digit (suc (suc (suc (suc (suc (suc (suc (suc (suc (suc n)))))))))) h = absurd (omega arith)

scan-digit :
    (d n : ℕ) → d < 10 → n * 10 + d < 2 ^ 64 → scan (String.◌∷◌ (digit d) "") n ≡ value (n * 10 + d)
unfolding scan
scan-digit d n h lt = rw (code-digit d h) (ground arith)

pub digits_last : (f n : ℕ) → ltb n 10 ≡ true → digits (suc f) n ≡ String.◌∷◌ (digit n) ""
unfolding digits
digits_last f n e = rw e

pub digits_next :
    (f n : ℕ)
    → ltb n 10 ≡ false
    → digits (suc f) n ≡ digits f (n / 10) <> String.◌∷◌ (digit (n % 10)) ""
unfolding digits
digits_next f n e = rw e

scan-digits : (f n : ℕ) → n < f → n < 2 ^ 64 → scan (digits f n) 0 ≡ value n
scan-digits zero n h lt = absurd (omega arith)
scan-digits (suc f) n h lt = elim (Bool-cases (ltb n 10)) [
  | inl e ↦
      rw (digits_last f n e) (scan-digit n 0 (ground arith) (omega arith) ∙ ap value (omega arith))
  | inr e ↦
      rw (digits_next f n e, scan-append (digits f (n / 10)) _ 0)
        (rw (scan-digits f (n / 10) (ground arith) (omega arith))
          (scan-digit (n % 10) (n / 10) (omega arith) (omega arith) ∙ ap value (omega arith)))
]

-- A text that is read as a number has no sign.
atoi_of_scan :
    (s : String) (n : ℕ) → s ≢ "" → scan s 0 ≡ value n → n < 2 ^ 63 → atoi s ≡ (pos n, true)
unfolding atoi
atoi_of_scan String.[] n ne h lt = absurd (ne refl)
atoi_of_scan (String.◌∷◌ c s) n ne h lt = ground arith

pub digits-ne-nil : (f n : ℕ) → digits (suc f) n ≢ ""
digits-ne-nil f n e = elim (Bool-cases (ltb n 10)) [
  | inl l ↦ TextLemmas.cons-ne-nil _ _ (rw (digits_last f n l) at e)
  | inr l ↦ TextLemmas.concat-ne-nil _ _ (rw (digits_next f n l) at e)
]

-- Every natural number that is an int is read back from its decimal print.
pub atoi-itoa : (n : ℕ) → n < 2 ^ 63 → atoi (itoa (pos n)) ≡ (pos n, true)
unfolding itoa
atoi-itoa n h =
    atoi_of_scan (digits (suc n) n) n (digits-ne-nil n n)
      (scan-digits (suc n) n (omega arith) (omega arith)) h
