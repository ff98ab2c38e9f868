-- ===== src/Strings/Trim/Decimal.antt =====
-- The last digit of a printed number, as the program takes it from the output of a command.
use text.Mathlib.TextLemmas
use aergia_controller.Base.{
  ℕ, zero, suc, ◌/◌, ◌%◌, Char, String, ◌<>◌, ◌≡◌, ◌≢◌, refl, ◌∙◌, false, some, inl, inr, arith,
  ltb, Bool-cases, pos,
}
use aergia_controller.Strings.Decimal.{digit, digits, itoa}
use aergia_controller.Strings.Decimal.RoundTrip.{digits_last, digits_next, digits-ne-nil}
use aergia_controller.Strings.Trim.{is_space, trim_left, trim_right, trim_space, last_slice, keep}

abbrev LacksSpace : String → Type 0
LacksSpace String.[] = Unit
LacksSpace (String.◌∷◌ c s) = (is_space c ≡ false) × LacksSpace s

LacksSpace-append : (s t : String) → LacksSpace s → LacksSpace t → LacksSpace (s <> t)
LacksSpace-append String.[] t l m = rw (TextLemmas.nil-append t) m
LacksSpace-append (String.◌∷◌ c s) t (l, ls) m =
    rw (TextLemmas.cons-append c s t) (l, LacksSpace-append s t ls m)

digit-LacksSpace : (d : ℕ) → LacksSpace (String.◌∷◌ (digit d) "")
unfolding is_space
digit-LacksSpace zero = (refl, tt)
digit-LacksSpace (suc zero) = (refl, tt)
digit-LacksSpace (suc (suc zero)) = (refl, tt)
digit-LacksSpace (suc (suc (suc zero))) = (refl, tt)
digit-LacksSpace (suc (suc (suc (suc zero)))) = (refl, tt)
digit-LacksSpace (suc (suc (suc (suc (suc zero))))) = (refl, tt)
digit-LacksSpace (suc (suc (suc (suc (suc (suc zero)))))) = (refl, tt)
digit-LacksSpace (suc (suc (suc (suc (suc (suc (suc zero))))))) = (refl, tt)
digit-LacksSpace (suc (suc (suc (suc (suc (suc (suc (suc zero)))))))) = (refl, tt)
digit-LacksSpace (suc (suc (suc (suc (suc (suc (suc (suc (suc n))))))))) = (refl, tt)

digits-LacksSpace : (f n : ℕ) → LacksSpace (digits f n)
digits-LacksSpace zero n = unfold digits in tt
digits-LacksSpace (suc f) n = elim (Bool-cases (ltb n 10)) [
  | inl e ↦ rw (digits_last f n e) (digit-LacksSpace n)
  | inr e ↦
      rw (digits_next f n e)
        (LacksSpace-append _ _ (digits-LacksSpace f (n / 10)) (digit-LacksSpace (n % 10)))
]

trim_right_newline : trim_right "\n" ≡ ""
unfolding trim_right is_space
trim_right_newline = refl

trim_right_cons : (c : Char) (s : String) → trim_right (String.◌∷◌ c s) ≡ keep c (trim_right s)
unfolding trim_right
trim_right_cons c s = refl

keep_cons : (c : Char) (s : String) → is_space c ≡ false → keep c s ≡ String.◌∷◌ c s
keep_cons c String.[] l = rw l
keep_cons c (String.◌∷◌ d s) l = refl

trim_right-append_newline : (s : String) → LacksSpace s → trim_right (s <> "\n") ≡ s
trim_right-append_newline String.[] l = rw (TextLemmas.nil-append "\n") trim_right_newline
trim_right-append_newline (String.◌∷◌ c s) (l, ls) =
    rw (TextLemmas.cons-append c s "\n", trim_right_cons c (s <> "\n"))
      (rw (trim_right-append_newline s ls) (keep_cons c s l))

-- A text that does not begin with a space.
trim_left_cons :
    (c : Char) (s : String) → is_space c ≡ false → trim_left (String.◌∷◌ c s) ≡ String.◌∷◌ c s
unfolding trim_left
trim_left_cons c s l = rw l

trim_space-append_newline : (s : String) → LacksSpace s → s ≢ "" → trim_space (s <> "\n") ≡ s
unfolding trim_space
trim_space-append_newline String.[] l ne = absurd (ne refl)
trim_space-append_newline (String.◌∷◌ c s) (l, ls) ne =
    rw (TextLemmas.cons-append c s "\n", trim_left_cons c (s <> "\n") l)
      (trim_right_cons c (s <> "\n") ∙ rw (trim_right-append_newline s ls) (keep_cons c s l))

last_slice_cons : (c : Char) (s : String) → s ≢ "" → last_slice (String.◌∷◌ c s) ≡ last_slice s
unfolding last_slice
last_slice_cons c String.[] ne = absurd (ne refl)
last_slice_cons c (String.◌∷◌ d s) ne = refl

last_slice-append :
    (s : String) (c : Char) → last_slice (s <> String.◌∷◌ c "") ≡ some (String.◌∷◌ c "")
last_slice-append String.[] c =
    rw (TextLemmas.nil-append (String.◌∷◌ c "")) (unfold last_slice in refl)
last_slice-append (String.◌∷◌ d s) c = rw (TextLemmas.cons-append d s (String.◌∷◌ c "")) (
    last_slice_cons d (s <> String.◌∷◌ c "") (TextLemmas.concat-ne-nil c s) ∙ last_slice-append s c)

last_slice-digits :
    (f n : ℕ) → last_slice (digits (suc f) n) ≡ some (String.◌∷◌ (digit (n % 10)) "")
last_slice-digits f n = elim (Bool-cases (ltb n 10)) [
  | inl e ↦
      let small : n % 10 ≡ n = ground arith in
      rw (digits_last f n e, small) (unfold last_slice in refl)
  | inr e ↦ rw (digits_next f n e) (last_slice-append _ _)
]

-- The last character of the printed number, where a line feed follows it.
pub last_slice-trim_space-itoa :
    (n : ℕ) → last_slice (trim_space (itoa (pos n) <> "\n")) ≡ some (String.◌∷◌ (digit (n % 10)) "")
unfolding itoa
last_slice-trim_space-itoa n =
    rw
      (trim_space-append_newline (digits (suc n) n) (digits-LacksSpace (suc n) n)
        (digits-ne-nil n n))
      (last_slice-digits n n)
