-- ===== src/Strings/Decimal/Bounds.antt =====
-- The range of the numbers that are read.
use aergia_controller.Base.{
  Bool-cases, inl, inr, ℕ, zero, suc, ◌^◌, ◌<◌, code, String, ◌≡◌, Bool, true, false, arith, eqb,
  ltb, leb, ℤ, pos, negsuc, negate,
}
use aergia_controller.Strings.Decimal.{Scan, value, syntax, range, signed, unsigned, atoi}

-- The number is one of 64 bits.
abbrev pub InRange : ℤ → Type 0
InRange (pos n) = n < 2 ^ 63
InRange (negsuc n) = n < 2 ^ 63

negate-InRange : (n : ℕ) → leb n (2 ^ 63) ≡ true → InRange (negate n)
negate-InRange zero h = omega arith
negate-InRange (suc n) h = ground arith

signed-InRange : (neg : Bool) (s : Scan) → InRange (signed neg s).0
signed-InRange neg syntax = omega arith
signed-InRange true range = omega arith
signed-InRange false range = omega arith
signed-InRange true (value n) = elim (Bool-cases (leb n (2 ^ 63))) [
  | inl e ↦ rw e (negate-InRange n e)
  | inr e ↦ rw e (omega arith)
]
signed-InRange false (value n) = elim (Bool-cases (ltb n (2 ^ 63))) [
  | inl e ↦ rw e (ground arith)
  | inr e ↦ rw e (omega arith)
]

pub atoi-InRange : (s : String) → InRange (atoi s).0
unfolding atoi
atoi-InRange String.[] = omega arith
atoi-InRange (String.◌∷◌ c s) = elim (Bool-cases (eqb (code c) b'-')) [
  | inl e ↦ rw e (signed-InRange true (unsigned s))
  | inr e ↦ elim (Bool-cases (eqb (code c) b'+')) [
    | inl f ↦ rw (e, f) (signed-InRange false (unsigned s))
    | inr f ↦ rw (e, f) (signed-InRange false (unsigned (String.◌∷◌ c s)))
  ]
]
