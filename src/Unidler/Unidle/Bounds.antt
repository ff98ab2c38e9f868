-- ===== src/Unidler/Unidle/Bounds.antt =====
-- The number of replicas that the unidler scales to.
use aergia_controller.Base.{
  ℕ, zero, suc, ◌^◌, ◌<◌, ◌≤◌, String, ◌≡◌, refl, Bool, true, false, ◌&&◌, Option, none, some, ℤ,
  pos, negsuc, is_positive, if◌then◌else◌, arith,
}
use aergia_controller.Strings.Decimal.{itoa, atoi}
use aergia_controller.Strings.Decimal.Bounds.{InRange, atoi-InRange}
use aergia_controller.Strings.Decimal.RoundTrip.{atoi-itoa}
use aergia_controller.Unidler.Unidle.{new_replicas}

positive-InRange :
    (n : ℤ) (parsed : Bool)
    → InRange n
    → (k : ℕ) × ((if parsed && is_positive n then n else pos 1) ≡ pos k) × (1 ≤ k) × (k < 2 ^ 63)
positive-InRange (pos (suc n)) true h = (suc n, refl, omega arith, h)
positive-InRange (pos zero) true h = (1, refl, omega arith, omega arith)
positive-InRange (negsuc n) true h = (1, refl, omega arith, omega arith)
positive-InRange n false h = (1, refl, omega arith, omega arith)

bounded : (v : Option String) → (k : ℕ) × (new_replicas v ≡ pos k) × (1 ≤ k) × (k < 2 ^ 63)
unfolding new_replicas
bounded none = (1, refl, omega arith, omega arith)
bounded (some value) = positive-InRange (atoi value).0 (atoi value).1 (atoi-InRange value)

reached : (k : ℕ) → 1 ≤ k → k < 2 ^ 63 → new_replicas (some (itoa (pos k))) ≡ pos k
unfolding new_replicas
reached zero low high = absurd (omega arith)
reached (suc k) low high = rw (atoi-itoa (suc k) high)

-- The number of replicas that the unidler scales to lies between 1 and 2^63 - 1, whatever the
-- annotation holds, and each number in that range is reached, by its decimal print.
pub new_replicas_bounds :
    ((v : Option String) → (k : ℕ) × (new_replicas v ≡ pos k) × (1 ≤ k) × (k < 2 ^ 63))
    × ((k : ℕ) → 1 ≤ k → k < 2 ^ 63 → new_replicas (some (itoa (pos k))) ≡ pos k)
new_replicas_bounds = (bounded, reached)
