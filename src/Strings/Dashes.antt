-- ===== src/Strings/Dashes.antt =====
-- `regexp.MustCompile("-{2,}").ReplaceAllString(s, "-")`: a run of dashes becomes one dash.

use aergia_controller.Base.{
  code, String, ◌≡◌, refl, inl, inr, Bool, false, ◌&&◌, arith, eqb, if◌then◌else◌, Bool-cases,
}
use aergia_controller.Strings.Split.{LacksComma}

abbrev starts_with_dash : String → Bool
starts_with_dash String.[] = false
starts_with_dash (String.◌∷◌ c _) = eqb (code c) b'-'

unfoldable pub collapse_dashes : String → String
collapse_dashes String.[] = ""
collapse_dashes (String.◌∷◌ c s) =
    let rest = collapse_dashes s in
    if eqb (code c) b'-' && starts_with_dash s then rest else String.◌∷◌ c rest

test_collapse_dashes : collapse_dashes "a---b-c--" ≡ "a-b-c-"
unfolding collapse_dashes
test_collapse_dashes = refl

-- Two dashes stand next to one another nowhere.
abbrev pub HasNoDashRun : String → Type 0
HasNoDashRun String.[] = Unit
HasNoDashRun (String.◌∷◌ c s) = ((eqb (code c) b'-' && starts_with_dash s) ≡ false) × HasNoDashRun s

starts_with_dash-collapse : (s : String) → starts_with_dash (collapse_dashes s) ≡ starts_with_dash s
unfolding collapse_dashes
starts_with_dash-collapse String.[] = refl
starts_with_dash-collapse (String.◌∷◌ c s) =
    elim (Bool-cases (eqb (code c) b'-' && starts_with_dash s)) [
      | inl e ↦ rw e (ground (arith, starts_with_dash-collapse s))
      | inr e ↦ rw e
    ]

pub collapse_dashes-HasNoDashRun : (s : String) → HasNoDashRun (collapse_dashes s)
unfolding collapse_dashes
collapse_dashes-HasNoDashRun String.[] = tt
collapse_dashes-HasNoDashRun (String.◌∷◌ c s) =
    elim (Bool-cases (eqb (code c) b'-' && starts_with_dash s)) [
      | inl e ↦ rw e (collapse_dashes-HasNoDashRun s)
      | inr e ↦ rw e (rw (starts_with_dash-collapse s) e, collapse_dashes-HasNoDashRun s)
    ]

pub collapse_dashes_of_HasNoDashRun : (s : String) → HasNoDashRun s → collapse_dashes s ≡ s
unfolding collapse_dashes
collapse_dashes_of_HasNoDashRun String.[] h = refl
collapse_dashes_of_HasNoDashRun (String.◌∷◌ c s) (h, hs) =
    rw (h, collapse_dashes_of_HasNoDashRun s hs)

pub collapse_dashes-LacksComma : (s : String) → LacksComma s → LacksComma (collapse_dashes s)
unfolding collapse_dashes
collapse_dashes-LacksComma String.[] h = tt
collapse_dashes-LacksComma (String.◌∷◌ c s) (h, hs) =
    elim (Bool-cases (eqb (code c) b'-' && starts_with_dash s)) [
      | inl e ↦ rw e (collapse_dashes-LacksComma s hs)
      | inr e ↦ rw e (h, collapse_dashes-LacksComma s hs)
    ]
