-- ===== src/Unidler/Helpers/Codes.antt =====
-- The list of codes in an annotation: what the idler adds to it and the unidler removes from it.
use aergia_controller.Base.{
  String, ◌≡◌, refl, ◌∙◌, ap, true, false, not, ◌&&◌, ◌||◌, Option, none, some, List, [], ◌∷◌, ◌++◌,
  ◌==◌, ==_iff, ==_refl, contains, contains-append, if◌then◌else◌, Bool-cases, inl, inr, arith,
}
use aergia_controller.Strings.Split.{
  split, join-split, split-join, split-append_comma, split_of_LacksComma, split-AllLackComma,
  LacksComma, AllLackComma,
}
use aergia_controller.Idler.Helpers.{add_status_code}
use aergia_controller.Unidler.Helpers.{other_codes, join_codes, remove_status_code}

-- A code that is not among them is behind them all.
other_codes-append :
    (cs : List String) (code : String)
    → contains cs code ≡ false
    → other_codes (cs ++ code ∷ []) code ≡ cs
unfolding other_codes contains
other_codes-append [] code h = ground (arith, ==_iff code code)
other_codes-append (c ∷ cs) code h =
    ground (arith, other_codes-append cs code, ==_iff c code, ==_iff code c)

contains-other_codes :
    (cs : List String) (code c : String)
    → contains (other_codes cs code) c ≡ (contains cs c && not (c == code))
unfolding other_codes contains
contains-other_codes [] code c = refl
contains-other_codes (d ∷ cs) code c =
    ground
      (arith, contains-other_codes cs code c, ==_iff d code, ==_iff d c, ==_iff c d, ==_iff c code)

other_codes-AllLackComma :
    (cs : List String) (code : String) → AllLackComma cs → AllLackComma (other_codes cs code)
unfolding other_codes
other_codes-AllLackComma [] code h = tt
other_codes-AllLackComma (c ∷ cs) code (h, hs) = elim (Bool-cases (c == code)) [
  | inl e ↦ rw e (other_codes-AllLackComma cs code hs)
  | inr e ↦ rw e (h, other_codes-AllLackComma cs code hs)
]

join_codes-split : (s : String) → join_codes (split s) ≡ some s
unfolding split
join_codes-split s = ap some (join-split s)

remove_status_code_eq :
    (codes code : String)
    → remove_status_code codes code ≡ join_codes (other_codes (split codes) code)
unfolding remove_status_code
remove_status_code_eq codes code = refl

split_of_empty : split "" ≡ "" ∷ []
split_of_empty = split_of_LacksComma "" tt

other_codes_self : (code : String) → other_codes (code ∷ []) code ≡ []
unfolding other_codes
other_codes_self code = rw (==_refl code)

split-add_status_code :
    (codes code : String)
    → LacksComma code
    → contains (split codes) code ≡ false
    → (codes == "") ≡ false
    → split (add_status_code codes code) ≡ split codes ++ code ∷ []
unfolding add_status_code
split-add_status_code codes code lacks new e =
    rw (e, new, split-append_comma codes code, split_of_LacksComma code lacks)

add_status_code_of_empty :
    (codes code : String) → (codes == "") ≡ true → add_status_code codes code ≡ code
unfolding add_status_code
add_status_code_of_empty codes code e = rw e

add_status_code_again :
    (codes code : String)
    → (codes == "") ≡ false
    → contains (split codes) code ≡ true
    → add_status_code codes code ≡ codes
unfolding add_status_code
add_status_code_again codes code e old = rw (e, old)

-- A code without a comma that is added to a list of codes and was not in it is removed again with
-- nothing else changed, and a list that was empty is removed with it.
pub remove_status_code-add_status_code :
    (codes code : String)
    → LacksComma code
    → contains (split codes) code ≡ false
    → remove_status_code (add_status_code codes code) code
      ≡ (if codes == "" then none else some codes)
remove_status_code-add_status_code codes code lacks new =
    remove_status_code_eq (add_status_code codes code) code ∙ elim (Bool-cases (codes == "")) [
      | inl e ↦ rw (
        e,
        add_status_code_of_empty codes code e,
        split_of_LacksComma code lacks,
        other_codes_self code,
      )
      | inr e ↦
          rw
            (
              e,
              split-add_status_code codes code lacks new e,
              other_codes-append (split codes) code new,
            )
            (join_codes-split codes)
    ]

-- After the addition of a code without a comma the list has that code, and of any other code it has
-- those of before, and none if it was empty.
pub contains-add_status_code :
    (codes code c : String)
    → LacksComma code
    → contains (split (add_status_code codes code)) c
      ≡ ((not (codes == "") && contains (split codes) c) || c == code)
contains-add_status_code codes code c lacks = elim (Bool-cases (codes == "")) [
  | inl e ↦
      rw (e, add_status_code_of_empty codes code e, split_of_LacksComma code lacks)
        (ground (arith, ==_iff code c, ==_iff c code))
  | inr e ↦ elim (Bool-cases (contains (split codes) code)) [
    | inl old ↦ rw (e, add_status_code_again codes code e old) (ground (arith, ==_iff c code))
    | inr new ↦
        rw
          (
            e,
            split-add_status_code codes code lacks new e,
            contains-append (split codes) (code ∷ []) c,
          )
          (ground (arith, ==_iff code c, ==_iff c code))
  ]
]

-- The parts that are left after a removal are those of before without the code; where none is
-- left there is no text.
abbrev pub IsWithout : List String → String → Option String → Type 0
IsWithout cs code none = (c : String) → contains cs c ≡ true → c ≡ code
IsWithout cs code (some rest) =
    (c : String) → contains (split rest) c ≡ (contains cs c && not (c == code))

join_codes-IsWithout :
    (cs : List String) (code : String) (rest : List String)
    → AllLackComma rest
    → ((c : String) → contains rest c ≡ (contains cs c && not (c == code)))
    → IsWithout cs code (join_codes rest)
join_codes-IsWithout cs code [] lack h = λ c there. ground (arith, h c, ==_iff c code)
join_codes-IsWithout cs code (r ∷ rs) lack h = λ c. rw (split-join r rs lack) (h c)

-- The codes that are left after a removal are those of before without the code, however often it
-- was there, and there is no list left only if there was no other code.
pub remove_status_code-IsWithout :
    (codes code : String) → IsWithout (split codes) code (remove_status_code codes code)
remove_status_code-IsWithout codes code = rw (remove_status_code_eq codes code) (
    join_codes-IsWithout (split codes) code (other_codes (split codes) code)
      (other_codes-AllLackComma (split codes) code (split-AllLackComma codes))
      (contains-other_codes (split codes) code))
