-- ===== src/Strings/Split.antt =====
-- `strings.Split(s, ",")` and `strings.Join(parts, ",")`. A text is the list of its characters.
use text.Mathlib.TextLemmas
use text.Mathlib.TextEquality.{Char-path}
use aergia_controller.Base.{
  Char, code, String, ◌<>◌, ◌≡◌, refl, sym, ap, ◌∙◌, inl, inr, true, false, List, [], ◌∷◌, ◌++◌,
  arith, eqb, if◌then◌else◌, Bool-cases,
}

-- The part before the first comma, and the parts behind it.
cut : String → String × List String
cut String.[] = ("", [])
cut (String.◌∷◌ c s) =
    let (p, ps) = cut s in if eqb (code c) b',' then ("", p ∷ ps) else (String.◌∷◌ c p, ps)

unfoldable pub split : String → List String
unfolding cut
split s = let (p, ps) = cut s in p ∷ ps

unfoldable pub join : List String → String
join [] = ""
join (p ∷ []) = p
join (p ∷ q ∷ ps) = p <> "," <> join (q ∷ ps)

test_split : split "a,,b" ≡ "a" ∷ "" ∷ "b" ∷ []
unfolding split
test_split = refl

join-cons_char :
    (c : Char) (p : String) (ps : List String)
    → join (String.◌∷◌ c p ∷ ps) ≡ String.◌∷◌ c (join (p ∷ ps))
unfolding join
join-cons_char c p [] = refl
join-cons_char c p (q ∷ ps) = TextLemmas.cons-append c p _

abbrev comma : Char
comma = ","

comma-append : (c : Char) (s : String) → code c ≡ b',' → "," <> s ≡ String.◌∷◌ c s
comma-append c s h =
    TextLemmas.cons-append comma "" s
    ∙ ap (String.◌∷◌ comma) (TextLemmas.nil-append s)
    ∙ ap (λ d. String.◌∷◌ d s) (Char-path comma c (sym h))

join-nil_part : (q : String) (ps : List String) → join ("" ∷ q ∷ ps) ≡ "," <> join (q ∷ ps)
unfolding join
join-nil_part q ps = TextLemmas.nil-append _

cut_at_comma :
    (c : Char) (s : String)
    → eqb (code c) b',' ≡ true
    → cut (String.◌∷◌ c s) ≡ ("", (cut s).0 ∷ (cut s).1)
unfolding cut
cut_at_comma c s h = rw h

cut_at_other :
    (c : Char) (s : String)
    → eqb (code c) b',' ≡ false
    → cut (String.◌∷◌ c s) ≡ (String.◌∷◌ c (cut s).0, (cut s).1)
unfolding cut
cut_at_other c s h = rw h

join-cut : (s : String) → join ((cut s).0 ∷ (cut s).1) ≡ s
join-cut String.[] = unfold cut join in refl
join-cut (String.◌∷◌ c s) = elim (Bool-cases (eqb (code c) b',')) [
  | inl e ↦
      rw (cut_at_comma c s e)
        (join-nil_part _ _ ∙ ap (λ t. "," <> t) (join-cut s) ∙ comma-append c s (ground arith))
  | inr e ↦ rw (cut_at_other c s e) (join-cons_char c _ _ ∙ ap (String.◌∷◌ c) (join-cut s))
]

-- Joining the parts of a split gives the text back, for every text.
pub join-split : (s : String) → join (split s) ≡ s
unfolding split
join-split s = join-cut s

abbrev pub LacksComma : String → Type 0
LacksComma String.[] = Unit
LacksComma (String.◌∷◌ c s) = (eqb (code c) b',' ≡ false) × LacksComma s

-- A text before the first comma goes to the first part.
cut-append : (p s : String) → LacksComma p → cut (p <> s) ≡ (p <> (cut s).0, (cut s).1)
cut-append String.[] s h = rw (TextLemmas.nil-append s, TextLemmas.nil-append (cut s).0)
cut-append (String.◌∷◌ c p) s (h, hs) = rw (
  TextLemmas.cons-append c p s,
  TextLemmas.cons-append c p (cut s).0,
  cut_at_other c _ h,
  cut-append p s hs,
)

cut_of_LacksComma : (p : String) → LacksComma p → cut p ≡ (p, [])
cut_of_LacksComma String.[] h = unfold cut in refl
cut_of_LacksComma (String.◌∷◌ c p) (h, hs) = rw (cut_at_other c p h, cut_of_LacksComma p hs)

-- A text without a comma is its own only part.
pub split_of_LacksComma : (p : String) → LacksComma p → split p ≡ p ∷ []
unfolding split
split_of_LacksComma p h = rw (cut_of_LacksComma p h)

cut-comma-append : (s : String) → cut ("," <> s) ≡ ("", split s)
unfolding split
cut-comma-append s = ap cut (comma-append comma s refl) ∙ cut_at_comma comma s refl

cut-append_comma : (s t : String) → cut (s <> ("," <> t)) ≡ ((cut s).0, (cut s).1 ++ split t)
cut-append_comma String.[] t =
    rw (TextLemmas.nil-append ("," <> t)) (cut-comma-append t ∙ unfold cut in refl)
cut-append_comma (String.◌∷◌ c s) t = elim (Bool-cases (eqb (code c) b',')) [
  | inl e ↦
      rw (TextLemmas.cons-append c s ("," <> t), cut_at_comma c _ e, cut_at_comma c s e)
        (rw (cut-append_comma s t))
  | inr e ↦
      rw (TextLemmas.cons-append c s ("," <> t), cut_at_other c _ e, cut_at_other c s e)
        (rw (cut-append_comma s t))
]

-- Splitting at a comma of the text splits both sides.
pub split-append_comma : (s t : String) → split (s <> ("," <> t)) ≡ split s ++ split t
unfolding split
split-append_comma s t = rw (cut-append_comma s t)

abbrev pub AllLackComma : List String → Type 0
AllLackComma [] = Unit
AllLackComma (p ∷ ps) = LacksComma p × AllLackComma ps

-- Splitting a join gives the parts back, if there is a part and none holds a comma.
pub split-join :
    (p : String) (ps : List String) → AllLackComma (p ∷ ps) → split (join (p ∷ ps)) ≡ p ∷ ps
unfolding join
split-join p [] (h, _) = split_of_LacksComma p h
split-join p (q ∷ qs) (h, hs) =
    split-append_comma p (join (q ∷ qs)) ∙ rw (split_of_LacksComma p h, split-join q qs hs)

cut-AllLackComma : (s : String) → LacksComma (cut s).0 × AllLackComma (cut s).1
unfolding cut
cut-AllLackComma String.[] = (tt, tt)
cut-AllLackComma (String.◌∷◌ c s) =
    let (h, hs) = cut-AllLackComma s in
    elim (Bool-cases (eqb (code c) b',')) [
      | inl e ↦ rw (cut_at_comma c s e) (tt, (h, hs))
      | inr e ↦ rw (cut_at_other c s e) ((e, h), hs)
    ]

-- No part of a split holds a comma.
pub split-AllLackComma : (s : String) → AllLackComma (split s)
unfolding split
split-AllLackComma s = cut-AllLackComma s
