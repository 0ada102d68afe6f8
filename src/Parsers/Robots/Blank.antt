-- ===== src/Parsers/Robots/Blank.antt =====
-- A robots.txt of white space, on which the code returns early, has only blank lines.
use Prim.Native.Char.{Char, code}
use Prim.Native.String.{String}
use scovant_core.Prelude.{
  ◌≡◌, refl, sym, ◌∙◌, inl, inr, Bool, true, false, ◌&&◌, List, [], ◌∷◌, map, All, Bool-cases,
  str_eq, strip, eq_iff, ◌==◌, starts_with, arith,
}
use scovant_core.Prelude.Text.Blank.{is_white, strip-eq}
use scovant_core.Parsers.Robots.{
  Rule, blank, is_break, put_first, splitlines, bare_line, read_bare, read_line,
}
use scovant_core.Parsers.Robots.Lines.{listed}

abbrev White : String → Type 0
White s = is_white s ≡ true

split_and : (a b : Bool) → (a && b) ≡ true → (a ≡ true) × (b ≡ true)
split_and a b h = ground arith

with_right : (a b c : Bool) → (a && b) ≡ true → c ≡ true → (a && c) ≡ true
with_right a b c h k = ground arith

first-White : (c : Char) (s : String) (h : White (String.◌∷◌ c s)) → White s
unfolding is_white
first-White c s h = (split_and _ _ h).1

put_first-White :
    (c : Char) (s : String) (ls : List String)
    → White (String.◌∷◌ c s)
    → All White ls
    → All White (put_first c ls)
unfolding put_first is_white
put_first-White c s [] h hs = (with_right _ _ _ h refl, tt)
put_first-White c s (l ∷ ls) h hs = (with_right _ _ _ h hs.0, hs.1)

splitlines-White : (s : String) → White s → All White (splitlines s)
unfolding splitlines is_white
splitlines-White String.[] h = tt
splitlines-White (String.◌∷◌ c s) h =
    let rest = splitlines-White s (first-White c s h) in
    elim (Bool-cases (code c == 13 && starts_with s "\n")) [
      | inl e ↦ rw e rest
      | inr e ↦ elim (Bool-cases (is_break c)) [
        | inl b ↦ rw (e, b) (refl, rest)
        | inr b ↦ rw (e, b) (put_first-White c s (splitlines s) h rest)
      ]
    ]

read_line-White : (l : String) → White l → read_line l ≡ blank
unfolding read_line bare_line read_bare
read_line-White l h = rw ((eq_iff (strip l) "").0 (strip-eq l ∙ h)) refl

listed-White :
    (r : Rule) (key path : String) (ls : List String)
    → All White ls
    → listed r key path (map read_line ls) ≡ false
listed-White r key path [] h = refl
listed-White r key path (l ∷ ls) h = rw (read_line-White l h.0) (listed-White r key path ls h.1)

pub listed_blank :
    (r : Rule) (key path content : String)
    → str_eq (strip content) "" ≡ true
    → listed r key path (map read_line (splitlines content)) ≡ false
listed_blank r key path content h =
    listed-White r key path (splitlines content)
      (splitlines-White content (sym (strip-eq content) ∙ h))
