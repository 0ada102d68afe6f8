-- ===== src/R2/Technical/Codes.antt =====
-- The codes of some of the registered rules.
use scovant_core.Prelude.{
  String, ◌≡◌, refl, inl, inr, Bool, false, List, [], ◌∷◌, ◌++◌, map, keep, All, Bool-cases,
  or_false, str_eq, contains, repeats,
}
use scovant_core.Rules.{CoreRule, claimed}

contains-suffix :
    (xs ys : List String) (s : String) → contains (xs ++ ys) s ≡ false → contains ys s ≡ false
contains-suffix [] ys s h = h
contains-suffix (x ∷ xs) ys s h =
    contains-suffix xs ys s (or_false (str_eq x s) (contains (xs ++ ys) s) h).1

repeats-suffix : (xs ys : List String) → repeats (xs ++ ys) ≡ false → repeats ys ≡ false
repeats-suffix [] ys h = h
repeats-suffix (x ∷ xs) ys h =
    repeats-suffix xs ys (or_false (contains (xs ++ ys) x) (repeats (xs ++ ys)) h).1

module _ (p : CoreRule → Bool) where
  unclaimed :
      (rs : List CoreRule) (c : String)
      → contains (claimed rs) c ≡ false
      → contains (map (λ r. r.code) (keep p rs)) c ≡ false
  unclaimed [] c h = refl
  unclaimed (r ∷ rs) c h =
      let (differs, later) = or_false (str_eq r.code c) (contains (r.aliases ++ claimed rs) c) h in
      let rest = unclaimed rs c (contains-suffix r.aliases (claimed rs) c later) in
      elim (Bool-cases (p r)) [ inl e ↦ rw (e, differs) rest | inr e ↦ rw e rest ]

  pub codes_once :
      (rs : List CoreRule)
      → repeats (claimed rs) ≡ false
      → repeats (map (λ r. r.code) (keep p rs)) ≡ false
  codes_once [] h = refl
  codes_once (r ∷ rs) h =
      let (new, later) =
        or_false (contains (r.aliases ++ claimed rs) r.code) (repeats (r.aliases ++ claimed rs))
          h in
      let rest = codes_once rs (repeats-suffix r.aliases (claimed rs) later) in
      elim (Bool-cases (p r)) [
        | inl e ↦
            rw (e, unclaimed rs r.code (contains-suffix r.aliases (claimed rs) r.code new)) rest
        | inr e ↦ rw e rest
      ]

  pub All-keep : (P : CoreRule → Type 0) (rs : List CoreRule) → All P rs → All P (keep p rs)
  All-keep P [] h = tt
  All-keep P (r ∷ rs) h = elim (Bool-cases (p r)) [
    | inl e ↦ rw e (h.0, All-keep P rs h.1)
    | inr e ↦ rw e (All-keep P rs h.1)
  ]
