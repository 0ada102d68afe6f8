-- ===== src/Owasp/Served.antt =====
-- What `parse_standards` and `for_rule` give.
use mathlib.Core.Path.{subst}
use scovant_core.Prelude.{
  suc, String, ◌≡◌, refl, ap, inl, inr, Bool, true, Option, none, some, List, [], ◌∷◌, All, length,
  Bool-cases, keep, starts_with, contains, lookup, upper, Result, ok, >>=-eq-ok,
}
use scovant_core.Models.{OwaspEntry}
use scovant_core.Owasp.{
  OwaspError, asi_titles, relations, entry, titled, match_standard, read_entry, parse_standards,
}

-- an entry of the table of categories, with a relation of the vocabulary
pub record IsServed (e : OwaspEntry) : Type 0 where
  pub category : lookup e.id asi_titles ≡ some e.title
  pub relation : contains relations e.relation ≡ true

carried :
    {x e : OwaspEntry}
    → ◌≡◌ {A = Result OwaspError OwaspEntry} (ok x) (ok e)
    → IsServed x
    → IsServed e
carried {x} {e} p h = let here : x ≡ e = cc in subst IsServed here h

titled-IsServed :
    (asi relation : String) (t : Option String) {e : OwaspEntry}
    → lookup asi asi_titles ≡ t
    → titled asi relation t ≡ ok e
    → IsServed e
titled-IsServed asi relation none q h = absurd cc
titled-IsServed asi relation (some title) q h = elim (Bool-cases (contains relations relation)) [
  | inr r ↦ let k = rw r at h in absurd cc
  | inl r ↦ carried (rw r at h) (record { category = q; relation = r })
]

read_entry-IsServed :
    (std : String) (m : Option (String × String)) {e : OwaspEntry}
    → read_entry std m ≡ ok e
    → IsServed e
unfolding entry
read_entry-IsServed std none h = absurd cc
read_entry-IsServed std (some (asi, relation)) h = titled-IsServed asi (upper relation) _ refl h

abbrev pub is_owasp : String → Bool
is_owasp std = starts_with std "OWASP"

pub record AreServed (stds : List String) (es : List OwaspEntry) : Type 0 where
  pub served : All IsServed es
  pub counted : length es ≡ length (keep is_owasp stds)

settled :
    {stds : List String} {x es : List OwaspEntry}
    → ◌≡◌ {A = Result OwaspError (List OwaspEntry)} (ok x) (ok es)
    → AreServed stds x
    → AreServed stds es
settled {stds} {x} {es} p h = let here : x ≡ es = cc in subst (AreServed stds) here h

-- Where `parse_standards` gives entries, there is one for each declaration that starts with OWASP, and
-- each has a category of the table, with its title, and a relation of the vocabulary.
pub parse_standards-AreServed :
    (stds : List String) {es : List OwaspEntry} → parse_standards stds ≡ ok es → AreServed stds es
unfolding parse_standards
parse_standards-AreServed [] h = settled h (record { served = tt; counted = refl })
parse_standards-AreServed (std ∷ stds) h = elim (Bool-cases (is_owasp std)) [
  | inr o ↦
      let rest = parse_standards-AreServed stds (rw o at h) in
      record { served = rest.served; counted = rw o rest.counted }
  | inl o ↦
      let (e, p, h') = >>=-eq-ok (read_entry std (match_standard std)) _ (rw o at h) in
      let (es, q, h'') = >>=-eq-ok (parse_standards stds) _ h' in
      let rest = parse_standards-AreServed stds q in
      settled h'' (record {
        served = (read_entry-IsServed std (match_standard std) p, rest.served);
        counted = rw o (ap suc rest.counted);
      })
]
