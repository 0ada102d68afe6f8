-- ===== src/Checks/Valid.antt =====
-- What `validate_registry` makes sure of.
use scovant_core.Prelude.{
  ◌≡◌, refl, inl, inr, true, false, not, ◌||◌, or_false, Option, none, some, List, [], ◌∷◌, map,
  All, Bool-cases, str_eq, keep, repeats, not-false, ok, raised, raised_last, >>=-eq-ok,
}
use scovant_core.Models.{Category, same_category, is_security}
use scovant_core.Checks.Base.{CoreCheck}
use scovant_core.Checks.Registry.{
  id_category, family_matches, in_category, check_each, has_family, validate_registry,
}

pub record IsValid (c : CoreCheck) : Type 0 where
  pub expected : Category
  pub id : id_category c.id ≡ some expected
  pub category : same_category c.category expected ≡ true
  pub family : is_security c.category ≡ true → family_matches c.family_id ≡ true
  pub domain : is_security c.category ≡ true → str_eq c.security_domain "" ≡ false
  pub owner : is_security c.category ≡ true → str_eq c.fix_owner "" ≡ false
  pub reserved : is_security c.category ≡ false → str_eq c.family_id "" ≡ true

in_category-IsValid :
    (c : CoreCheck) (o : Option Category)
    → id_category c.id ≡ o
    → in_category c o ≡ ok tt
    → IsValid c
in_category-IsValid c none q h = absurd cc
in_category-IsValid c (some expected) q h =
    let (same, h') = raised (not (same_category c.category expected)) _ h in
    elim (Bool-cases (is_security c.category)) [
      | inl s ↦
          let (family, h'') = raised (not (family_matches c.family_id)) _ (rw s at h') in
          let fields = raised_last (str_eq c.security_domain "" || str_eq c.fix_owner "") _ h'' in
          let (domain, owner) = or_false _ _ fields in
          record {
            expected = expected;
            id = q;
            category = not-false _ same;
            family = λ _. not-false _ family;
            domain = λ _. domain;
            owner = λ _. owner;
            reserved = λ t. absurd cc;
          }
      | inr s ↦ record {
        expected = expected;
        id = q;
        category = not-false _ same;
        family = λ t. absurd cc;
        domain = λ t. absurd cc;
        owner = λ t. absurd cc;
        reserved = λ _. not-false _ (raised_last (not (str_eq c.family_id "")) _ (rw s at h'));
      }
    ]

check_each-IsValid : (cs : List CoreCheck) → check_each cs ≡ ok tt → All IsValid cs
unfolding check_each
check_each-IsValid [] h = tt
check_each-IsValid (c ∷ cs) h =
    let (u, p, h') = >>=-eq-ok (in_category c (id_category c.id)) _ h in
    (in_category-IsValid c _ refl p, check_each-IsValid cs h')

pub record IsRegistry (checks : List CoreCheck) : Type 0 where
  pub ids_once : repeats (map (λ c. c.id) checks) ≡ false
  pub each : All IsValid checks
  pub families_once : repeats (map (λ c. c.family_id) (keep has_family checks)) ≡ false

-- A registry that `validate_registry` accepts: no id stands twice, and no family id of those that are
-- given; each id is of the form CORE-<area>-<three digits> of the check's own category; a security
-- check has a family id of a known family, a domain and an owner, and another check has no family id.
pub validate_registry-IsRegistry :
    (checks : List CoreCheck) → validate_registry checks ≡ ok tt → IsRegistry checks
unfolding validate_registry
validate_registry-IsRegistry checks h =
    let (ids, h') = raised (repeats (map (λ c. c.id) checks)) _ h in
    let (u, p, h'') = >>=-eq-ok (check_each checks) _ h' in
    record {
      ids_once = ids;
      each = check_each-IsValid checks p;
      families_once = raised_last (repeats (map (λ c. c.family_id) (keep has_family checks))) _ h'';
    }
