-- ===== src/Capabilities/Gating.antt =====
-- capabilities.py: which rules `gate` lets through, and what more pages can change.
use scovant_core.Prelude.{
  String, ◌≡◌, refl, sym, ◌∙◌, ap, ◌↔◌, inl, inr, Bool, true, false, ◌&&◌, ◌||◌, Option, none, some,
  List, [], ◌∷◌, ◌++◌, any, lookup, Bool-cases, All, All-append, Result, ok,
}
use scovant_core.Prelude.Json.{Json}
use scovant_core.Rules.Python.{PyError}
use scovant_core.Capabilities.{
  Flag, code_flags, Capabilities, is_read, derive_capabilities, gate, gated, gate_value, flag_of,
}
use scovant_core.Capabilities.Derived.{
  page_reads, AreReadable, shows, is_established, derive_capabilities-AreDerived,
}

gate_value-none : (flag : Flag) (v : Option Bool) → (gate_value flag v ≡ none) ↔ (v ≡ some true)
gate_value-none flag none = (λ h. absurd cc, λ h. absurd cc)
gate_value-none flag (some true) = (λ _. refl, λ _. refl)
gate_value-none flag (some false) = (λ h. absurd cc, λ h. absurd cc)

gate-value :
    (code : String) (flag : Flag) (caps : Capabilities)
    → lookup code code_flags ≡ some flag
    → (gate code (some caps) ≡ none) ↔ ((flag_of caps flag).value ≡ some true)
unfolding gate
gate-value code flag caps q =
    let here = ap (gated caps) q in
    let v = gate_value-none flag (flag_of caps flag).value in
    (λ h. v.0 (sym here ∙ h), λ h. here ∙ v.1 h)

-- On evidence whose blocks can be read, `derive_capabilities` returns, and a rule that waits for a
-- capability is then measured exactly if the flag is established: some page that is no wall shows it
-- (an offer or a price, or for a site that is no SaaS a button that buys; shipping or returns in its
-- structured data), the domain does (a checkout by UCP, or another agent payment), or the site type
-- sets it.
pub gate-derive_capabilities :
    (show : Json → String) (code : String) (flag : Flag) (site_type : String) (pages : List Json)
    (domain : Json)
    → lookup code code_flags ≡ some flag
    → AreReadable pages domain
    → (caps : Capabilities) × (derive_capabilities show site_type pages domain ≡ ok caps)
      × ((gate code (some caps) ≡ none) ↔ (is_established site_type pages domain flag ≡ true))
gate-derive_capabilities show code flag site_type pages domain q h =
    let d = derive_capabilities-AreDerived show site_type pages domain h in
    let v = gate-value code flag d.caps q in
    let e = d.true_if flag in (d.caps, d.derived, (λ x. e.0 (v.0 x), λ x. v.1 (e.1 x)))

any-append : (f : Json → Bool) (xs ys : List Json) → any f xs ≡ true → any f (xs ++ ys) ≡ true
any-append f [] ys h = absurd cc
any-append f (x ∷ xs) ys h = elim (Bool-cases (f x)) [
  | inl e ↦ rw e refl
  | inr e ↦ rw e (any-append f xs ys (rw e at h))
]

more_true : (a b c d : Bool) → (a || c || d) ≡ true → (a ≡ true → b ≡ true) → (b || c || d) ≡ true
more_true true b c d h k = rw (k refl) refl
more_true false true c d h k = refl
more_true false false c d h k = h

is_established_grows :
    (site_type : String) (pages more : List Json) (domain : Json) (flag : Flag)
    → is_established site_type pages domain flag ≡ true
    → is_established site_type (pages ++ more) domain flag ≡ true
unfolding is_established
is_established_grows site_type pages more domain flag h =
    more_true _ _ _ _ h (any-append (λ p. is_read p && shows site_type flag p) pages more)

same_caps :
    (run : Result PyError Capabilities) {a b : Capabilities} → run ≡ ok a → run ≡ ok b → a ≡ b
same_caps run p q = cc

-- More pages never take a rule out of the measured ones: if the blocks of the evidence can be read, and a
-- rule that waits for a capability is let through on the capabilities derived from some pages, then
-- capabilities are derived from these and further pages, and it is let through on them.
pub gate_grows :
    (show : Json → String) (code : String) (flag : Flag) (site_type : String)
    (pages more : List Json) (domain : Json) {caps : Capabilities}
    → lookup code code_flags ≡ some flag
    → AreReadable pages domain
    → All (λ p. page_reads p ≡ true) more
    → derive_capabilities show site_type pages domain ≡ ok caps
    → gate code (some caps) ≡ none
    → (later : Capabilities) × (derive_capabilities show site_type (pages ++ more) domain
        ≡ ok later)
      × (gate code (some later) ≡ none)
gate_grows show code flag site_type pages more domain {caps} q h k r g =
    let (first, p, (through, _)) =
      gate-derive_capabilities show code flag site_type pages domain q h in
    let let_in = through (ap (λ c. gate code (some c)) (same_caps _ p r) ∙ g) in
    let both : AreReadable (pages ++ more) domain = record {
      pages_read = All-append (λ p. page_reads p ≡ true) pages more h.pages_read k;
      domain_read = h.domain_read;
    } in
    let (later, s, (_, back)) =
      gate-derive_capabilities show code flag site_type (pages ++ more) domain q both in
    (later, s, back (is_established_grows site_type pages more domain flag let_in))
