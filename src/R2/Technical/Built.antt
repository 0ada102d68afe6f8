-- ===== src/R2/Technical/Built.antt =====
-- The manifest of the registered rules can be made, and knows each of them.
use scovant_core.Prelude.{
  String, ◌≡◌, refl, ◌∙◌, inl, inr, Bool, true, false, Option, some, List, [], ◌∷◌, ◌++◌, map, All,
  Bool-cases, or_false, str_eq, str_leb, strip, contains, repeats, concat, drop_prefix, ok,
}
use scovant_core.Prelude.Sort.{sort_by}
use scovant_core.Prelude.Sort.Kept.{All-sort_by, sort_by-All, repeats-sort_by, str_eq_comm}
use scovant_core.Prelude.Text.Blank.{is_white, strip-eq}
use scovant_core.Prelude.Text.Prefix.{is_white-concat, str_eq-concat, str_eq-without}
use scovant_core.Rules.{CoreRule}
use scovant_core.Rules.Products.{profile_policy_id}
use scovant_core.R2.Manifest
use scovant_core.R2.Manifest.{
  RuleSpec, Manifest, rule_id_matches, profiles_sorted, is_gate, is_merged, validate_spec,
  check_owners, check_groups, make_manifest,
}
use scovant_core.R2.Manifest.Owners.{make_manifest-IsOwned}
use scovant_core.R2.Technical.{marker_codes, gate_robots, gate_robots_spec}
use scovant_core.R2.Technical.Specs.{
  spec_of, scope_of, rule_spec, rule_specs, counted_rules, technical_manifest,
}

-- the entry of a rule
abbrev pub core_spec : CoreRule → RuleSpec
core_spec r = spec_of r "core" (scope_of r) (contains marker_codes r.code)

abbrev pub IsNamed : CoreRule → Type 0
IsNamed r = rule_id_matches r.code ≡ true

abbrev code_of : CoreRule → String
code_of r = r.code

not_gate :
    (r : CoreRule) (owner : String) (marker : Bool)
    → is_gate (spec_of r owner (scope_of r) marker).score_effect ≡ false
not_gate r owner true = refl
not_gate r owner false = refl

not_merged : (r : CoreRule) → is_merged (core_spec r) ≡ false
not_merged r = elim (Bool-cases (contains marker_codes r.code)) [
  | inl e ↦ rw e refl
  | inr e ↦ rw e refl
]

signal_not_blank : (s : String) → str_eq (strip (concat "core" s)) "" ≡ false
unfolding is_white
signal_not_blank s = strip-eq (concat "core" s) ∙ is_white-concat "core" s

rule_spec-core :
    (r : CoreRule)
    → IsNamed r
    → rule_spec r "core" (scope_of r) (contains marker_codes r.code) ≡ ok (core_spec r)
unfolding rule_spec validate_spec profiles_sorted
rule_spec-core r named =
    rw
      (
        named,
        signal_not_blank (concat ":" r.code),
        not_gate r "core" (contains marker_codes r.code),
      )
      refl

rule_specs-map : (rs : List CoreRule) → All IsNamed rs → rule_specs rs ≡ ok (map core_spec rs)
unfolding rule_specs
rule_specs-map [] h = refl
rule_specs-map (r ∷ rs) h = rw (rule_spec-core r h.0, rule_specs-map rs h.1) refl

fresh :
    (f : RuleSpec → String) (x : String) (ids : List String) (ss : List RuleSpec)
    → contains (map f ss) x ≡ false
    → All (λ s. contains ids (f s) ≡ false) ss
    → All (λ s. contains (x ∷ ids) (f s) ≡ false) ss
fresh f x ids [] p h = tt
fresh f x ids (s ∷ ss) p h =
    let (apart, later) = or_false (str_eq (f s) x) (contains (map f ss) x) p in
    (rw (str_eq_comm x (f s), apart) h.0, fresh f x ids ss later h.1)

-- the loop over the owners takes a list in which nothing stands twice
check_owners-ok :
    (ss : List RuleSpec) (ids signals : List String)
    → All (λ s. contains ids s.rule_id ≡ false) ss
    → All (λ s. contains signals s.signal ≡ false) ss
    → repeats (map (λ s. s.rule_id) ss) ≡ false
    → repeats (map (λ s. s.signal) ss) ≡ false
    → check_owners ss ids signals ≡ ok tt
unfolding check_owners
check_owners-ok [] ids signals i s p q = refl
check_owners-ok (t ∷ ts) ids signals i s p q =
    let (id_once, ids_once) = or_false _ _ p in
    let (signal_once, signals_once) = or_false _ _ q in
    let rest =
      check_owners-ok ts (t.rule_id ∷ ids) (t.signal ∷ signals)
        (fresh (λ s. s.rule_id) t.rule_id ids ts id_once i.1)
        (fresh (λ s. s.signal) t.signal signals ts signal_once s.1) ids_once signals_once in
    rw (i.0, s.0) rest

check_groups-ok :
    (ss : List RuleSpec) → All (λ s. is_merged s ≡ false) ss → check_groups ss [] ≡ ok tt
unfolding check_groups
check_groups-ok [] h = refl
check_groups-ok (s ∷ ss) h = rw (h.0) (check_groups-ok ss h.1)

-- the entries of the manifest before they are sorted
abbrev entries : List CoreRule → List RuleSpec
entries rs = map core_spec rs ++ gate_robots_spec ∷ []

module _ (f : RuleSpec → String)
    (alike : (r q : CoreRule)
      → str_eq (f (core_spec r)) (f (core_spec q)) ≡ str_eq r.code q.code) where
  contains-entries :
      (r : CoreRule) (rs : List CoreRule)
      → str_eq (f gate_robots_spec) (f (core_spec r)) ≡ false
      → contains (map f (entries rs)) (f (core_spec r)) ≡ contains (map code_of rs) r.code
  contains-entries r [] h = rw h refl
  contains-entries r (q ∷ rs) h = rw (alike q r, contains-entries r rs h) refl

  repeats-entries :
      (rs : List CoreRule)
      → All (λ r. str_eq (f gate_robots_spec) (f (core_spec r)) ≡ false) rs
      → repeats (map code_of rs) ≡ false
      → repeats (map f (entries rs)) ≡ false
  repeats-entries [] h once = refl
  repeats-entries (r ∷ rs) h once =
      let (new, rest) =
        or_false (contains (map code_of rs) r.code) (repeats (map code_of rs)) once in
      rw (contains-entries r rs h.0, new, repeats-entries rs h.1 rest) refl

signals_alike :
    (r q : CoreRule) → str_eq (core_spec r).signal (core_spec q).signal ≡ str_eq r.code q.code
signals_alike r q =
    str_eq-concat "core" (concat ":" r.code) (concat ":" q.code) ∙ str_eq-concat ":" r.code q.code

gate_signal : (r : CoreRule) → str_eq gate_robots_spec.signal (core_spec r).signal ≡ false
unfolding drop_prefix
gate_signal r = str_eq-without "core" (concat ":" r.code) gate_robots_spec.signal refl

-- the codes are texts of the form that the class wants, each once, and none is the gate's
pub record AreNamed (rs : List CoreRule) : Type 0 where
  pub named : All IsNamed rs
  pub once : repeats (map (λ r. r.code) rs) ≡ false
  pub apart : All (λ r. str_eq gate_robots r.code ≡ false) rs

-- the manifest knows the rules, and each entry of it is theirs or the gate's
pub record Knows (rs : List CoreRule) (m : Manifest) : Type 0 where
  pub rules : All (λ r. Manifest.get m r.code ≡ some (core_spec r)) rs
  pub robots : Manifest.get m gate_robots ≡ some gate_robots_spec
  pub each : All (λ s. Manifest.get m s.rule_id ≡ some s) m.specs

All-map :
    (P : RuleSpec → Type 0) (rs : List CoreRule)
    → All P (entries rs)
    → All (λ r. P (core_spec r)) rs × P gate_robots_spec
All-map P [] h = (tt, h.0)
All-map P (r ∷ rs) h = let (rest, last) = All-map P rs h.1 in ((h.0, rest), last)

entries-not_merged : (rs : List CoreRule) → All (λ s. is_merged s ≡ false) (entries rs)
entries-not_merged [] = (refl, tt)
entries-not_merged (r ∷ rs) = (not_merged r, entries-not_merged rs)

all_new : (f : RuleSpec → String) (ss : List RuleSpec) → All (λ s. contains [] (f s) ≡ false) ss
all_new f [] = tt
all_new f (s ∷ ss) = (refl, all_new f ss)

abbrev by_id : RuleSpec → RuleSpec → Bool
by_id a b = str_leb a.rule_id b.rule_id

each_signal :
    (rs : List CoreRule) → All (λ r. str_eq gate_robots_spec.signal (core_spec r).signal ≡ false) rs
each_signal [] = tt
each_signal (r ∷ rs) = (gate_signal r, each_signal rs)

make_manifest-ok :
    (rs : List CoreRule) (applicability : Option String)
    → AreNamed rs
    → make_manifest (entries rs) applicability
      ≡ ok (record { specs = sort_by by_id (entries rs); applicability = applicability })
unfolding make_manifest
make_manifest-ok rs applicability h =
    let ordered = sort_by by_id (entries rs) in
    let owned =
      check_owners-ok ordered [] [] (all_new (λ s. s.rule_id) ordered)
        (all_new (λ s. s.signal) ordered)
        (repeats-sort_by by_id (λ s. s.rule_id) (entries rs)
          ∙ repeats-entries (λ s. s.rule_id) (λ r q. refl) rs h.apart h.once)
        (repeats-sort_by by_id (λ s. s.signal) (entries rs)
          ∙ repeats-entries (λ s. s.signal) signals_alike rs (each_signal rs) h.once) in
    let grouped =
      check_groups-ok ordered
        (All-sort_by by_id (λ s. is_merged s ≡ false) (entries rs) (entries-not_merged rs)) in
    rw (owned, grouped) refl

-- The manifest of rules whose codes fit can be made, and knows each of them and the gate.
pub technical_manifest-Knows :
    (rules : List CoreRule)
    → AreNamed (counted_rules rules)
    → (m : Manifest) × (technical_manifest rules ≡ ok m) × Knows (counted_rules rules) m
unfolding technical_manifest
technical_manifest-Knows rules h =
    let rs = counted_rules rules in
    let m : Manifest = record {
      specs = sort_by by_id (entries rs);
      applicability = some profile_policy_id;
    } in
    let made = make_manifest-ok rs (some profile_policy_id) h in
    let owned = make_manifest-IsOwned (entries rs) (some profile_policy_id) made in
    let (known, robots) =
      All-map (λ s. Manifest.get m s.rule_id ≡ some s) rs
        (sort_by-All by_id (λ s. Manifest.get m s.rule_id ≡ some s) (entries rs) owned.found) in
    (
      m,
      rw (rule_specs-map rs h.named) made,
      record { rules = known; robots = robots; each = owned.found },
    )
