-- ===== src/R2/Manifest.antt =====
-- r2/manifest.py: the rules that a rating counts, validated as one list.
pub mod Owners
use Prim.Native.Char.{code}
use scovant_core.Prelude.{
  String, Bool, true, false, not, ◌&&◌, ◌||◌, Option, none, some, List, [], ◌∷◌, leb, if◌then◌else◌,
  str_eq, str_leb, contains, lookup, set_default, lower, strip, Result, ok, ◌>>◌, raise_if, ◌==◌, ℕ,
}
use scovant_core.Prelude.Sort.{sort_by}
use scovant_core.Models.{Severity}
use scovant_core.R2.Outcome.{R2Category, category_eq}

pub data RuleScope : Type 0 where
  page domain : RuleScope

pub data ScoreEffect : Type 0 where
  weighted gate diagnostic : ScoreEffect

pub data Maturity : Type 0 where
  required experimental : Maturity

abbrev pub is_weighted : ScoreEffect → Bool
is_weighted ScoreEffect.weighted = true
is_weighted _ = false

abbrev pub is_gate : ScoreEffect → Bool
is_gate ScoreEffect.gate = true
is_gate _ = false

abbrev pub is_diagnostic : ScoreEffect → Bool
is_diagnostic ScoreEffect.diagnostic = true
is_diagnostic _ = false

abbrev pub is_required : Maturity → Bool
is_required Maturity.required = true
is_required Maturity.experimental = false

abbrev pub is_page : RuleScope → Bool
is_page RuleScope.page = true
is_page RuleScope.domain = false

pub record RuleSpec : Type 0 where
  pub rule_id : String
  pub signal : String
  pub category : R2Category
  pub severity : Severity
  pub scope : RuleScope
  pub score_effect : ScoreEffect
  pub root_cause_group : String
  pub profiles : List String
  pub maturity : Maturity
  pub rule_version : String

pub data ManifestError : Type 0 where
  bad_rule_id : String → ManifestError
  empty_signal : ManifestError
  gate_without_group : String → ManifestError
  duplicate_rule_id : String → ManifestError
  signal_owned_twice : String → ManifestError
  group_spans_categories : String → ManifestError

-- The characters of `_RULE_ID_RE`: `head_char` for the first place, `tail_char` for the others.
head_char : ℕ → Bool
head_char c = leb b'A' c && leb c b'Z' || leb b'0' c && leb c b'9'

tail_char : ℕ → Bool
unfolding head_char
tail_char c = head_char c || c == b'_' || c == b'-'

-- `$` also matches before a line feed that ends the text
tail_matches : String → Bool
unfolding tail_char
tail_matches String.[] = true
tail_matches (String.◌∷◌ c s) = tail_char (code c) && tail_matches s || code c == 10 && str_eq s ""

-- `_RULE_ID_RE.match`
unfoldable pub rule_id_matches : String → Bool
unfolding tail_matches
rule_id_matches String.[] = false
rule_id_matches (String.◌∷◌ c s) = head_char (code c) && tail_matches s

-- `{p.strip().lower() for p in v if p.strip()}`, without the order of a set
normalised : List String → List String
unfolding strip lower
normalised [] = []
normalised (p ∷ ps) =
    let rest = normalised ps in
    let name = lower (strip p) in
    if str_eq (strip p) "" || contains rest name then rest else name ∷ rest

unfoldable pub profiles_sorted : List String → List String
unfolding normalised sort_by
profiles_sorted ps = sort_by str_leb (normalised ps)

-- the validators of `RuleSpec`: the value that the class keeps
unfoldable pub validate_spec : RuleSpec → Result ManifestError RuleSpec
unfolding rule_id_matches profiles_sorted strip
validate_spec s = do
  raise_if (not (rule_id_matches s.rule_id)) (bad_rule_id s.rule_id)
  raise_if (str_eq (strip s.signal) "") empty_signal
  raise_if (is_gate s.score_effect && str_eq s.root_cause_group "") (gate_without_group s.rule_id)
  ok (record s { profiles = profiles_sorted s.profiles })

pub record Manifest : Type 0 where
  pub specs : List RuleSpec
  pub applicability : Option String

-- the first loop of `Manifest.__init__`; the signals are the keys of `seen_signals`
unfoldable pub check_owners :
    List RuleSpec → List String → List String → Result ManifestError (Unit {0})
check_owners [] ids signals = ok tt
check_owners (s ∷ ss) ids signals = do
  raise_if (contains ids s.rule_id) (duplicate_rule_id s.rule_id)
  raise_if (contains signals s.signal) (signal_owned_twice s.signal)
  check_owners ss (s.rule_id ∷ ids) (s.signal ∷ signals)

-- `not (score_effect != WEIGHTED or not root_cause_group)`
abbrev pub is_merged : RuleSpec → Bool
is_merged s = is_weighted s.score_effect && not (str_eq s.root_cause_group "")

-- `first != s.category`, where `first` is the category that the group has already
abbrev pub differs : Option R2Category → R2Category → Bool
differs none c = false
differs (some first) c = not (category_eq first c)

-- the second loop, with `group_category`
unfoldable pub check_groups :
    List RuleSpec → List (String × R2Category) → Result ManifestError (Unit {0})
check_groups [] seen = ok tt
check_groups (s ∷ ss) seen =
    let skip = check_groups ss seen in
    let first = lookup s.root_cause_group seen in
    let go = do
      raise_if (differs first s.category) (group_spans_categories s.root_cause_group)
      check_groups ss (set_default s.root_cause_group s.category seen)
    in if is_merged s then go else skip

-- `Manifest.__init__`
unfoldable pub make_manifest : List RuleSpec → Option String → Result ManifestError Manifest
unfolding sort_by check_owners check_groups
make_manifest specs applicability = do
  let ordered = sort_by (λ a b. str_leb a.rule_id b.rule_id) specs
  check_owners ordered [] []
  check_groups ordered []
  ok (record { specs = ordered; applicability = applicability })

-- `s.rule_id == rule_id` for a rule of the list: the keys of `_by_id`
unfoldable pub find_spec : String → List RuleSpec → Option RuleSpec
find_spec rule_id [] = none
find_spec rule_id (s ∷ ss) = if str_eq s.rule_id rule_id then some s else find_spec rule_id ss

-- `Manifest.get`; `none` is the `KeyError`, and tells `__contains__`
unfoldable pub get : Manifest → String → Option RuleSpec
unfolding find_spec
get m rule_id = find_spec rule_id m.specs
