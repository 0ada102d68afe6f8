-- ===== src/R2/Score/Gates.antt =====
-- r2/score.py, the second stage: the gates that fired.
use scovant_core.Prelude.{
  ℕ, String, Bool, ◌&&◌, Option, none, some, List, [], ◌∷◌, ◌++◌, any, if◌then◌else◌, str_eq,
}
use scovant_core.R2.Outcome.{is_fail}
use scovant_core.R2.Policy.{ScoringPolicy, Gate, GateEffect, gate_for}
use scovant_core.R2.Manifest.{is_gate}
use scovant_core.R2.Score.Rows.{Row}

pub record GateHit : Type 0 where
  pub root_cause_group : String
  pub effect : GateEffect
  pub cap : Option ℕ
  pub rule_id : String

abbrev pub hits_group : String → List GateHit → Bool
hits_group group hits = any (λ h. str_eq h.root_cause_group group) hits

-- a failing gate rule whose group the policy defines, unless the group has a hit
unfoldable pub add_hit : Row → Option Gate → List GateHit → List GateHit
add_hit r none hits = hits
add_hit r (some g) hits =
    if hits_group g.root_cause_group hits
    then hits
    else hits
      ++ record {
        root_cause_group = g.root_cause_group;
        effect = g.effect;
        cap = g.cap;
        rule_id = r.spec.rule_id;
      }
        ∷ []

module _ {F : Type 0} (policy : ScoringPolicy F) where
  abbrev pub fires : Row → Bool
  fires r = is_gate r.spec.score_effect && is_fail r.outcome.state

  unfoldable pub fired_gates : List GateHit → List Row → List GateHit
  unfolding add_hit gate_for
  fired_gates hits [] = hits
  fired_gates hits (r ∷ rows) =
      fired_gates
        (if fires r then add_hit r (gate_for policy r.spec.root_cause_group) hits else hits) rows
