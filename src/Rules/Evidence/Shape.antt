-- ===== src/Rules/Evidence/Shape.antt =====
-- rules/evidence.py: a documented dictionary by its keys, and how a request ended.
use scovant_core.Prelude.{String, List, [], ◌∷◌}
use scovant_core.Rules.Conform.{Annotation, literal, Hints, no_hint, hint}

abbrev pub hints_of : List (String × Annotation) → Hints
hints_of [] = no_hint
hints_of ((k, a) ∷ rest) = hint k a (hints_of rest)

abbrev pub fetch_status : Annotation
fetch_status = literal ("ok" ∷ "error" ∷ "not_attempted" ∷ [])
