-- ===== src/Rules/RobotsPolicy/Raises.antt =====
-- When the rule AI_CRAWLER_BLOCKED raises.
use scovant_core.Prelude.{
  String, ◌≡◌, refl, ◌∙◌, ap, ◌⊎◌, inl, inr, Bool, true, false, not, ◌&&◌, List, [], ◌∷◌, all,
  if◌then◌else◌, Bool-cases, Result, ok, err, is_ok, ◌>>=◌,
}
use scovant_core.Prelude.Json
use scovant_core.Prelude.Json.{
  Json, Fields, null, bool, number, text, array, object, end, item, no_more, field, find_field,
  has_field, truthy, is_object, is_array,
}
use scovant_core.Rules.Conform.{conform_mapping}
use scovant_core.Rules.Conform.Fits.{Fits, Hinted}
use scovant_core.Rules.Conform.Field.{field-Fits, mapping_shape, fits_block}
use scovant_core.Rules.Evidence.{robots_evidence, domain_evidence}
use scovant_core.Rules.Conforming.{Kind, build, conformed_domain}
use scovant_core.Rules.Conforming.Documented.{build-Fits}
use scovant_core.Rules.Python.{
  PyError, get_default, or_value, is_in, keep_in, then_ok, find_missing,
}
use scovant_core.Rules.RobotsPolicy.{ai_crawlers, blocks, blocked_finding, blocked_in, evaluate}

-- a group that the rule can read: nothing, or a dictionary whose `disallow` can be searched
abbrev pub searchable : Json → Bool
searchable (array xs) = true
searchable (text s) = true
searchable (object fs) = true
searchable _ = false

abbrev pub readable_group : Fields → Bool
readable_group fs = if has_field "disallow" fs then searchable (find_field "disallow" fs) else true

abbrev pub readable : Json → Bool
readable (object fs) = readable_group fs
readable g = not (truthy g)

is_in-is_ok : (s : String) (v : Json) → is_ok (is_in s v) ≡ searchable v
is_in-is_ok s (array xs) = refl
is_in-is_ok s (text t) = refl
is_in-is_ok s (object fs) = refl
is_in-is_ok s null = refl
is_in-is_ok s (bool b) = refl
is_in-is_ok s (number n) = refl

disallow_of : Fields → Result PyError Bool
disallow_of fs = do disallow ← get_default "disallow" (array end) (object fs); is_in "/" disallow

disallow_of-is_ok : (fs : Fields) → is_ok (disallow_of fs) ≡ readable_group fs
unfolding disallow_of
disallow_of-is_ok fs = elim (Bool-cases (has_field "disallow" fs)) [
  | inl e ↦ rw e (is_in-is_ok "/" (find_field "disallow" fs))
  | inr e ↦ rw e refl
]

group_of : Json → Result PyError Bool
group_of group = do
  disallow ← get_default "disallow" (array end) (or_value (object no_more) group)
  is_in "/" disallow

-- a value that is no dictionary: the rule goes on only if it is falsy
plain_group :
    (b : Bool) (g : Json)
    → is_ok (do disallow ← get_default "disallow" (array end) g; is_in "/" disallow) ≡ false
    → is_ok (do
      disallow ← get_default "disallow" (array end) (if b then g else object no_more)
      is_in "/" disallow)
      ≡ not b
plain_group true g h = h
plain_group false g h = refl

group_of-is_ok : (g : Json) → is_ok (group_of g) ≡ readable g
unfolding group_of disallow_of
group_of-is_ok null = refl
group_of-is_ok (bool b) = plain_group b (bool b) refl
group_of-is_ok (number n) = plain_group (truthy (number n)) (number n) refl
group_of-is_ok (text s) = plain_group (truthy (text s)) (text s) refl
group_of-is_ok (array end) = refl
group_of-is_ok (array (item x xs)) = refl
group_of-is_ok (object no_more) = refl
group_of-is_ok (object (field k v fs)) = disallow_of-is_ok (field k v fs)

blocks-is_ok :
    (fs : Fields) (agent : String)
    → is_ok (blocks (object fs) agent) ≡ readable (find_field agent fs)
unfolding blocks group_of
blocks-is_ok fs agent =
    ap (λ g. is_ok (group_of g)) (find_missing agent fs) ∙ group_of-is_ok (find_field agent fs)

step :
    {A : Type 0} (x : A) (r : Result PyError Bool) (rest : Result PyError (List A)) {b c : Bool}
    → is_ok r ≡ b
    → is_ok rest ≡ c
    → is_ok (do yes_x ← r; kept ← rest; ok (if yes_x then x ∷ kept else kept)) ≡ (b && c)
step x (err e) rest h k = rw (← h) refl
step x (ok y) (err e) h k = rw (← h, ← k) refl
step x (ok y) (ok xs) h k = rw (← h, ← k) refl

keep_in-is_ok :
    {A : Type 0} (p : A → Result PyError Bool) (q : A → Bool)
    → ((x : A) → is_ok (p x) ≡ q x)
    → (xs : List A) → is_ok (keep_in p xs) ≡ all q xs
unfolding keep_in
keep_in-is_ok p q h [] = refl
keep_in-is_ok p q h (x ∷ xs) = step x (p x) (keep_in p xs) (h x) (keep_in-is_ok p q h xs)

pub or_object : (rs : Fields) → or_value (object no_more) (object rs) ≡ object rs
or_object no_more = refl
or_object (field k v rs) = refl

abbrev readable_in : Json → Bool
readable_in robots = all (λ a. readable (Json.get a robots)) ai_crawlers

blocked-is_ok :
    (robots : Json) (rs : Fields)
    → or_value (object no_more) robots ≡ object rs
    → is_ok (keep_in (blocks (or_value (object no_more) robots)) ai_crawlers)
      ≡ readable_in (object rs)
blocked-is_ok robots rs e = rw e (
    keep_in-is_ok (blocks (object rs)) (λ a. readable (find_field a rs)) (blocks-is_ok rs)
      ai_crawlers)

robots_shape :
    (robots : Json)
    → (robots ≡ null) ⊎ Fits robots robots_evidence
    → is_ok (keep_in (blocks (or_value (object no_more) robots)) ai_crawlers) ≡ readable_in robots
robots_shape robots (inl e) = rw e (blocked-is_ok null no_more refl)
robots_shape robots (inr f) = elim (mapping_shape f) [
  | inl e ↦ rw e (blocked-is_ok null no_more refl)
  | inr (rs, e) ↦ rw e (blocked-is_ok (object rs) rs (or_object rs))
]

in_block :
    (gs : Fields)
    → Hinted gs domain_evidence
    → is_ok (blocked_in (object gs)) ≡ readable_in (find_field "robots" gs)
unfolding blocked_in
in_block gs h =
    let robots = find_field "robots" gs in
    rw (find_missing "robots" gs) (
      then_ok (keep_in (blocks (or_value (object no_more) robots)) ai_crawlers) blocked_finding
      ∙ robots_shape robots (field-Fits "robots" gs domain_evidence h refl))

in_domain :
    (page : Json) (gs : Fields)
    → Hinted gs domain_evidence
    → is_ok (evaluate page (object gs)) ≡ readable_in (find_field "robots" gs)
unfolding evaluate
in_domain page no_more h = refl
in_domain page (field k v gs) h = in_block (field k v gs) h

-- On documented evidence, the rule AI_CRAWLER_BLOCKED raises exactly if the robots block has, for one of
-- the crawlers, a group that is neither falsy nor a dictionary, or a dictionary whose `disallow` is
-- `None`, a flag or a number: the documentation lets any value stand in the robots block.
pub evaluate-is_ok :
    (page v : Json)
    → is_ok (evaluate page (conformed_domain v))
      ≡ all (λ a. readable (Json.get a (Json.get "robots" (conformed_domain v)))) ai_crawlers
unfolding evaluate build
evaluate-is_ok page (object fs) =
    unfold build in
    in_domain page (conform_mapping fs domain_evidence)
      (fits_block (build-Fits Kind.domain (object fs) refl))
evaluate-is_ok page null = refl
evaluate-is_ok page (bool b) = refl
evaluate-is_ok page _ = refl
