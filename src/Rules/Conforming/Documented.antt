-- ===== src/Rules/Conforming/Documented.antt =====
-- What `conform_page` and `conform_domain` make of evidence.
use scovant_core.Prelude.{◌≡◌, refl, true, some}
use scovant_core.Prelude.Json.{Json, object, is_object}
use scovant_core.Rules.Conform.{typed_dict, conform}
use scovant_core.Rules.Conform.Fits.{Fits, is_plain, are_plain}
use scovant_core.Rules.Conform.Reads.{conform-Fits}
use scovant_core.Rules.Conform.Keeps.{conform_fixed}
use scovant_core.Rules.Conforming.{Kind, page, domain, hints_of_kind, build}

-- the unions of the documentation are with `None` alone
plain_hints : (k : Kind) → are_plain (hints_of_kind k) ≡ true
unfolding is_plain
plain_hints page = refl
plain_hints domain = refl

-- Whatever a producer wrote, a rule gets documented evidence: the conformed copy of a dictionary fits
-- `PageEvidence`, or `DomainEvidence`, down to the entries of its lists and mappings.
pub build-Fits :
    (k : Kind) (v : Json) → is_object v ≡ true → Fits (build k v) (typed_dict (hints_of_kind k))
unfolding build conform
build-Fits k (object fs) h = conform-Fits (object fs) (typed_dict (hints_of_kind k)) refl
build-Fits k _ h = absurd cc

fitting : (k : Kind) (v : Json) → Fits v (typed_dict (hints_of_kind k)) → build k v ≡ v
unfolding build conform is_plain are_plain
fitting k (object fs) f =
    let read : conform (object fs) (typed_dict (hints_of_kind k)) ≡ some (object fs) =
      conform_fixed f (plain_hints k) in
    cc
fitting k _ f = refl

again : (k : Kind) (v : Json) → build k (build k v) ≡ build k v
unfolding build
again k (object fs) =
    unfold build in fitting k (build k (object fs)) (build-Fits k (object fs) refl)
again k _ = refl

-- Documented evidence is read as it was written, entry for entry, and what was conformed once is left
-- alone by a second pass.
pub build_stable :
    (k : Kind) (v : Json)
    → (Fits v (typed_dict (hints_of_kind k)) → build k v ≡ v) × (build k (build k v) ≡ build k v)
build_stable k v = (fitting k v, again k v)
