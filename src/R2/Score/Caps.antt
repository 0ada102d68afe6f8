-- ===== src/R2/Score/Caps.antt =====
-- The caps of the fired gates, and what it takes for one list of hits to be no harder than another.
use scovant_core.Prelude.{
  ℕ, ◌≡◌, refl, ◌≤◌, ◌⊎◌, inl, inr, true, List, [], ◌∷◌, ◌++◌, All, Bool-cases, arith,
}
use scovant_core.R2.Policy.{is_badge_block}
use scovant_core.R2.Score.Gates.{GateHit}
use scovant_core.R2.Score.Rating.{capped_by, apply_caps, blocks_badge}

-- the same gate, whichever rule set it off
pub record SameGate (h k : GateHit) : Type 0 where
  pub group : h.root_cause_group ≡ k.root_cause_group
  pub effect : h.effect ≡ k.effect
  pub cap : h.cap ≡ k.cap

abbrev pub Has : GateHit → List GateHit → Type 0
Has k [] = ⊥
Has k (h ∷ hits) = SameGate h k ⊎ Has k hits

-- every gate of `hits'` is one of `hits`
abbrev pub Covered : List GateHit → List GateHit → Type 0
Covered hits hits' = All (λ k. Has k hits) hits'

pub Has-append : (k : GateHit) (hits more : List GateHit) → Has k hits → Has k (hits ++ more)
Has-append k [] more h = absurd h
Has-append k (x ∷ hits) more (inl s) = inl s
Has-append k (x ∷ hits) more (inr h) = inr (Has-append k hits more h)

pub Has-last : (x k : GateHit) (hits : List GateHit) → SameGate x k → Has k (hits ++ x ∷ [])
Has-last x k [] s = inl s
Has-last x k (y ∷ hits) s = inr (Has-last x k hits s)

pub Covered-append :
    (hits more hits' : List GateHit) → Covered hits hits' → Covered (hits ++ more) hits'
Covered-append hits more [] h = tt
Covered-append hits more (k ∷ hits') h =
    (Has-append k hits more h.0, Covered-append hits more hits' h.1)

pub All-last {ℓ} :
    {A : Type ℓ} (P : A → Type 0) (x : A) (xs : List A) → All P xs → P x → All P (xs ++ x ∷ [])
All-last P x [] h p = (p, tt)
All-last P x (y ∷ xs) h p = (h.0, All-last P x xs h.1 p)

capped_by-le : (h : GateHit) (n : ℕ) → capped_by h n ≤ n
capped_by-le h n = ground arith

capped_by_mono : (h : GateHit) (n m : ℕ) → n ≤ m → capped_by h n ≤ capped_by h m
capped_by_mono h n m le = ground arith

pub apply_caps-le : (n : ℕ) (hits : List GateHit) → apply_caps n hits ≤ n
unfolding apply_caps
apply_caps-le n [] = omega arith
apply_caps-le n (h ∷ hits) = omega (arith, apply_caps-le (capped_by h n) hits, capped_by-le h n)

-- a rating that a hit's cap does not lower any further
capped_settled : (h k : GateHit) (n r : ℕ) → SameGate h k → r ≤ capped_by h n → capped_by k r ≡ r
capped_settled h k n r s le = rw (← s.effect, ← s.cap) (ground arith)

-- After the caps no gate that was applied lowers the rating any further.
pub capped_by-apply_caps :
    (k : GateHit) (n : ℕ) (hits : List GateHit)
    → Has k hits
    → capped_by k (apply_caps n hits) ≡ apply_caps n hits
unfolding apply_caps
capped_by-apply_caps k n [] h = absurd h
capped_by-apply_caps k n (x ∷ hits) (inl s) =
    capped_settled x k n (apply_caps (capped_by x n) hits) s (apply_caps-le (capped_by x n) hits)
capped_by-apply_caps k n (x ∷ hits) (inr h) = capped_by-apply_caps k (capped_by x n) hits h

-- A number that no cap of the list lowers stays below the result.
le-apply_caps :
    (r n : ℕ) (hits : List GateHit)
    → r ≤ n
    → All (λ k. capped_by k r ≡ r) hits
    → r ≤ apply_caps n hits
unfolding apply_caps
le-apply_caps r n [] le h = le
le-apply_caps r n (k ∷ hits) le h =
    le-apply_caps r (capped_by k n) hits (omega (arith, capped_by_mono k r n le, h.0)) h.1

pub settled_all :
    (n : ℕ) (hits hits' : List GateHit)
    → Covered hits hits'
    → All (λ k. capped_by k (apply_caps n hits) ≡ apply_caps n hits) hits'
settled_all n hits [] h = tt
settled_all n hits (k ∷ hits') h = (capped_by-apply_caps k n hits h.0, settled_all n hits hits' h.1)

-- Fewer gates and a higher start give no lower a rating.
pub apply_caps_mono :
    (n m : ℕ) (hits hits' : List GateHit)
    → n ≤ m
    → Covered hits hits'
    → apply_caps n hits ≤ apply_caps m hits'
apply_caps_mono n m hits hits' le h =
    le-apply_caps (apply_caps n hits) m hits' (omega (arith, apply_caps-le n hits))
      (settled_all n hits hits' h)

blocks_one :
    (k : GateHit) (hits : List GateHit)
    → Has k hits
    → is_badge_block k.effect ≡ true
    → blocks_badge hits ≡ true
blocks_one k [] h b = absurd h
blocks_one k (x ∷ hits) (inl s) b = ground (arith, s.effect)
blocks_one k (x ∷ hits) (inr h) b = ground (arith, blocks_one k hits h b)

pub blocks_badge-Covered :
    (hits hits' : List GateHit)
    → Covered hits hits'
    → blocks_badge hits' ≡ true
    → blocks_badge hits ≡ true
blocks_badge-Covered hits [] h b = cc
blocks_badge-Covered hits (k ∷ hits') h b = elim (Bool-cases (is_badge_block k.effect)) [
  | inl e ↦ blocks_one k hits h.0 e
  | inr e ↦ blocks_badge-Covered hits hits' h.1 (ground arith)
]

Covered-cons : (x : GateHit) (hits xs : List GateHit) → Covered hits xs → Covered (x ∷ hits) xs
Covered-cons x hits [] c = tt
Covered-cons x hits (y ∷ xs) c = (inr c.0, Covered-cons x hits xs c.1)

pub Covered-refl : (hits : List GateHit) → Covered hits hits
Covered-refl [] = tt
Covered-refl (x ∷ hits) = (
  inl (record { group = refl; effect = refl; cap = refl }),
  Covered-cons x hits hits (Covered-refl hits),
)
