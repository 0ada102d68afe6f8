-- ===== src/Security/Fetch.antt =====
-- What holds of every fetch: it ends, within its limits, with an empty cookie jar.
use mathlib.Core.Path.{subst}
use scovant_core.Prelude.{
  ℕ, suc, ◌+◌, ◌-◌, ◌≤◌, ◌<◌, String, ◌≡◌, refl, sym, ◌∙◌, ap, inl, inr, Bool, false, Option, none,
  some, List, [], ◌∷◌, ◌++◌, length, length-append, ltb, Bool-cases, Option-cases, Result, ok, err,
  arith,
}
use scovant_core.Security.Policy.{SecurityPolicy, limit_for}
use scovant_core.Security.UrlSafety.{Library}
use scovant_core.Security.Client.{
  FetchKind, FetchError, out_of_fuel, Response, State, FetchResult, is_redirect, take, Body, Turn,
  ended, again, carry_on, read_chunks, precheck, guard_hook, finish, respond, answered, guarded,
  prechecked, turn, hops, bad_header, fetch_within, fetch,
}

length-take : (n : ℕ) (xs : List ℕ) → n ≤ length xs → length (take n xs) ≡ n
length-take ℕ.zero xs h = refl
length-take (ℕ.suc n) [] h = absurd (omega (arith, h))
length-take (ℕ.suc n) (x ∷ xs) h = ap suc (length-take n xs (omega (arith, h)))

abbrev pub IsCapped : ℕ → Option Body → Type 0
IsCapped limit none = Unit
IsCapped limit (some b) = (length b.bytes ≡ b.total) × (b.total ≤ limit)

module _ (late : ℕ → Bool) where
  read_chunks-IsCapped :
      (limit n : ℕ) (got : List ℕ) (total : ℕ) (cs : List (List ℕ))
      → length got ≡ total
      → total ≤ limit
      → IsCapped limit (read_chunks late limit n got total cs).body
  unfolding read_chunks
  read_chunks-IsCapped limit n got total [] e le = (e, le)
  read_chunks-IsCapped limit n got total (c ∷ cs) e le = elim (Bool-cases (late n)) [
    | inl l ↦ rw l tt
    | inr l ↦ elim (Bool-cases (ltb limit (total + length c))) [
      | inl b ↦
          let part : limit - total ≤ length c = ground arith in
          let cut = length-take (limit - total) c part in
          rw (l, b)
            (omega (arith, length-append got (take (limit - total) c), cut, e, le), omega arith)
      | inr b ↦
          let fits : total + length c ≤ limit = ground arith in
          rw (l, b)
            (read_chunks-IsCapped limit (suc n) (got ++ c) (total + length c) cs
              (omega (arith, length-append got c, e)) fits)
    ]
  ]

-- what a fetch gives: an error of the code, or a result within the limits
abbrev pub IsWithin : ℕ → ℕ → Result FetchError FetchResult → Type 0
IsWithin limit redirects (err out_of_fuel) = ⊥
IsWithin limit redirects (err _) = Unit
IsWithin limit redirects (ok r) =
    (length r.body ≡ r.bytes_len) × ((r.bytes_len ≤ limit) × (length r.redirect_chain ≤ redirects))

module _ (lib : Library) (policy : SecurityPolicy) (join : String → String → String)
    (late : ℕ → Bool) (net : String → List String → Result FetchKind Response) where
  -- a turn empties the jar, and it ends within the limits or goes on with one URL more
  abbrev IsTurn : ℕ → List String → Turn → Type 0
  IsTurn limit chain (ended s r) = (s.cookies ≡ []) × IsWithin limit policy.max_redirects r
  IsTurn limit chain (again next chain' s) =
      (s.cookies ≡ [])
      × ((length chain' ≡ suc (length chain)) × (length chain' ≤ policy.max_redirects))

  finish-IsTurn :
      (limit : ℕ) (url current : String) (chain : List String) (s : State) (r : Response) (n : ℕ)
      (b : Option Body)
      → length chain ≤ policy.max_redirects
      → IsCapped limit b
      → IsTurn limit chain (
          finish lib policy join late net url current chain s r (record { readings = n; body = b }))
  finish-IsTurn limit url current chain s r n none le c = (refl, tt)
  finish-IsTurn limit url current chain s r n (some b) le c = (refl, (c.0, (c.1, le)))

  respond-IsTurn :
      (limit : ℕ) (url current : String) (chain : List String) (s : State) (r : Response)
      → length chain ≤ policy.max_redirects
      → IsTurn limit chain (respond lib policy join late net limit url current chain s r)
  unfolding respond
  respond-IsTurn limit url current chain s r le =
      let chain' = chain ++ current ∷ [] in
      let one_more : length chain' ≡ suc (length chain) =
        omega (arith, length-append chain (current ∷ [])) in
      elim (Bool-cases (is_redirect r)) [
        | inr d ↦ rw d (
            finish-IsTurn limit url current chain
              (record s { cookies = s.cookies ++ r.set_cookies }) r _ _ le
              (read_chunks-IsCapped late limit s.readings [] 0 r.chunks refl (omega arith)))
        | inl d ↦ elim (Bool-cases (ltb policy.max_redirects (length chain'))) [
          | inl b ↦ rw (d, b) (refl, tt)
          | inr b ↦ rw (d, b) (refl, (one_more, ground arith))
        ]
      ]

  answered-IsTurn :
      (limit : ℕ) (url current : String) (chain : List String) (s : State)
      (a : Result FetchKind Response)
      → length chain ≤ policy.max_redirects
      → IsTurn limit chain (answered lib policy join late net limit url current chain s a)
  unfolding answered
  answered-IsTurn limit url current chain s (err kind) le = (refl, tt)
  answered-IsTurn limit url current chain s (ok r) le =
      respond-IsTurn limit url current chain s r le

  guarded-IsTurn :
      (limit : ℕ) (url current : String) (chain : List String) (s : State) (g : Option FetchKind)
      → length chain ≤ policy.max_redirects
      → IsTurn limit chain (guarded lib policy join late net limit url current chain s g)
  unfolding guarded
  guarded-IsTurn limit url current chain s (some kind) le = (refl, tt)
  guarded-IsTurn limit url current chain s none le =
      answered-IsTurn limit url current chain s (net current s.cookies) le

  prechecked-IsTurn :
      (limit : ℕ) (url current : String) (chain : List String) (s : State) (g : Option FetchKind)
      → length chain ≤ policy.max_redirects
      → IsTurn limit chain (prechecked lib policy join late net limit url current chain s g)
  unfolding prechecked
  prechecked-IsTurn limit url current chain s (some kind) le = (refl, tt)
  prechecked-IsTurn limit url current chain s none le = elim (Bool-cases (late s.readings)) [
    | inl l ↦ rw l (refl, tt)
    | inr l ↦ rw l (guarded-IsTurn limit url current chain _ (guard_hook lib policy current) le)
  ]

  -- the outcome of a run of the loop
  abbrev pub IsFetched : ℕ → State × Result FetchError FetchResult → Type 0
  IsFetched limit r = (r.0.cookies ≡ []) × IsWithin limit policy.max_redirects r.1

  after_turn :
      (fuel limit : ℕ) (url : String) (chain : List String) (t : Turn)
      → ((next : String) (chain' : List String) (s : State)
          → length chain' ≡ suc (length chain)
          → length chain' ≤ policy.max_redirects
          → s.cookies ≡ []
          → IsFetched limit (hops lib policy join late net fuel limit url next chain' s))
      → IsTurn limit chain t
      → IsFetched limit (
          carry_on t
            (λ next chain' s'. hops lib policy join late net fuel limit url next chain' s'))
  after_turn fuel limit url chain (ended s r) rest h = h
  after_turn fuel limit url chain (again next chain' s) rest h = rest next chain' s h.1.0 h.1.1 h.0

  hops-IsFetched :
      (fuel limit : ℕ) (url current : String) (chain : List String) (s : State)
      → length chain ≤ policy.max_redirects
      → policy.max_redirects < fuel + length chain
      → IsFetched limit (hops lib policy join late net fuel limit url current chain s)
  unfolding hops turn
  hops-IsFetched ℕ.zero limit url current chain s le lt = absurd (omega (arith, le, lt))
  hops-IsFetched (ℕ.suc fuel) limit url current chain s le lt =
      after_turn fuel limit url chain (turn lib policy join late net limit url current chain s)
        (λ next chain' s' one le' _.
          hops-IsFetched fuel limit url next chain' s' le' (omega (arith, lt, one)))
        (prechecked-IsTurn limit url current chain s (precheck lib policy current) le)

  fetch_within-IsFetched :
      (limit : ℕ) (url : String) (s : State)
      → IsFetched limit (fetch_within lib policy join late net (some limit) url s)
  unfolding fetch_within
  fetch_within-IsFetched limit url s =
      hops-IsFetched (suc policy.max_redirects) limit url url [] s (omega arith) (omega arith)

  -- A fetch whose headers are allowed and whose kind has a size limit ends, whatever the network answers,
  -- and leaves an empty cookie jar: its loop never runs out of turns, one more than the redirects
  -- allowed being enough. A result has at most the limit's bytes, as many as it says, and no more
  -- redirects than the policy allows.
  pub fetch-IsFetched :
      (url kind : String) (headers : List String) (limit : ℕ) (s : State)
      → bad_header lib policy join late net headers ≡ false
      → limit_for policy kind ≡ some limit
      → IsFetched limit (fetch lib policy join late net url kind headers s)
  unfolding fetch
  fetch-IsFetched url kind headers limit s h q = rw h (
      subst (λ o. IsFetched limit (fetch_within lib policy join late net o url s)) (sym q)
        (fetch_within-IsFetched limit url s))

module _ (lib : Library) (policy : SecurityPolicy) (join : String → String → String)
    (late : ℕ → Bool) (net net' : String → List String → Result FetchKind Response) where
  -- the two networks answer alike to requests without cookies
  abbrev pub Alike : Type 0
  Alike = (url : String) → net url [] ≡ net' url []

  respond_alike :
      (limit : ℕ) (url current : String) (chain : List String) (s : State) (r : Response)
      → respond lib policy join late net limit url current chain s r
        ≡ respond lib policy join late net' limit url current chain s r
  unfolding respond
  respond_alike limit url current chain s r = refl

  answered_alike :
      (limit : ℕ) (url current : String) (chain : List String) (s : State)
      (a : Result FetchKind Response)
      → answered lib policy join late net limit url current chain s a
        ≡ answered lib policy join late net' limit url current chain s a
  unfolding answered
  answered_alike limit url current chain s (err kind) = refl
  answered_alike limit url current chain s (ok r) = respond_alike limit url current chain s r

  guarded_alike :
      (limit : ℕ) (url current : String) (chain : List String) (s : State) (g : Option FetchKind)
      → Alike
      → s.cookies ≡ []
      → guarded lib policy join late net limit url current chain s g
        ≡ guarded lib policy join late net' limit url current chain s g
  unfolding guarded
  guarded_alike limit url current chain s (some kind) alike e = refl
  guarded_alike limit url current chain s none alike e =
      let same : net current s.cookies ≡ net' current s.cookies =
        ap (net current) e ∙ alike current ∙ ap (net' current) (sym e) in
      ap (answered lib policy join late net limit url current chain s) same
      ∙ answered_alike limit url current chain s (net' current s.cookies)

  prechecked_alike :
      (limit : ℕ) (url current : String) (chain : List String) (s : State) (g : Option FetchKind)
      → Alike
      → s.cookies ≡ []
      → prechecked lib policy join late net limit url current chain s g
        ≡ prechecked lib policy join late net' limit url current chain s g
  unfolding prechecked
  prechecked_alike limit url current chain s (some kind) alike e = refl
  prechecked_alike limit url current chain s none alike e = elim (Bool-cases (late s.readings)) [
    | inl l ↦ rw l refl
    | inr l ↦ rw l (
        guarded_alike limit url current chain (record s { readings = suc s.readings })
          (guard_hook lib policy current) alike e)
  ]

  after_alike :
      (fuel limit : ℕ) (url : String) (chain : List String) (t : Turn)
      → IsTurn lib policy join late net limit chain t
      → ((next : String) (chain' : List String) (s : State)
          → length chain' ≤ policy.max_redirects
          → s.cookies ≡ []
          → hops lib policy join late net fuel limit url next chain' s
            ≡ hops lib policy join late net' fuel limit url next chain' s)
      → carry_on t (λ next chain' s'. hops lib policy join late net fuel limit url next chain' s')
        ≡ carry_on t
            (λ next chain' s'. hops lib policy join late net' fuel limit url next chain' s')
  after_alike fuel limit url chain (ended s r) h rest = refl
  after_alike fuel limit url chain (again next chain' s) h rest = rest next chain' s h.1.1 h.0

  hops_alike :
      (fuel limit : ℕ) (url current : String) (chain : List String) (s : State)
      → Alike
      → length chain ≤ policy.max_redirects
      → s.cookies ≡ []
      → hops lib policy join late net fuel limit url current chain s
        ≡ hops lib policy join late net' fuel limit url current chain s
  unfolding hops turn
  hops_alike ℕ.zero limit url current chain s alike le e = refl
  hops_alike (ℕ.suc fuel) limit url current chain s alike le e =
      let first =
        prechecked_alike limit url current chain s (precheck lib policy current) alike e in
      after_alike fuel limit url chain (turn lib policy join late net limit url current chain s)
        (prechecked-IsTurn lib policy join late net limit url current chain s
          (precheck lib policy current) le)
        (λ next chain' s' le' e'. hops_alike fuel limit url next chain' s' alike le' e')
      ∙ ap
          (λ t.
            carry_on t
              (λ next chain' s'. hops lib policy join late net' fuel limit url next chain' s'))
          first

  -- No cookie is ever sent: two networks that answer alike to requests without cookies give the same
  -- fetch, from an empty jar, whatever cookies their responses set and whatever they would answer to a
  -- request that carries some.
  pub fetch_alike :
      (url kind : String) (headers : List String) (s : State)
      → Alike
      → s.cookies ≡ []
      → fetch lib policy join late net url kind headers s
        ≡ fetch lib policy join late net' url kind headers s
  unfolding fetch fetch_within
  fetch_alike url kind headers s alike e =
      elim (Bool-cases (bad_header lib policy join late net headers)) [
        | inl b ↦ rw b refl
        | inr b ↦ elim (Option-cases (limit_for policy kind)) [
          | inl q ↦ rw (b, q) refl
          | inr (limit, q) ↦
              rw (b, q)
                (hops_alike (suc policy.max_redirects) limit url url [] s alike (omega arith) e)
        ]
      ]
