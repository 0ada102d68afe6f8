-- ===== src/Evidence/Once.antt =====
-- A gatherer runs at most once: what the store answers, it answers again.
use mathlib.Core.List.{List}
use scovant_core.Prelude.{
  String, ◌≡◌, refl, sym, ◌∙◌, ap, inl, inr, Option, none, some, Option-cases, eq_refl, lookup,
  insert, lookup-insert, Result, ok, err,
}
use scovant_core.Prelude.Json.{Json}
use scovant_core.Evidence.{
  Store, Raised, Ran, Got, GatherError, unavailable, gather_error, settle, gather, or_failed,
  or_gather, get,
}

lookup-inserted :
    {V : Type 0} (name : String) (v : V) (d : List (String × V))
    → lookup name (insert name v d) ≡ some v
lookup-inserted name v d = lookup-insert name name v d ∙ rw (eq_refl name) refl

module _ (gatherers : String → Option (Store → Ran)) where
  get-data :
      (name : String) (s : Store) {d : Json}
      → lookup name s.data_of ≡ some d
      → get gatherers name s ≡ record { store = s; answer = ok d }
  unfolding get
  get-data name s h = ap (or_gather gatherers name s) h

  get-error :
      (name : String) (s : Store) {e : GatherError}
      → lookup name s.data_of ≡ none
      → lookup name s.errors ≡ some e
      → get gatherers name s ≡ record { store = s; answer = err (unavailable e) }
  unfolding get
  get-error name s h k = ap (or_gather gatherers name s) h ∙ ap (or_failed gatherers name s) k

  get-none :
      (name : String) (s : Store)
      → lookup name s.data_of ≡ none
      → lookup name s.errors ≡ none
      → get gatherers name s ≡ gather gatherers name s (gatherers name)
  unfolding get
  get-none name s h k = ap (or_gather gatherers name s) h ∙ ap (or_failed gatherers name s) k

  -- A gatherer that runs for a name leaves no evidence under that name.
  abbrev pub LeavesItself : Type 0
  LeavesItself =
      (name : String) (fn : Store → Ran) (s : Store)
      → gatherers name ≡ some fn
      → lookup name s.data_of ≡ none
      → lookup name (fn s).store.data_of ≡ none

  again :
      (name : String) (s : Store) {g : Got}
      → get gatherers name s ≡ g
      → get gatherers name g.store ≡ g
      → get gatherers name (get gatherers name s).store ≡ get gatherers name s
  again name s h k = ap (λ x. get gatherers name x.store) h ∙ k ∙ sym h

  settled_again :
      (name : String) (s : Store) (r : Result Raised Json)
      → lookup name s.data_of ≡ none
      → get gatherers name (settle name s r).store ≡ settle name s r
  settled_again name s (ok d) h = get-data name _ (lookup-inserted name d s.data_of)
  settled_again name s (err e) h =
      get-error name _ h (lookup-inserted name (gather_error name e) s.errors)

  -- The store answers a second `get` of a name as the first, evidence or error, and is left as it
  -- was, so the gatherer of the name runs at most once, if no gatherer puts evidence under the name it
  -- runs for.
  pub get_again :
      (quiet : LeavesItself) (name : String) (s : Store)
      → get gatherers name (get gatherers name s).store ≡ get gatherers name s
  get_again quiet name s = elim (Option-cases (lookup name s.data_of)) [
    | inr (d, h) ↦ again name s (get-data name s h) (get-data name s h)
    | inl h ↦ elim (Option-cases (lookup name s.errors)) [
      | inr (e, k) ↦ again name s (get-error name s h k) (get-error name s h k)
      | inl k ↦ elim (Option-cases (gatherers name)) [
        | inl n ↦
            let here = get-none name s h k ∙ ap (gather gatherers name s) n in
            again name s here here
        | inr (fn, n) ↦
            let here = get-none name s h k ∙ ap (gather gatherers name s) n in
            again name s here (settled_again name (fn s).store (fn s).answer (quiet name fn s n h))
      ]
    ]
  ]
