-- ===== src/Evidence.antt =====
-- evidence.py: the store of evidence. A gatherer is a parameter: a function on the store, which it may
-- ask for other evidence, and whose exception is a value.
pub mod Once
use scovant_core.Prelude.{
  String, Bool, Option, none, some, List, [], ◌∷◌, str_eq, lookup, insert, Result, ok, err, is_some,
  if◌then◌else◌,
}
use scovant_core.Prelude.Json.{Json}

-- `GatherError`
pub record GatherError : Type 0 where
  pub name : String
  pub kind : String
  pub message : String

-- `_data` and `errors` of `EvidenceStore`
pub record Store : Type 0 where
  pub data_of : List (String × Json)
  pub errors : List (String × GatherError)

-- what a gatherer raises: the kind and the text, cut to 300 characters, of an exception
pub record Raised : Type 0 where
  pub kind : String
  pub message : String

-- a call of a gatherer
pub record Ran : Type 0 where
  pub store : Store
  pub answer : Result Raised Json

-- what `get` raises
pub data Unavailable : Type 0 where
  unavailable : GatherError → Unavailable
  no_gatherer : String → Unavailable

pub record Got : Type 0 where
  pub store : Store
  pub answer : Result Unavailable Json

abbrev pub gather_error : String → Raised → GatherError
gather_error name e = record { name = name; kind = e.kind; message = e.message }

-- the end of the `try` of `get`
abbrev pub settle : String → Store → Result Raised Json → Got
settle name s (ok d) = record {
  store = record { data_of = insert name d s.data_of; errors = s.errors };
  answer = ok d;
}
settle name s (err e) = record {
  store = record { data_of = s.data_of; errors = insert name (gather_error name e) s.errors };
  answer = err (unavailable (gather_error name e));
}

module _ (gatherers : String → Option (Store → Ran)) where
  abbrev pub gather : String → Store → Option (Store → Ran) → Got
  gather name s none = record { store = s; answer = err (no_gatherer name) }
  gather name s (some fn) = settle name (fn s).store (fn s).answer

  abbrev pub or_failed : String → Store → Option GatherError → Got
  or_failed name s (some e) = record { store = s; answer = err (unavailable e) }
  or_failed name s none = gather name s (gatherers name)

  abbrev pub or_gather : String → Store → Option Json → Got
  or_gather name s (some d) = record { store = s; answer = ok d }
  or_gather name s none = or_failed name s (lookup name s.errors)

  -- `EvidenceStore.get`
  unfoldable pub get : String → Store → Got
  get name s = or_gather name s (lookup name s.data_of)

  -- `EvidenceStore.try_get`; the outer `none` is the `KeyError` of `get`
  abbrev pub tried : Result Unavailable Json → Option (Option Json)
  tried (ok d) = some (some d)
  tried (err (unavailable e)) = some none
  tried (err (no_gatherer name)) = none

  unfoldable pub try_get : String → Store → Store × Option (Option Json)
  unfolding get
  try_get name s = ((get name s).store, tried (get name s).answer)

-- `EvidenceStore.gathered`
unfoldable pub gathered : String → Store → Option Json
gathered name s = lookup name s.data_of
