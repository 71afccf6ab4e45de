-- ===== src/Source/Registry.antt =====
-- src/sentry_mode/sources/registry.py: the one table that says which sources exist.
use sentry_mode.Prelude.{
  String, ◌≡◌, refl, ◌||◌, Option, none, some, arith, ◌==◌, ◌!=◌, string_eq, eq_iff, if◌then◌else◌,
  Option-cases, inl, inr,
}
use sentry_mode.Prelude.Dict.{Dict, lookup, insert, lookup-insert}
use sentry_mode.Source.{SourceKind, SourceState, SourceRecord, Origin, ref_id, kind_eq, origin_eq}

abbrev pub Registry : Type 0
Registry = Dict SourceRecord

-- What a refused call raises.
pub data RegistryError : Type 0 where
  already_registered : Origin → SourceKind → RegistryError
  unknown_source : String → RegistryError

pub data Result {ℓ} (A : Type ℓ) : Type ℓ where
  ok : A → Result A
  err : RegistryError → Result A

abbrev pub record_id : SourceRecord → String
record_id r = ref_id r.ref

-- The record that is there is kept and returned; one of another kind or origin is an error.
abbrev admitted : Registry → SourceRecord → Option SourceRecord → Registry × Result SourceRecord
admitted m new none = (insert (record_id new) new m, ok new)
admitted m new (some existing) =
    if existing.kind != new.kind || existing.origin != new.origin
    then (m, err (already_registered existing.origin existing.kind))
    else (m, ok existing)

unfoldable pub register : Registry → SourceRecord → Registry × Result SourceRecord
register m new = admitted m new (lookup (record_id new) m)

unfoldable pub get : Registry → String → Option SourceRecord
get m key = lookup key m

abbrev or_unknown : String → Option SourceRecord → Result SourceRecord
or_unknown key none = err (unknown_source key)
or_unknown key (some found) = ok found

unfoldable pub require : Registry → String → Result SourceRecord
unfolding get
require m key = or_unknown key (get m key)

abbrev with_state : Registry → SourceState → Result SourceRecord → Registry × Result SourceRecord
with_state m state (err e) = (m, err e)
with_state m state (ok r) =
    let updated : SourceRecord = record r { state = state } in
    (insert (record_id r) updated m, ok updated)

unfoldable pub set_state : Registry → String → SourceState → Registry × Result SourceRecord
unfolding require
set_state m key state = with_state m state (require m key)

-- Each record is filed under its own identifier.
pub record IsFiled (m : Registry) : Type 0 where
  pub at_key : (k : String) (r : SourceRecord) → lookup k m ≡ some r → record_id r ≡ k

-- `register` and `set_state` keep every record under its own identifier.
pub register-IsFiled : (m : Registry) (new : SourceRecord) → IsFiled m → IsFiled (register m new).0
unfolding register
register-IsFiled m new h = record {
  at_key = λ k r e.
      ground (arith, h.at_key k r, lookup-insert (record_id new) k new m, eq_iff (record_id new) k);
}

-- A registration, accepted or refused, changes no source that is already known.
pub register_keeps :
    (m : Registry) (new : SourceRecord) (k : String) (r : SourceRecord)
    → get m k ≡ some r
    → get (register m new).0 k ≡ some r
unfolding register get
register_keeps m new k r h =
    ground (arith, lookup-insert (record_id new) k new m, eq_iff (record_id new) k)

-- Recording the state of a source changes that field of that source, and nothing else of any known
-- source, where each record is filed under its identifier.
pub set_state_exact :
    (m : Registry) (key : String) (state : SourceState) (k : String) (r : SourceRecord)
    → IsFiled m
    → get m k ≡ some r
    → get (set_state m key state).0 k
      ≡ some (record r { state = if key == k then state else r.state })
unfolding set_state get
set_state_exact m key state k r filed h = elim (Option-cases (lookup key m)) [
  | inl missing ↦ rw (missing, set_state) (ground (arith, eq_iff key k))
  | inr (s, found) ↦
      rw (found, set_state)
        (ground (
          arith,
          filed.at_key key s found,
          lookup-insert (record_id s) k (record s { state = state }) m,
          eq_iff (record_id s) k,
          eq_iff key k,
        ))
]

-- The state of an unknown source cannot be recorded.
pub set_state_unknown :
    (m : Registry) (key : String) (state : SourceState)
    → get m key ≡ none
    → set_state m key state ≡ (m, err (unknown_source key))
unfolding set_state get
set_state_unknown m key state h = rw (h, set_state) refl
