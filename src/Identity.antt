-- ===== src/Identity.antt =====
-- src/sentry_mode/satellites/identity.py: which nodes exist, which may speak, and by which certificate.
-- The file of the registry is part of the state: the document in it with its stamp, the time of its
-- modification and its size, that `stat` gives. A write is given the stamp of the new file, or none where
-- the file cannot be written. Only the values of a node's description are texts or None.

pub mod Calls
pub mod Kept
pub mod Histories
pub mod Answers
pub mod Epochs
pub mod Revoked
pub mod Readable
use sentry_mode.Prelude.{
  ℕ, zero, suc, String, Bool, true, false, not, ◌&&◌, ◌||◌, Option, none, some, List, [], ◌∷◌, Eq,
  discrete_eq, leb, ltb, ◌==◌, ◌!=◌, string_eq, nat_eq, option_eq, is_some, is_none, if◌then◌else◌,
  all,
}
use sentry_mode.Prelude.Dict.{Dict, lookup, insert, erase}
use sentry_mode.Source.{matches_name}
use sentry_mode.Node.{
  ok, err, Status, status_eq, pending, approved, revoked, NodeError, Result, NodeRecord,
  may_publish, NodeDocument, blank, is_valid_record, is_valid, Crypto, fingerprint,
}
use sentry_mode.Node.Platform.{known}

-- What a process remembers of the file: the document, and the stamp of what it read.
pub record Memory : Type 0 where
  pub document : NodeDocument
  pub read_at : Option ℕ

-- What stands at the path.
abbrev pub File : Type 0
File = Option (NodeDocument × ℕ)

-- The memory of the process and the file, after a call, and what the call gives or raises.
pub record Outcome (A : Type 0) : Type 0 where
  pub memory : Memory
  pub file : File
  pub result : Result A

abbrev pub outcome : {A : Type 0} → Memory → File → Result A → Outcome A
outcome m f r = record { memory = m; file = f; result = r }

unfoldable pub load : Memory → File → Memory × Result NodeDocument
load m none = (record { document = blank; read_at = none }, ok blank)
load m (some (d, stamp)) =
    if is_valid d
    then (record { document = d; read_at = some stamp }, ok d)
    else (m, err NodeError.invalid)

-- `NodeRegistry(path)`
unfoldable pub open_registry : File → Memory × Result NodeDocument
open_registry f = load (record { document = blank; read_at = none }) f

abbrev moved : Memory → File → Memory × Result NodeDocument
moved m none = if is_some m.read_at then load m none else (m, ok m.document)
moved m (some (d, stamp)) =
    if m.read_at != some stamp then load m (some (d, stamp)) else (m, ok m.document)

unfoldable pub refresh : Memory → File → Memory × Result NodeDocument
refresh m f = moved m f

-- The file is replaced whole, or not at all; the memory has changed either way.
unfoldable pub persist : {A : Type 0} → NodeDocument → Memory → File → Option ℕ → A → Outcome A
persist d m f written a =
    let d' : NodeDocument = record d { revision = suc d.revision } in
    let m' : Memory = record m { document = d' } in
    elim written [
      | none ↦ outcome m' f (err NodeError.os_error)
      | some stamp ↦ outcome m' (some (d', stamp)) (ok a)
    ]

abbrev pub settled : {A : Type 0} → Memory → File → Option ℕ → Result (NodeDocument × A) → Outcome A
settled m f written (err e) = outcome m f (err e)
settled m f written (ok (d, a)) = persist d m f written a

-- `self.refresh()`, the change of the document or its refusal, and `self._persist()`.
unfoldable pub update :
    {A : Type 0} → (NodeDocument → Result (NodeDocument × A)) → Memory → File → Option ℕ → Outcome A
unfolding persist
update change m f written =
    let (m', r) = refresh m f in
    elim r [ err e ↦ outcome m' f (err e) | ok d ↦ settled m' f written (change m'.document) ]

unfoldable pub next_epoch_change : NodeDocument → Result (NodeDocument × ℕ)
next_epoch_change d = ok (record d { hub_epoch = suc d.hub_epoch }, suc d.hub_epoch)

unfoldable pub require : NodeDocument → String → Result NodeRecord
require d node_id = elim (lookup node_id d.nodes) [
  | none ↦ err (NodeError.unknown_node node_id)
  | some r ↦ ok r
]

-- The record is put back under the name that it was asked for.
abbrev pub replaced :
    String → NodeDocument → (NodeRecord → NodeRecord) → Result (NodeDocument × NodeRecord)
replaced node_id d change = elim (require d node_id) [
  | err e ↦ err e
  | ok r ↦ ok (record d { nodes = insert node_id (change r) d.nodes }, change r)
]

-- `x or y` where both are texts or None.
abbrev or_else : Option String → Option String → Option String
or_else none y = y
or_else (some s) y = if s == "" then y else some s

-- The arguments of `register` after the name.
pub record Registration : Type 0 where
  pub display_name : Option String
  pub profile : String
  pub platform : String
  pub zone : Option String
  pub certificate : Option String

-- The arguments of `describe`: what is changed, to what, and the names of the other changes asked for.
pub record Changes : Type 0 where
  pub display_name : Option String
  pub zone : Option (Option String)
  pub profile : Option String
  pub platform : Option String
  pub agent_version : Option (Option String)
  pub serial : Option (Option String)
  pub unknown : List String

abbrev or_kept : {A : Type 0} → Option A → A → A
or_kept none a = a
or_kept (some b) a = b

abbrev pub described : Changes → NodeRecord → NodeRecord
described c r = record r {
  display_name = or_kept c.display_name r.display_name;
  zone = or_kept c.zone r.zone;
  profile = or_kept c.profile r.profile;
  platform = or_kept c.platform r.platform;
  agent_version = or_kept c.agent_version r.agent_version;
  serial = or_kept c.serial r.serial;
}

abbrev pub approved_as : String → ℕ → NodeRecord → NodeRecord
approved_as pinned now r = record r {
  status = approved;
  fingerprint = some pinned;
  approved_at = some now;
  revoked_at = none;
  revoked_reason = none;
}

abbrev pub revoked_for : Option String → ℕ → NodeRecord → NodeRecord
revoked_for reason now r = record r {
  status = revoked;
  revoked_at = some now;
  revoked_reason = reason;
}

module _ (crypto : Crypto) where
  -- `fingerprint(certificate) if certificate else None`
  abbrev optional_fingerprint : Option String → Result (Option String)
  optional_fingerprint none = ok none
  optional_fingerprint (some c) =
      if c == ""
      then ok none
      else elim (fingerprint crypto c) [ none ↦ err NodeError.not_pem | some p ↦ ok (some p) ]

  abbrev waiting : String → Registration → Option String → ℕ → NodeRecord
  waiting node_id r pinned now = record {
    node_id = node_id;
    display_name = elim (or_else r.display_name none) [ none ↦ node_id | some s ↦ s ];
    profile = r.profile;
    platform = r.platform;
    zone = r.zone;
    status = pending;
    fingerprint = pinned;
    serial = none;
    agent_version = none;
    protocol = 5;
    registered_at = now;
    approved_at = none;
    revoked_at = none;
    revoked_reason = none;
  }

  unfoldable pub register_change :
      String → Registration → ℕ → NodeDocument → Result (NodeDocument × NodeRecord)
  unfolding fingerprint
  register_change node_id r now d =
      if is_some (lookup node_id d.nodes)
      then err NodeError.already_registered
      else elim (optional_fingerprint r.certificate) [
        | err e ↦ err e
        | ok pinned ↦
            let new = waiting node_id r pinned now in
            if is_valid_record new
            then ok (record d { nodes = insert node_id new d.nodes }, new)
            else err NodeError.invalid
      ]

  -- `if certificate is not None: pinned = fingerprint(certificate)`
  abbrev to_pin : Option String → Option String → Result (Option String)
  to_pin none pinned = ok pinned
  to_pin (some c) pinned = elim (fingerprint crypto c) [
    | none ↦ err NodeError.not_pem
    | some p ↦ ok (some p)
  ]

  unfoldable pub approve_change :
      String → Option String → Option String → ℕ → NodeDocument → Result (NodeDocument × NodeRecord)
  unfolding require fingerprint
  approve_change node_id certificate pinned now d = elim (require d node_id) [
    | err e ↦ err e
    | ok r ↦ elim (to_pin certificate pinned) [
      | err e ↦ err e
      | ok p ↦ elim (or_else p r.fingerprint) [
        | none ↦ err NodeError.nothing_pinned
        | some p' ↦
            let new = approved_as p' now r in
            ok (record d { nodes = insert node_id new d.nodes }, new)
      ]
    ]
  ]

unfoldable pub revoke_change :
    String → Option String → ℕ → NodeDocument → Result (NodeDocument × NodeRecord)
unfolding require
revoke_change node_id reason now d = replaced node_id d (revoked_for reason now)

unfoldable pub forget_change : String → NodeDocument → Result (NodeDocument × Unit {0})
unfolding require
forget_change node_id d = elim (require d node_id) [
  | err e ↦ err e
  | ok r ↦ ok (record d { nodes = erase node_id d.nodes }, tt)
]

unfoldable pub describe_change :
    String → Changes → NodeDocument → Result (NodeDocument × NodeRecord)
unfolding require
describe_change node_id c d = replaced node_id d (described c)

unfoldable pub next_epoch : Memory → File → Option ℕ → Outcome ℕ
unfolding update next_epoch_change
next_epoch m f written = update next_epoch_change m f written

unfoldable pub register :
    Crypto → Memory → File → Option ℕ → String → Registration → ℕ → Outcome NodeRecord
unfolding update register_change
register crypto m f written node_id r now =
    if not (known r.platform)
    then outcome m f (err NodeError.unknown_platform)
    else update (register_change crypto node_id r now) m f written

unfoldable pub approve :
    Crypto
    → Memory
    → File
    → Option ℕ
    → String
    → Option String
    → Option String
    → ℕ
    → Outcome NodeRecord
unfolding update approve_change
approve crypto m f written node_id certificate pinned now =
    update (approve_change crypto node_id certificate pinned now) m f written

unfoldable pub revoke : Memory → File → Option ℕ → String → Option String → ℕ → Outcome NodeRecord
unfolding update revoke_change
revoke m f written node_id reason now = update (revoke_change node_id reason now) m f written

unfoldable pub forget : Memory → File → Option ℕ → String → Outcome (Unit {0})
unfolding update forget_change
forget m f written node_id = update (forget_change node_id) m f written

abbrev is_unknown_platform : Option String → Bool
is_unknown_platform none = false
is_unknown_platform (some p) = not (known p)

abbrev is_empty : List String → Bool
is_empty [] = true
is_empty (x ∷ xs) = false

unfoldable pub describe : Memory → File → Option ℕ → String → Changes → Outcome NodeRecord
unfolding update describe_change
describe m f written node_id c =
    if not (is_empty c.unknown)
    then outcome m f (err NodeError.not_a_description)
    else if is_unknown_platform c.platform
    then outcome m f (err NodeError.unknown_platform)
    else update (describe_change node_id c) m f written

-- What a connection says of itself.
pub record Credentials : Type 0 where
  pub username : Option String
  pub client_id : Option String
  pub certificate_fingerprint : Option String

abbrev pub is_other : Option String → String → Bool
is_other none s = false
is_other (some a) s = a != s

-- What `authenticate` tests of the record of the node.
unfoldable pub vetted : String → Credentials → NodeRecord → Result NodeRecord
vetted node_id c r =
    if not (may_publish r)
    then err (NodeError.not_approved r.status)
    else if is_other c.username node_id || is_other c.client_id node_id
    then err NodeError.wrong_name
    else elim r.fingerprint [
      | none ↦ err NodeError.no_certificate
      | some p ↦
          if is_other c.certificate_fingerprint p then err NodeError.other_certificate else ok r
    ]

-- After `refresh`; a file that cannot be validated is raised.
unfoldable pub asked : Memory × Result NodeDocument → String → Credentials → Result NodeRecord
unfolding require vetted
asked (m, err e) node_id c = err e
asked (m, ok d) node_id c = elim (require m.document node_id) [
  | err e ↦ err e
  | ok r ↦ vetted node_id c r
]

unfoldable pub authenticate : Memory → File → String → Credentials → Outcome NodeRecord
unfolding refresh asked
authenticate m f node_id c = outcome (refresh m f).0 f (asked (refresh m f) node_id c)
