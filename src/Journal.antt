-- ===== src/Journal.antt =====
-- src/sentry_mode/satellites/store.py: the journal, one SQLite file with one writer.
-- A table is a list of rows, newest first; a statement of the source is an operation on the lists,
-- and a transaction that fails leaves them as they were. The digest of an entry's contents is SHA-256
-- of their JSON text, a parameter of the calls that use it.
pub mod Receipts
pub mod Once
use sentry_mode.Prelude.{
  ℕ, suc, ◌+◌, ◌-◌, length, String, Bool, true, false, not, ◌&&◌, Option, none, some, List, [], ◌∷◌,
  ltb, ◌==◌, string_eq, nat_eq, if◌then◌else◌, keep, is_some,
}
use sentry_mode.Prelude.Dict.{Dict, lookup, insert}
use sentry_mode.Source.{Quality, ClockStatus, concat}
use sentry_mode.Trigger.{Value}

pub data TimeState : Type 0 where
  fine uncertain : TimeState

-- How far a source had got. `none` in `high_water` is the source's -1.
pub record Mark : Type 0 where
  pub node_id : String
  pub source_id : String
  pub boot_id : String
  pub high_water : Option ℕ
  pub baseline_taken : Bool
  pub time_state : TimeState
  pub last_occurred_at : Option ℕ

unfoldable pub source_key : String → String → String
source_key node_id source_id = concat node_id (concat "." source_id)

pub data Classification : Type 0 where
  live initial historic rejected : Classification

pub data Reason : Type 0 where
  duplicate retained initial_state replayed expired time_uncertain out_of_order : Reason
  id_reused sequence_reused invalid_envelope identity_mismatch unregistered_source : Reason
  source_disabled store_unavailable : Reason

pub record Entry : Type 0 where
  pub node_id : String
  pub source_id : String
  pub event_id : String
  pub boot_id : String
  pub sequence : ℕ
  pub kind : String
  pub value : Value
  pub unit : Option String
  pub quality : Quality
  pub clock_status : ClockStatus
  pub zone : Option String
  pub occurred_at : ℕ
  pub received_at : ℕ
  pub received_monotonic : ℕ
  pub queued_ms : ℕ
  pub hub_epoch : ℕ
  pub connection_id : Option String
  pub classification : Classification
  pub eligible : Bool
  pub reason : Option Reason

-- What the event says, apart from how it travelled. The source writes the moment as an ISO text with its
-- offset, so that one instant in two offsets is two texts there, and is one tick here.
pub record Contents : Type 0 where
  pub source_id : String
  pub boot_id : String
  pub sequence : ℕ
  pub kind : String
  pub value : Value
  pub unit : Option String
  pub quality : Quality
  pub occurred_at : ℕ

abbrev pub contents : Entry → Contents
contents e = record {
  source_id = e.source_id;
  boot_id = e.boot_id;
  sequence = e.sequence;
  kind = e.kind;
  value = e.value;
  unit = e.unit;
  quality = e.quality;
  occurred_at = e.occurred_at;
}

-- A row of `event_receipts`.
pub record Receipt : Type 0 where
  pub node_id : String
  pub event_id : String
  pub boot_id : String
  pub source_id : String
  pub sequence : ℕ
  pub fingerprint : String
  pub received_at : ℕ

-- A row of `event_journal`.
pub record Row : Type 0 where
  pub id : ℕ
  pub entry : Entry
  pub outcome : String

pub record Store : Type 0 where
  pub is_open : Bool
  pub receipts : List Receipt
  pub journal : List Row
  pub next_id : ℕ
  pub marks : Dict Mark

-- Whether SQLite can carry out the transaction that is asked of it now.
pub data Disk : Type 0 where
  works fails : Disk

pub data Admission : Type 0 where
  stored duplicate id_reused sequence_reused : Admission

-- A call returns, raises StoreUnavailable, or lets the sqlite3.Error of SQLite itself through.
pub data Result {ℓ} (A : Type ℓ) : Type ℓ where
  ok : A → Result A
  unavailable : Result A
  sqlite_error : Result A

-- `WHERE node_id = ? AND event_id = ?`
abbrev pub has_id : String → String → Receipt → Bool
has_id node_id event_id r = r.node_id == node_id && r.event_id == event_id

-- `WHERE node_id = ? AND boot_id = ? AND source_id = ? AND sequence = ?`
abbrev pub has_position : Entry → Receipt → Bool
has_position e r =
    (r.node_id == e.node_id && r.boot_id == e.boot_id)
    && (r.source_id == e.source_id && r.sequence == e.sequence)

-- `SELECT … .fetchone()`
unfoldable pub find {ℓ} : {A : Type ℓ} → (A → Bool) → List A → Option A
find p [] = none
find p (x ∷ xs) = if p x then some x else find p xs

abbrev pub receipt_of : (Contents → String) → Entry → Receipt
receipt_of digest e = record {
  node_id = e.node_id;
  event_id = e.event_id;
  boot_id = e.boot_id;
  source_id = e.source_id;
  sequence = e.sequence;
  fingerprint = digest (contents e);
  received_at = e.received_at;
}

abbrev pub written : Store → Entry → Store
written s e = record s {
  journal = record { id = s.next_id; entry = e; outcome = "recorded" } ∷ s.journal;
  next_id = suc s.next_id;
}

-- On a conflict the key, the node and the source stay, and the rest is written over.
abbrev pub over : Option Mark → Mark → Mark
over none m = m
over (some old) m = record m { node_id = old.node_id; source_id = old.source_id }

unfoldable pub write_mark : Dict Mark → Mark → Dict Mark
write_mark marks m =
    let key = source_key m.node_id m.source_id in insert key (over (lookup key marks) m) marks

abbrev pub marked : Store → Option Mark → Store
marked s none = s
marked s (some m) = record s { marks = write_mark s.marks m }

-- The receipt, the journal row and the position, in one transaction. The two SELECTs and the INSERT
-- see the same table, so the insert breaks no constraint.
abbrev judged :
    (Contents → String)
    → Store
    → Entry
    → Option Mark
    → Option Receipt
    → Option Receipt
    → Store × Result Admission
judged digest s e m (some existing) clash =
    (s, ok (if existing.fingerprint == digest (contents e) then duplicate else id_reused))
judged digest s e m none (some clash) = (s, ok sequence_reused)
judged digest s e m none none =
    (marked (written (record s { receipts = receipt_of digest e ∷ s.receipts }) e) m, ok stored)

-- `_require()`, and then a transaction that SQLite may not carry out; `error` is what the call makes
-- of that.
abbrev transaction {ℓ} :
    {A : Type ℓ} → Store → Disk → Result A → Store × Result A → Store × Result A
transaction s fails error done = if s.is_open then (s, error) else (s, unavailable)
transaction s works error done = if s.is_open then done else (s, unavailable)

unfoldable pub admit :
    (Contents → String) → Store → Disk → Entry → Option Mark → Store × Result Admission
admit digest s disk e m = transaction s disk unavailable (
    judged digest s e m (find (has_id e.node_id e.event_id) s.receipts)
      (find (has_position e) s.receipts))

-- Journal something that was refused before it earned a receipt.
unfoldable pub record_refusal : Store → Disk → Entry → Store × Result (Unit {0})
record_refusal s disk e =
    transaction s disk unavailable (written s (record e { eligible = false }), ok tt)

-- Move a source's position on its own.
unfoldable pub remember : Store → Disk → Mark → Store × Result (Unit {0})
remember s disk m =
    transaction s disk unavailable (record s { marks = write_mark s.marks m }, ok tt)

abbrev told : String → String → String → List Row → List Row
told node_id event_id outcome [] = []
told node_id event_id outcome (r ∷ rs) =
    (if r.entry.node_id == node_id && r.entry.event_id == event_id
      then record r { outcome = outcome }
      else r)
    ∷ told node_id event_id outcome rs

-- Say what became of an admitted event.
unfoldable pub outcome : Store → Disk → String → String → String → Store × Result (Unit {0})
outcome s disk node_id event_id what =
    transaction s disk sqlite_error
      (record s { journal = told node_id event_id what s.journal }, ok tt)

unfoldable pub mark : Store → Disk → String → String → Result (Option Mark)
mark s fails node_id source_id = if s.is_open then sqlite_error else unavailable
mark s works node_id source_id =
    if s.is_open then ok (lookup (source_key node_id source_id) s.marks) else unavailable

-- Delete visible history; the receipts stay.
unfoldable pub forget_events : Store → Disk → ℕ → ℕ → Store × Result ℕ
forget_events s disk now older_than =
    let kept = keep (λ (r : Row). not (ltb (r.entry.received_at + older_than) now)) s.journal in
    transaction s disk sqlite_error
      (record s { journal = kept }, ok (length s.journal - length kept))

-- Delete deduplication history.
unfoldable pub forget_receipts : Store → Disk → ℕ → ℕ → Store × Result ℕ
forget_receipts s disk now older_than =
    let kept = keep (λ (r : Receipt). not (ltb (r.received_at + older_than) now)) s.receipts in
    transaction s disk sqlite_error
      (record s { receipts = kept }, ok (length s.receipts - length kept))
