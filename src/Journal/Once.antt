-- ===== src/Journal/Once.antt =====
-- The journal of satellites/store.py over any sequence of calls.
use sentry_mode.Prelude.{
  ℕ, ◌+◌, String, ◌≡◌, ◌⊎◌, inl, inr, not, Option, none, some, List, [], ◌∷◌, arith, ◌==◌,
  string_eq, nat_eq, eq_iff, if◌then◌else◌, All, ltb,
}
use sentry_mode.Journal.{
  marked, written, Mark, Entry, Contents, contents, Receipt, Store, Disk, works, fails, Admission,
  stored, duplicate, id_reused, ok, has_id, has_position, find, receipt_of, admit, record_refusal,
  remember, outcome, forget_events, forget_receipts,
}
use sentry_mode.Journal.Receipts.{
  IsUnique, admit_receipts, admit-IsUnique, keep-IsUnique, admit_everything, admit_known,
}

-- The operations that write.
pub data Op : Type 0 where
  admits : Entry → Option Mark → Op
  refuses : Entry → Op
  remembers : Mark → Op
  tells : String → String → String → Op
  forgets_events forgets_receipts : ℕ → ℕ → Op

unfoldable pub step : (Contents → String) → Store → Disk × Op → Store
step digest s (disk, admits e m) = (admit digest s disk e m).0
step digest s (disk, refuses e) = (record_refusal s disk e).0
step digest s (disk, remembers m) = (remember s disk m).0
step digest s (disk, tells node_id event_id what) = (outcome s disk node_id event_id what).0
step digest s (disk, forgets_events now older) = (forget_events s disk now older).0
step digest s (disk, forgets_receipts now older) = (forget_receipts s disk now older).0

unfoldable pub run : (Contents → String) → Store → List (Disk × Op) → Store
run digest s [] = s
run digest s (op ∷ ops) = run digest (step digest s op) ops

-- The operation leaves the receipts to themselves.
abbrev IsQuiet : Op → Type 0
IsQuiet (admits e m) = ⊥
IsQuiet (forgets_receipts now older) = ⊥
IsQuiet _ = Unit {0}

quiet_receipts :
    (digest : Contents → String) (s : Store) (disk : Disk) (op : Op)
    → IsQuiet op
    → (step digest s (disk, op)).receipts ≡ s.receipts
unfolding step record_refusal remember outcome forget_events
quiet_receipts digest s disk (refuses e) q = ground arith
quiet_receipts digest s disk (remembers m) q = ground arith
quiet_receipts digest s disk (tells node_id event_id what) q = ground arith
quiet_receipts digest s disk (forgets_events now older) q = ground arith
quiet_receipts digest s disk (admits e m) q = absurd q
quiet_receipts digest s disk (forgets_receipts now older) q = absurd q

forget-IsUnique :
    (s : Store) (disk : Disk) (now older : ℕ)
    → IsUnique s.receipts
    → IsUnique (forget_receipts s disk now older).0.receipts
unfolding forget_receipts
forget-IsUnique s fails now older h = ground arith
forget-IsUnique s works now older h =
    ground
      (arith, keep-IsUnique (λ (r : Receipt). not (ltb (r.received_at + older) now)) s.receipts h)

step-IsUnique :
    (digest : Contents → String) (s : Store) (op : Disk × Op)
    → IsUnique s.receipts
    → IsUnique (step digest s op).receipts
step-IsUnique digest s (disk, admits e m) h = unfold step in admit-IsUnique digest s disk e m h
step-IsUnique digest s (disk, forgets_receipts now older) h =
    unfold step in forget-IsUnique s disk now older h
step-IsUnique digest s (disk, refuses e) h = rw (quiet_receipts digest s disk (refuses e) tt) h
step-IsUnique digest s (disk, remembers m) h = rw (quiet_receipts digest s disk (remembers m) tt) h
step-IsUnique digest s (disk, tells n i w) h = rw (quiet_receipts digest s disk (tells n i w) tt) h
step-IsUnique digest s (disk, forgets_events n o) h =
    rw (quiet_receipts digest s disk (forgets_events n o) tt) h

-- Whatever is asked of the journal and whenever SQLite fails, the two constraints of the receipts
-- hold after it if they held before.
pub run-IsUnique :
    (digest : Contents → String) (s : Store) (ops : List (Disk × Op))
    → IsUnique s.receipts
    → IsUnique (run digest s ops).receipts
unfolding run
run-IsUnique digest s [] h = h
run-IsUnique digest s (op ∷ ops) h =
    run-IsUnique digest (step digest s op) ops (step-IsUnique digest s op h)

-- The operation forgets no receipt.
abbrev pub Remembers : Disk × Op → Type 0
Remembers (disk, forgets_receipts now older) = ⊥
Remembers _ = Unit {0}

known_stays :
    (digest : Contents → String) (s : Store) (op : Disk × Op) (n i : String) (r : Receipt)
    → Remembers op
    → find (has_id n i) s.receipts ≡ some r
    → find (has_id n i) (step digest s op).receipts ≡ some r
known_stays digest s (disk, admits e m) n i r keeps h =
    unfold step in grown (admit_receipts digest s disk e m)
  where
    grown :
        ((admit digest s disk e m).0.receipts ≡ s.receipts)
          ⊎ ((find (has_id e.node_id e.event_id) s.receipts ≡ none)
              × (find (has_position e) s.receipts ≡ none)
              × ((admit digest s disk e m).0.receipts ≡ receipt_of digest e ∷ s.receipts))
        → find (has_id n i) (admit digest s disk e m).0.receipts ≡ some r
    grown (inl same) = rw same h
    grown (inr (new, free, more)) =
        rw more (unfold find in ground (arith, h, new, eq_iff e.node_id n, eq_iff e.event_id i))
known_stays digest s (disk, forgets_receipts now older) n i r keeps h = absurd keeps
known_stays digest s (disk, refuses e) n i r keeps h =
    rw (quiet_receipts digest s disk (refuses e) tt) h
known_stays digest s (disk, remembers m) n i r keeps h =
    rw (quiet_receipts digest s disk (remembers m) tt) h
known_stays digest s (disk, tells a b w) n i r keeps h =
    rw (quiet_receipts digest s disk (tells a b w) tt) h
known_stays digest s (disk, forgets_events a b) n i r keeps h =
    rw (quiet_receipts digest s disk (forgets_events a b) tt) h

known_through :
    (digest : Contents → String) (s : Store) (ops : List (Disk × Op)) (n i : String) (r : Receipt)
    → All Remembers ops
    → find (has_id n i) s.receipts ≡ some r
    → find (has_id n i) (run digest s ops).receipts ≡ some r
unfolding run
known_through digest s [] n i r keeps h = h
known_through digest s (op ∷ ops) n i r keeps h =
    known_through digest (step digest s op) ops n i r keeps.1
      (known_stays digest s op n i r keeps.0 h)

stored_known :
    (digest : Contents → String) (s : Store) (disk : Disk) (e : Entry) (m : Option Mark)
    → (admit digest s disk e m).1 ≡ ok stored
    → find (has_id e.node_id e.event_id) (admit digest s disk e m).0.receipts
      ≡ some (receipt_of digest e)
stored_known digest s disk e m h =
    let (written_so, new, free) = admit_everything digest s disk e m h in
    rw written_so (unfold find in marked_find m)
  where
    marked_find :
        (m : Option Mark)
        → find
            (has_id e.node_id e.event_id)
            (marked
              (written (record s { receipts = receipt_of digest e ∷ s.receipts }) e)
              m).receipts
          ≡ some (receipt_of digest e)
    marked_find none =
        unfold find in ground (arith, eq_iff e.node_id e.node_id, eq_iff e.event_id e.event_id)
    marked_find (some m) =
        unfold find in ground (arith, eq_iff e.node_id e.node_id, eq_iff e.event_id e.event_id)

-- Once an event has been stored, a later one of the same node under the same identifier is never
-- stored again, whatever was asked of the journal in between short of forgetting receipts: it is a
-- duplicate if the digest of its contents is the same, and a reused identifier if not.
pub stored_once :
    (digest : Contents → String) (s : Store) (disk : Disk) (e : Entry) (m : Option Mark)
    (ops : List (Disk × Op)) (later : Disk) (e' : Entry) (m' : Option Mark) (a : Admission)
    → (admit digest s disk e m).1 ≡ ok stored
    → All Remembers ops
    → e'.node_id ≡ e.node_id
    → e'.event_id ≡ e.event_id
    → (admit digest (run digest (admit digest s disk e m).0 ops) later e' m').1 ≡ ok a
    → a ≡ (if digest (contents e) == digest (contents e') then duplicate else id_reused)
stored_once digest s disk e m ops later e' m' a first keeps same_node same_id again =
    let s' = (admit digest s disk e m).0 in
    let stored_here = stored_known digest s disk e m first in
    let r = receipt_of digest e in
    let known = known_through digest s' ops e.node_id e.event_id r keeps stored_here in
    let known' : find (has_id e'.node_id e'.event_id) (run digest s' ops).receipts ≡ some r =
      rw (same_node, same_id) known in
    admit_known digest (run digest s' ops) later e' m' r a known' again
