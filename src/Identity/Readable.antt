-- ===== src/Identity/Readable.antt =====
-- What a process that opens the file finds after a call.
use sentry_mode.Prelude.{
  ℕ, ◌≤◌, String, ◌≡◌, ◌↔◌, refl, sym, ◌∙◌, inl, inr, Bool, true, Option, none, some, [], ◌∷◌,
  arith, string_eq, option_eq, nat_eq, Bool-cases, all, eq_iff,
}
use sentry_mode.Prelude.Dict.{Dict, lookup, insert, lookup-insert}
use sentry_mode.Node.{
  NodeDocument, NodeRecord, status_eq, ok, Crypto, is_valid_record, is_valid, size, within,
  if_given,
}
use sentry_mode.Identity.{
  Memory, Credentials, refresh, require, authenticate, revoke, approve_change, revoke_change, load,
  open_registry, revoked_for, approved_as, approve,
}
use sentry_mode.Identity.Calls.{
  Op, Call, World, step, after, Stamped, Later, update-Written, counted,
}
use sentry_mode.Identity.Kept.{Holds}
use sentry_mode.Identity.Histories.{written-Holds, Holds-refresh}
use sentry_mode.Identity.Answers.{authenticate-Vouches, Vouches, Agrees}
use sentry_mode.Identity.Revoked.{replaced-Replaces, approved-Replaces}

all-insert :
    (f : String × NodeRecord → Bool) (k : String) (r : NodeRecord) (d : Dict NodeRecord)
    → ((j j' : String) (s : NodeRecord) → f (j, s) ≡ f (j', s))
    → all f d ≡ true
    → all f (insert k r d) ≡ f (k, r)
unfolding insert
all-insert f k r [] by_record h = ground arith
all-insert f k r ((j, s) ∷ d) by_record h =
    ground (arith, all-insert f k r d by_record, by_record j k r, h)

is_valid-insert :
    (d d' : NodeDocument) (k : String) (r : NodeRecord)
    → is_valid d ≡ true
    → d'.nodes ≡ insert k r d.nodes
    → is_valid (counted d') ≡ is_valid_record r
unfolding is_valid
is_valid-insert d d' k r h e =
    rw e (all-insert (λ (k, r). is_valid_record r) k r d.nodes (λ _ _ _. refl) h)

all-lookup :
    (k : String) (r : NodeRecord) (d : Dict NodeRecord)
    → all (λ (k, r). is_valid_record r) d ≡ true
    → lookup k d ≡ some r
    → is_valid_record r ≡ true
unfolding lookup
all-lookup k r [] h there = absurd (ground (arith, there))
all-lookup k r ((j, s) ∷ d) h there = ground (arith, all-lookup k r d, h, there)

is_valid-lookup :
    (d : NodeDocument) (k : String) (r : NodeRecord)
    → is_valid d ≡ true
    → lookup k d.nodes ≡ some r
    → is_valid_record r ≡ true
unfolding is_valid
is_valid-lookup d k r h there = all-lookup k r d.nodes h there

-- A file that was just opened is as it was read.
open_registry-valid :
    (d x : NodeDocument) (stamp : ℕ)
    → (open_registry (some (d, stamp))).1 ≡ ok x
    → (is_valid d ≡ true)
      × ((open_registry (some (d, stamp))).0 ≡ record { document = d; read_at = some stamp })
unfolding open_registry load
open_registry-valid d x stamp h = (ground (arith, h), ground (arith, h))

valid-open_registry :
    (d : NodeDocument) (stamp : ℕ)
    → ((x : NodeDocument) × ((open_registry (some (d, stamp))).1 ≡ ok x)) ↔ (is_valid d ≡ true)
unfolding open_registry load
valid-open_registry d stamp = (λ h. ground (arith, h.1), λ h. (d, rw h refl))

refresh-same :
    (d : NodeDocument) (stamp : ℕ)
    → refresh (record { document = d; read_at = some stamp }) (some (d, stamp))
      ≡ (record { document = d; read_at = some stamp }, ok d)
unfolding refresh
refresh-same d stamp = ground (arith, option_eq.agrees (some stamp) (some stamp))

revoked-is_valid_record :
    (reason : Option String) (now : ℕ) (r : NodeRecord)
    → is_valid_record r ≡ true
    → is_valid_record (revoked_for reason now r) ≡ if_given (within 0 200) reason
unfolding is_valid_record
revoked-is_valid_record reason now r h = ground (arith, h)

short_reason :
    (reason : Option String)
    → (if_given (within 0 200) reason ≡ true) ↔ ((s : String) → reason ≡ some s → size s ≤ 200)
short_reason none = (λ h s e. absurd (ground (arith, e)), λ h. refl)
short_reason (some s) = (
  λ h s' e. (let same : s ≡ s' = ground (arith, e) in rw (← same) (ground (arith, h))),
  λ h. (let l = h s refl in ground (arith, l)),
)

-- A process that has just opened the file revokes a node, and the call returns: the file that it has
-- written can be opened again exactly when the reason, if there is one, has at most 200 characters.
pub revoke_readable :
    (d x : NodeDocument) (stamp : ℕ) (written : Option ℕ) (n : String) (reason : Option String)
    (now : ℕ) (r : NodeRecord)
    → (open_registry (some (d, stamp))).1 ≡ ok x
    → (revoke (open_registry (some (d, stamp))).0 (some (d, stamp)) written n reason now).result
      ≡ ok r
    → ((y : NodeDocument) × ((open_registry
            (revoke
              (open_registry (some (d, stamp))).0
              (some (d, stamp))
              written
              n
              reason
              now).file).1
          ≡ ok y))
      ↔ ((s : String) → reason ≡ some s → size s ≤ 200)
unfolding revoke revoke_change require
revoke_readable d x stamp written n reason now r opened done =
    let (valid, same) = open_registry-valid d x stamp opened in
    let m : Memory = record { document = d; read_at = some stamp } in
    let g =
      update-Written (revoke_change n reason now) m (some (d, stamp)) written r (rw same at done) in
    let (old, made, change) =
      replaced-Replaces n d g.document (revoked_for reason now) r
        (rw (refresh-same d stamp) at g.changed) in
    let fine = is_valid-lookup d n old valid change.was in
    let same_test : is_valid (counted g.document) ≡ if_given (within 0 200) reason =
      is_valid-insert d g.document n _ valid change.nodes
      ∙ revoked-is_valid_record reason now old fine in
    let (to, from) = valid-open_registry (counted g.document) g.stamp in
    rw (same, g.stands)
      (
        λ found. (short_reason reason).0 (sym same_test ∙ to found),
        λ short. from (same_test ∙ (short_reason reason).1 short),
      )

refresh-valid :
    (m : Memory) (d : NodeDocument) (stamp : ℕ)
    → is_valid d ≡ true
    → (x : NodeDocument) × ((refresh m (some (d, stamp))).1 ≡ ok x)
unfolding refresh load
refresh-valid m d stamp h = elim (Bool-cases (option_eq.is_same m.read_at (some stamp))) [
  | inl same ↦ (m.document, rw same refl)
  | inr other ↦ (d, rw (other, h) refl)
]

abbrev pub lets_in : String → Option ℕ → String → Option String → Option String → ℕ → Call
lets_in p written n certificate pinned now = record {
  caller = p;
  op = Op.approves n certificate pinned now;
  written = written;
}

-- The fingerprint is filed with the approval.
approved-Vouches :
    (d : NodeDocument) (n fingerprint : String) (now : ℕ) (c : Credentials) (old r : NodeRecord)
    → r ≡ approved_as fingerprint now old
    → lookup n d.nodes ≡ some r
    → Agrees c.username n
    → Agrees c.client_id n
    → ((a : String) → c.certificate_fingerprint ≡ some a → r.fingerprint ≡ some a)
    → Vouches d n c r
approved-Vouches d n fingerprint now c old r made there name id certificate = record {
  filed = there;
  approves = rw made refl;
  username = name;
  client_id = id;
  pinned = (
    fingerprint,
    rw made refl,
    λ a e. (let same = certificate a e in ground (arith, made, same)),
  );
}

-- Where the file is written with a later stamp than those before: once `approve` has returned a record,
-- in whichever process, every process that shares the file accepts the node by that record at its next
-- question, from a connection whose names and certificate are not others; if the file can be opened.
pub approved_heard :
    (crypto : Crypto) (last : ℕ) (w : World) (p q n : String) (certificate pinned : Option String)
    (now : ℕ) (written : Option ℕ) (c : Credentials) (r : NodeRecord) (y : NodeDocument)
    → Stamped last w
    → Later last written
    → (approve crypto (w.memory p) w.file written n certificate pinned now).result ≡ ok r
    → (open_registry (step crypto w (lets_in p written n certificate pinned now)).file).1 ≡ ok y
    → Agrees c.username n
    → Agrees c.client_id n
    → ((a : String) → c.certificate_fingerprint ≡ some a → r.fingerprint ≡ some a)
    → (let w' = step crypto w (lets_in p written n certificate pinned now) in
        (authenticate (w'.memory q) w'.file n c).result ≡ ok r)
unfolding Later after approve
approved_heard crypto last w p q n certificate pinned now written c r y s later done opens name id
      same =
    let call = lets_in p written n certificate pinned now in
    let w' = step crypto w call in
    let d = (refresh (w.memory p) w.file).0.document in
    let g =
      update-Written (approve_change crypto n certificate pinned now) (w.memory p) w.file written r
        done in
    let (old, fingerprint, made, change) =
      approved-Replaces crypto n certificate pinned now d g.document r g.changed in
    let there : lookup n g.document.nodes ≡ some r =
      rw change.nodes (ground (arith, lookup-insert n n r d.nodes, eq_iff n n)) in
    let h : Holds (λ d. lookup n d.nodes ≡ some r) w' =
      written-Holds crypto _ last g.stamp w call (counted g.document) s (later g.stamp g.done)
        g.stands g.remembers there in
    let (valid, _) = valid-open_registry h.document h.stamp in
    let (z, read) =
      refresh-valid (w'.memory q) h.document h.stamp (valid (y, rw h.there at opens)) in
    let read' : (refresh (w'.memory q) w'.file).1 ≡ ok z = rw h.there read in
    (authenticate-Vouches (w'.memory q) w'.file n c r).1 (
      (z, read'),
      approved-Vouches _ n fingerprint now c old r made
          (Holds-refresh (λ d. lookup n d.nodes ≡ some r) w' q z h read') name id same,
    )
