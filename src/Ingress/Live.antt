-- ===== src/Ingress/Live.antt =====
-- What the door of satellites/ingress.py lets through to a rule, and what it acknowledges.
use sentry_mode.Prelude.{
  ℕ, ◌+◌, ◌≤◌, String, ◌≡◌, refl, ◌↔◌, inl, inr, Bool, true, false, ◌==◌, string_eq, Option, none,
  some, arith, is_none, eq_iff, Option-cases, Bool-cases,
}
use sentry_mode.Source.{ClockStatus, SourceRef, SourceRecord, make_ref, ref_id, is_disabled}
use sentry_mode.Source.Registry
use sentry_mode.Journal.{
  fine, Reason, Mark, Contents, Store, Disk, Result, ok, unavailable, sqlite_error, admit, stored,
}
use sentry_mode.Ingress.{
  NormalizedEvent, SatelliteEvent, Delivery, EventEnvelope, Limits, Hub, Receipt, not_ahead,
  position, classify, write, entry_of, normalized, accept, decided, named, enveloped,
}

-- The conditions under which an event is happening now.
pub record IsLive (limits : Limits) (e : SatelliteEvent) (d : Delivery) (m : Mark) (retained : Bool)
    (now : ℕ) : Type 0 where
  pub fresh : retained ≡ false
  pub no_snapshot : d.initial_state ≡ false
  pub no_replay : d.replayed ≡ false
  pub synced : e.clock_status ≡ ClockStatus.synced
  pub trusted : m.time_state ≡ fine
  pub not_future : e.occurred_at ≤ now + limits.future_tolerance_seconds
  pub recent : now ≤ e.occurred_at + limits.accept_within_seconds
  pub in_order : not_ahead e.sequence m.high_water ≡ false

-- An event is classified with no reason against it exactly when it is happening now: not retained,
-- no opening snapshot, no replay, from a synced clock and a source out of suspicion, neither in the
-- future beyond the tolerance nor older than the window, and ahead of its source's position.
pub classify_exact :
    (limits : Limits) (e : SatelliteEvent) (d : Delivery) (m : Mark) (retained : Bool) (now : ℕ)
    → ((classify limits e d m retained now).1 ≡ none) ↔ IsLive limits e d m retained now
unfolding classify
classify_exact limits e d m retained now = (λ h. ground arith, λ h. ground arith)

no_reason : (o : Option Reason) → is_none o ≡ true → o ≡ none
no_reason o h = ground arith

write_eligible :
    (digest : Contents → String) (s : Store) (disk : Disk) (n : NormalizedEvent) (m : Mark)
    → (write digest s disk n m).1.eligible ≡ true
    → (n.eligible ≡ true)
      × ((admit digest s disk (entry_of n) (some m)).1 ≡ ok stored)
      × ((write digest s disk n m).1.event ≡ some n)
unfolding write
write_eligible digest s disk n m h = ground arith

-- The event that the door makes of a message for a known source.
abbrev pub event_of :
    Hub → String → EventEnvelope → Bool → SourceRef → SourceRecord → Mark → NormalizedEvent
event_of hub node_id v retained ref known m =
    normalized ref known hub.zone_of node_id v hub.now hub.monotonic
      (classify hub.limits v.event v.delivery m retained hub.now)

-- What stands behind an answer that lets an event reach a rule.
pub record Eligible (hub : Hub) (s : Store) (node_id : String) (v : EventEnvelope) (retained : Bool)
    (s' : Store) (r : Receipt) : Type 0 where
  pub ref : SourceRef
  pub known : SourceRecord
  pub m : Mark
  pub own_node : v.event.node_id ≡ node_id
  pub valid_ref : make_ref (some node_id) v.event.source_id ≡ some ref
  pub registered : Registry.get hub.sources (ref_id ref) ≡ some known
  pub enabled : is_disabled known.state ≡ false
  pub placed : position s hub.reading node_id v.event.source_id v.event.boot_id ≡ ok m
  pub live : IsLive hub.limits v.event v.delivery m retained hub.now
  pub written :
      (admit hub.digest s hub.writing
        (entry_of (event_of hub node_id v retained ref known m))
        (some (classify hub.limits v.event v.delivery m retained hub.now).2)).1
      ≡ ok stored
  pub after :
      s'
      ≡ (admit hub.digest s hub.writing
          (entry_of (event_of hub node_id v retained ref known m))
          (some (classify hub.limits v.event v.delivery m retained hub.now).2)).0
  pub passed : r.event ≡ some (event_of hub node_id v retained ref known m)

module _ (hub : Hub) (s : Store) (node_id : String) (v : EventEnvelope) (retained : Bool)
    (s' : Store) (r : Receipt) where
  decided_eligible :
      (ref : SourceRef) (known : SourceRecord) (m : Result Mark)
      → v.event.node_id ≡ node_id
      → make_ref (some node_id) v.event.source_id ≡ some ref
      → Registry.get hub.sources (ref_id ref) ≡ some known
      → is_disabled known.state ≡ false
      → position s hub.reading node_id v.event.source_id v.event.boot_id ≡ m
      → decided hub s node_id v retained ref known m ≡ (s', some r)
      → r.eligible ≡ true
      → Eligible hub s node_id v retained s' r
  decided_eligible ref known unavailable own valid found on placed e h = absurd (ground arith)
  decided_eligible ref known sqlite_error own valid found on placed e h = absurd (ground arith)
  decided_eligible ref known (ok m) own valid found on placed e h =
      let n = event_of hub node_id v retained ref known m in
      let verdict = classify hub.limits v.event v.delivery m retained hub.now in
      let same : (write hub.digest s hub.writing n verdict.2).1 ≡ r = cc in
      let (fine_so, stored_so, passed_so) =
        write_eligible hub.digest s hub.writing n verdict.2 (rw same h) in
      record {
        ref = ref;
        known = known;
        m = m;
        own_node = own;
        valid_ref = valid;
        registered = found;
        enabled = on;
        placed = placed;
        live =
            (classify_exact hub.limits v.event v.delivery m retained hub.now).0
              (no_reason verdict.1 fine_so);
        written = stored_so;
        after = unfold write in cc;
        passed = rw same at passed_so;
      }

  named_eligible :
      (ref : Option SourceRef)
      → v.event.node_id ≡ node_id
      → make_ref (some node_id) v.event.source_id ≡ ref
      → named hub s node_id v retained ref ≡ (s', some r)
      → r.eligible ≡ true
      → Eligible hub s node_id v retained s' r
  named_eligible none own valid e h = absurd (ground arith)
  named_eligible (some ref) own valid e h =
      elim (Option-cases (Registry.get hub.sources (ref_id ref))) [
        | inl missing ↦ absurd (let e' = rw missing at e in ground arith)
        | inr (known, found) ↦ elim (Bool-cases (is_disabled known.state)) [
          | inl off ↦ absurd (let e' = rw (found, off) at e in ground arith)
          | inr on ↦ decided_eligible ref known _ own valid found on refl (rw (found, on) at e) h
        ]
      ]

  enveloped_eligible :
      enveloped hub s node_id retained (some v) ≡ (s', some r)
      → r.eligible ≡ true
      → Eligible hub s node_id v retained s' r
  enveloped_eligible e h = elim (Bool-cases (v.event.node_id == node_id)) [
    | inl own ↦
        named_eligible (make_ref (some node_id) v.event.source_id)
          ((eq_iff v.event.node_id node_id).0 own) refl (rw own at e) h
    | inr other ↦ absurd (let e' = rw other at e in ground arith)
  ]

-- If the door lets an event reach a rule, the message was valid and spoke for its own node, named a
-- source that is registered and not disabled, was happening now by its source's position, was
-- journalled by this call, and is passed on as the hub knows it.
pub accept-Eligible {ℓ} :
    {Document : Type ℓ} (model_validate : Document → Option EventEnvelope) (hub : Hub) (s : Store)
    (node_id : String) (document : Document) (retained : Bool) (s' : Store) (r : Receipt)
    → accept model_validate hub s node_id document retained ≡ (s', some r)
    → r.eligible ≡ true
    → (v : EventEnvelope) × (model_validate document ≡ some v)
      × Eligible hub s node_id v retained s' r
unfolding accept
accept-Eligible model_validate hub s node_id document retained s' r e h =
    elim (Option-cases (model_validate document)) [
      | inl bad ↦ absurd (let e' = rw bad at e in ground arith)
      | inr (v, good) ↦ (v, good, enveloped_eligible hub s node_id v retained s' r (rw good at e) h)
    ]
