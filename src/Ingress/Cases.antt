-- ===== src/Ingress/Cases.antt =====
-- A call of `accept` lets an error of SQLite through, refuses the message, or journals an event: what
-- holds of all three holds of the call.
use sentry_mode.Prelude.{
  String, ◌≡◌, refl, Bool, Option, none, some, eq_iff, Option-cases, Bool-cases, ◌==◌, string_eq,
  inl, inr,
}
use sentry_mode.Source.{SourceRef, SourceRecord, make_ref, is_disabled}
use sentry_mode.Journal.{Classification, Reason, Mark, Store, Result, ok, unavailable, sqlite_error}
use sentry_mode.Ingress.{
  EventEnvelope, Hub, Receipt, refused, classify, position, normalized, write, accept, decided,
  registered, named, enveloped,
}

module _ (hub : Hub) (s : Store) (node_id : String) (retained : Bool)
    (P : Store → Option Receipt → Type 0) (on_error : P s none)
    (on_refusal : (c : Classification) (reason : Reason) (settle : Bool)
      → P s (some (refused c reason settle))) where
  abbrev Holds : Store × Option Receipt → Type 0
  Holds x = P x.0 x.1

  -- What a journalled event comes from.
  abbrev pub Written : EventEnvelope → Type 0
  Written v =
      (ref : SourceRef) (known : SourceRecord) (m : Mark)
      → v.event.node_id ≡ node_id
      → make_ref (some node_id) v.event.source_id ≡ some ref
      → position s hub.reading node_id v.event.source_id v.event.boot_id ≡ ok m
      → let verdict = classify hub.limits v.event v.delivery m retained hub.now in
        let event = normalized ref known hub.zone_of node_id v hub.now hub.monotonic verdict in
        let w = write hub.digest s hub.writing event verdict.2 in P w.0 (some w.1)

  module _ (v : EventEnvelope) (on_write : Written v) where
    decided_cases :
        (ref : SourceRef) (known : SourceRecord) (m : Result Mark)
        → v.event.node_id ≡ node_id
        → make_ref (some node_id) v.event.source_id ≡ some ref
        → position s hub.reading node_id v.event.source_id v.event.boot_id ≡ m
        → Holds (decided hub s node_id v retained ref known m)
    decided_cases ref known unavailable own valid placed = on_refusal _ _ _
    decided_cases ref known sqlite_error own valid placed = on_error
    decided_cases ref known (ok m) own valid placed = on_write ref known m own valid placed

    registered_cases :
        (ref : SourceRef) (known : Option SourceRecord)
        → v.event.node_id ≡ node_id
        → make_ref (some node_id) v.event.source_id ≡ some ref
        → Holds (registered hub s node_id v retained ref known)
    registered_cases ref none own valid = on_refusal _ _ _
    registered_cases ref (some known) own valid = elim (Bool-cases (is_disabled known.state)) [
      | inl off ↦ rw off (on_refusal _ _ _)
      | inr on ↦ rw on (decided_cases ref known _ own valid refl)
    ]

    named_cases :
        (ref : Option SourceRef)
        → v.event.node_id ≡ node_id
        → make_ref (some node_id) v.event.source_id ≡ ref
        → Holds (named hub s node_id v retained ref)
    named_cases none own valid = on_refusal _ _ _
    named_cases (some ref) own valid = registered_cases ref _ own valid

    enveloped_cases : Holds (enveloped hub s node_id retained (some v))
    enveloped_cases = elim (Bool-cases (v.event.node_id == node_id)) [
      | inl own ↦ rw own (named_cases _ ((eq_iff v.event.node_id node_id).0 own) refl)
      | inr other ↦ rw other (on_refusal _ _ _)
    ]

  pub accept_cases {ℓ} :
      {Document : Type ℓ} (model_validate : Document → Option EventEnvelope) (document : Document)
      → ((v : EventEnvelope) → model_validate document ≡ some v → Written v)
      → P
          (accept model_validate hub s node_id document retained).0
          (accept model_validate hub s node_id document retained).1
  unfolding accept
  accept_cases model_validate document on_write = elim (Option-cases (model_validate document)) [
    | inl bad ↦ rw bad (on_refusal _ _ _)
    | inr (v, good) ↦ rw good (enveloped_cases v (on_write v good))
  ]
