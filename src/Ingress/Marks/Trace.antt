-- ===== src/Ingress/Marks/Trace.antt =====
-- The door over a sequence of messages, and the sequence numbers of what it lets through.
use mathlib.Core.Path.{subst}
use sentry_mode.Prelude.{
  ℕ, ◌<◌, String, ◌≡◌, refl, sym, ap, ◌∙◌, inl, inr, Bool, true, Option, some, List, [], ◌∷◌, arith,
  string_eq, All,
}
use sentry_mode.Prelude.Dict.{lookup}
use sentry_mode.Journal.{
  admit, write_mark, Disk, Entry, Contents, stored, Mark, Store, ok, source_key,
}
use sentry_mode.Ingress.{EventEnvelope, Hub, Receipt, position, ahead, accept}
use sentry_mode.Ingress.Cases.{accept_cases, Written}
use sentry_mode.Ingress.Live.{classify_exact, Eligible, accept-Eligible}
use sentry_mode.Ingress.Marks.{
  Reached, MarksFiled, classify_mark, ahead_max, classify_high, classify_live, position_cases,
}
use sentry_mode.Ingress.Marks.Order.{position_key, write-MarksFiled, filed_Reached, write-Reached}

-- One message at the door: the hub at that moment, the sender, the document, and whether the broker
-- had retained it.
pub record Call {ℓ} (Document : Type ℓ) : Type ℓ where
  pub hub : Hub
  pub node_id : String
  pub document : Document
  pub retained : Bool

module _ {ℓ} {Document : Type ℓ} (model_validate : Document → Option EventEnvelope) where
  abbrev pub answer : Store → Call Document → Store × Option Receipt
  answer s c = accept model_validate c.hub s c.node_id c.document c.retained

  unfoldable pub after_calls : Store → List (Call Document) → Store
  after_calls s [] = s
  after_calls s (c ∷ cs) = after_calls (answer s c).0 cs

  -- A message for the source of key `k` is from boot `b`.
  abbrev pub Steady : String → String → Call Document → Type 0
  Steady k b c =
      (v : EventEnvelope)
      → model_validate c.document ≡ some v
      → source_key c.node_id v.event.source_id ≡ k
      → v.event.boot_id ≡ b

  stored_marks :
      (digest : Contents → String) (s : Store) (disk : Disk) (e : Entry) (m : Mark)
      → (admit digest s disk e (some m)).1 ≡ ok stored
      → (admit digest s disk e (some m)).0.marks ≡ write_mark s.marks m
  unfolding admit
  stored_marks digest s disk e m h = ground arith

  answer-MarksFiled : (s : Store) (c : Call Document) → MarksFiled s → MarksFiled (answer s c).0
  answer-MarksFiled s c filed =
      accept_cases c.hub s c.node_id c.retained (λ s' _. MarksFiled s') filed (λ _ _ _. filed)
        model_validate c.document
        (λ v good ref known m own valid placed. write-MarksFiled _ s _ _ _ filed)

  answer-Reached :
      (s : Store) (c : Call Document) (k b : String) (h : ℕ)
      → MarksFiled s
      → Steady k b c
      → Reached k b h s
      → Reached k b h (answer s c).0
  answer-Reached s c k b h filed steady was =
      accept_cases c.hub s c.node_id c.retained (λ s' _. Reached k b h s') was (λ _ _ _. was)
        model_validate c.document on_write
    where
      on_key :
          (v : EventEnvelope) (m : Mark)
          → model_validate c.document ≡ some v
          → position s c.hub.reading c.node_id v.event.source_id v.event.boot_id ≡ ok m
          → source_key c.node_id v.event.source_id ≡ k
          → (lookup k s.marks ≡ some m) × (m.boot_id ≡ b)
      on_key v m good placed key = elim (position_cases s _ _ _ _ m placed) [
        | inl (there, same) ↦ (rw key at there, same ∙ steady v good key)
        | inr (blank, same, node, source, gone) ↦
            absurd (gone was.m (rw key was.filed) (was.boot ∙ sym (steady v good key)))
      ]

      on_write :
          (v : EventEnvelope)
          → model_validate c.document ≡ some v
          → Written c.hub s c.node_id c.retained (λ s' _. Reached k b h s') was (λ _ _ _. was) v
      on_write v good ref known m own valid placed =
          let (nodes, sources, boots) =
            classify_mark c.hub.limits v.event v.delivery m c.retained c.hub.now in
          let (key, boot) =
            position_key s c.hub.reading c.node_id v.event.source_id v.event.boot_id m filed
              placed in
          write-Reached _ s _ _ m _ k b h was (rw (nodes, sources) refl)
            (λ mine.
              let (found, same) = on_key v m good placed (sym key ∙ mine) in (found, boots ∙ same))
            (classify_high c.hub.limits v.event v.delivery m c.retained c.hub.now)

  after-Reached :
      (s : Store) (cs : List (Call Document)) (k b : String) (h : ℕ)
      → MarksFiled s
      → All (Steady k b) cs
      → Reached k b h s
      → Reached k b h (after_calls s cs) × MarksFiled (after_calls s cs)
  unfolding after_calls
  after-Reached s [] k b h filed steady was = (was, filed)
  after-Reached s (c ∷ cs) k b h filed (steady, rest) was =
      after-Reached (answer s c).0 cs k b h (answer-MarksFiled s c filed) rest
        (answer-Reached s c k b h filed steady was)

  Eligible-Reached :
      (s s' : Store) (c : Call Document) (v : EventEnvelope) (r : Receipt)
      → MarksFiled s
      → Eligible c.hub s c.node_id v c.retained s' r
      → Reached (source_key c.node_id v.event.source_id) v.event.boot_id v.event.sequence s'
  Eligible-Reached s s' c v r filed e =
      let (nodes, sources, boots) =
        classify_mark c.hub.limits v.event v.delivery e.m c.retained c.hub.now in
      let (key, boot) =
        position_key s c.hub.reading c.node_id v.event.source_id v.event.boot_id e.m filed
          e.placed in
      filed_Reached _ _ _ (ahead e.m.high_water v.event.sequence) s s' _
        (ap (λ (x : Store). x.marks) e.after ∙ stored_marks _ s _ _ _ e.written)
        (rw (nodes, sources) key) (boots ∙ boot)
        (classify_live c.hub.limits v.event v.delivery e.m c.retained c.hub.now
          ((classify_exact c.hub.limits v.event v.delivery e.m c.retained c.hub.now).1 e.live))
        (ahead_max e.m.high_water v.event.sequence).1

  Eligible-ahead :
      (s s' : Store) (c : Call Document) (v : EventEnvelope) (r : Receipt) (h : ℕ)
      → Eligible c.hub s c.node_id v c.retained s' r
      → Reached (source_key c.node_id v.event.source_id) v.event.boot_id h s
      → h < v.event.sequence
  Eligible-ahead s s' c v r h e was = elim (position_cases s _ _ _ _ e.m e.placed) [
    | inl (there, same) ↦
        let one : was.m ≡ e.m = cc (was.filed, there) in
        let high : e.m.high_water ≡ some was.at =
          subst (λ (x : Mark). x.high_water ≡ some was.at) one was.high in
        let live = e.live.in_order in let beyond = was.beyond in ground (arith, high)
    | inr (blank, same, node, source, gone) ↦ absurd (gone was.m was.filed was.boot)
  ]

  -- Events of one source from one boot that are let through to a rule have growing sequence
  -- numbers: if the door lets one through and later lets another through, the later one's number is
  -- greater, whatever the door was given in between short of an event of that source from another
  -- boot. The journal's marks are filed under their own keys at the start.
  pub live_in_order :
      (s s' s'' : Store) (first last : Call Document) (between : List (Call Document))
      (v w : EventEnvelope) (r r' : Receipt)
      → MarksFiled s
      → model_validate first.document ≡ some v
      → model_validate last.document ≡ some w
      → last.node_id ≡ first.node_id
      → w.event.source_id ≡ v.event.source_id
      → w.event.boot_id ≡ v.event.boot_id
      → All (Steady (source_key first.node_id v.event.source_id) v.event.boot_id) between
      → answer s first ≡ (s', some r)
      → r.eligible ≡ true
      → answer (after_calls s' between) last ≡ (s'', some r')
      → r'.eligible ≡ true
      → v.event.sequence < w.event.sequence
  live_in_order s s' s'' first last between v w r r' filed good good' node source boot steady e
        passed e' passed' =
      let (x, gx, ex) =
        accept-Eligible model_validate first.hub s first.node_id first.document first.retained s' r
          e passed in
      let (y, gy, ey) =
        accept-Eligible model_validate last.hub (after_calls s' between) last.node_id last.document
          last.retained s'' r' e' passed' in
      let a : x ≡ v = cc in
      let b : y ≡ w = cc in
      let ex' = rw a at ex in
      let ey' = rw b at ey in
      let start = Eligible-Reached s s' first v r filed ex' in
      let filed' : MarksFiled s' =
        subst (λ (p : Store × Option Receipt). MarksFiled p.0) e
          (answer-MarksFiled s first filed) in
      let (kept, _) = after-Reached s' between _ _ _ filed' steady start in
      Eligible-ahead (after_calls s' between) s'' last w r' _ ey' (rw (node, source, boot) kept)
