-- ===== src/Scheduler/Order.antt =====
-- In which order, how far apart and how fairly the scheduler serves frames.
use sentry_mode.Prelude.{
  ℕ, String, ◌≡◌, sym, ◌∙◌, inl, inr, true, false, Option, none, some, List, [], ◌∷◌, ◌==◌,
  string_eq, nat_eq, arith, Bool-cases, Option-cases, eq_iff,
}
use sentry_mode.Prelude.Dict.{Dict, lookup, lookup-insert}
use sentry_mode.Scheduler.{Settings, FramePacket, Source, Scheduler, source_or_new, idle, is_served}
use sentry_mode.Scheduler.Turns.{
  Op, step, run, IsDict, insert-IsDict, lookup-all_idle, all_idle-IsDict,
}
use sentry_mode.Scheduler.Served.{
  Local, keeps, slots, serves, Effect, untouched, cleared, updates, step-Effect,
}

-- A frame that waits is one of its source, after all that the source was served.
pub record Tidy (d : Dict Source) : Type 0 where
  pub dict : IsDict d
  pub fresh :
      (i : String) (s : Source) (p : FramePacket)
      → lookup i d ≡ some s
      → s.pending ≡ some p
      → (is_served p s.last_sequence ≡ false) × (p.source_id ≡ i)

-- The same of one source.
abbrev IsFresh : String → Source → Type 0
IsFresh i s =
    (p : FramePacket)
    → s.pending ≡ some p
    → (is_served p s.last_sequence ≡ false) × (p.source_id ≡ i)

Local-IsFresh : (i : String) (s s' : Source) → Local i s s' → IsFresh i s → IsFresh i s'
Local-IsFresh i s s' (keeps last (inl slot)) f p e = rw last (f p (sym slot ∙ e))
Local-IsFresh i s s' (keeps last (inr slot)) f p e = absurd (ground (arith, slot, e))
Local-IsFresh i s s' (slots q last slot new own) f p e =
    let same : q ≡ p = ground (arith, slot, e) in rw (last, ← same) (new, own)
Local-IsFresh i s s' (serves q held slot last) f p e = absurd (ground (arith, slot, e))

source_or_new-IsFresh :
    (one : ℕ) (d : Dict Source) (i : String) → Tidy d → IsFresh i (source_or_new one (lookup i d))
source_or_new-IsFresh one d i t = elim (Option-cases (lookup i d)) [
  | inl missing ↦ rw missing (λ p e. absurd (ground (arith, e)))
  | inr (s, there) ↦ rw there (λ p e. t.fresh i s p there e)
]

pub Effect-Tidy : (one : ℕ) (d d' : Dict Source) → Effect one d d' → Tidy d → Tidy d'
Effect-Tidy one d d' (untouched same) t = rw same t
Effect-Tidy one d d' (cleared same) t = rw same record {
  dict = all_idle-IsDict d t.dict;
  fresh = λ i s p there e. elim (lookup-all_idle i d) [
    | inl (_, gone) ↦ absurd (ground (arith, gone, there))
    | inr (s', _, now_idle) ↦ absurd (ground (arith, now_idle, there, e))
  ];
}
Effect-Tidy one d d' (updates i s' l same) t = rw same record {
  dict = insert-IsDict i s' d t.dict;
  fresh = λ j s p there e. elim (Bool-cases (i == j)) [
    | inl here ↦
        let own : s' ≡ s = ground (arith, lookup-insert i j s' d, there, here) in
        let f = Local-IsFresh i _ s' l (source_or_new-IsFresh one d i t) p (rw own e) in
        ground (arith, rw own at f, here, eq_iff i j)
    | inr other ↦ t.fresh j s p (ground (arith, lookup-insert i j s' d, there, other)) e
  ];
}

pub run-Tidy :
    (c : Settings) (s : Scheduler) (os : List Op) → Tidy s.sources → Tidy (run c s os).sources
unfolding run
run-Tidy c s [] t = t
run-Tidy c s (o ∷ os) t =
    run-Tidy c (step c s o) os (Effect-Tidy c.one s.sources _ (step-Effect c s o t.dict) t)

pub new-Tidy : Tidy []
unfolding IsDict lookup
new-Tidy = record { dict = tt; fresh = λ i s p there e. absurd (ground (arith, there)) }

-- The source has served the frame, or one after it.
pub record Past (p : FramePacket) (d : Dict Source) : Type 0 where
  pub source : Source
  pub there : lookup p.source_id d ≡ some source
  pub behind : is_served p source.last_sequence ≡ true

is_served_trans :
    (p q : FramePacket) (last : Option (ℕ × ℕ))
    → is_served p last ≡ true
    → is_served q last ≡ false
    → is_served p (some (q.epoch, q.sequence)) ≡ true
unfolding is_served
is_served_trans p q none h h' = absurd (ground (arith, h))
is_served_trans p q (some (epoch, sequence)) h h' = ground (arith, h, h')

Local-behind :
    (p : FramePacket) (i : String) (s s' : Source)
    → Local i s s'
    → IsFresh i s
    → is_served p s.last_sequence ≡ true
    → is_served p s'.last_sequence ≡ true
Local-behind p i s s' (keeps last slot) f h = rw last h
Local-behind p i s s' (slots q last slot new own) f h = rw last h
Local-behind p i s s' (serves q held slot last) f h =
    rw last (is_served_trans p q s.last_sequence h (f q held).0)

Effect-Past :
    (one : ℕ) (p : FramePacket) (d d' : Dict Source)
    → Effect one d d'
    → Tidy d
    → Past p d
    → Past p d'
Effect-Past one p d d' (untouched same) t h = rw same h
Effect-Past one p d d' (cleared same) t h = elim (lookup-all_idle p.source_id d) [
  | inl (gone, _) ↦ (let there = h.there in absurd (ground (arith, gone, there)))
  | inr (s, there, now_idle) ↦
      let was : s ≡ h.source = (let there' = h.there in ground (arith, there, there')) in
      rw same record { source = idle s; there = now_idle; behind = rw was h.behind }
]
Effect-Past one p d d' (updates i s' l same) t h = elim (Bool-cases (i == p.source_id)) [
  | inr other ↦ rw same record {
    source = h.source;
    there = (let there = h.there in ground (arith, lookup-insert i p.source_id s' d, there, other));
    behind = h.behind;
  }
  | inl here ↦
      let name : i ≡ p.source_id = (eq_iff i p.source_id).0 here in
      let found : lookup i d ≡ some h.source = rw name h.there in
      rw same record {
        source = s';
        there = ground (arith, lookup-insert i p.source_id s' d, here);
        behind =
            Local-behind p i h.source s' (rw found at l) (λ q e. t.fresh i h.source q found e)
              h.behind;
      }
]

pub run-Past :
    (c : Settings) (p : FramePacket) (s : Scheduler) (os : List Op)
    → Tidy s.sources
    → Past p s.sources
    → Past p (run c s os).sources
unfolding run
run-Past c p s [] t h = h
run-Past c p s (o ∷ os) t h =
    let e = step-Effect c s o t.dict in
    run-Past c p (step c s o) os (Effect-Tidy c.one s.sources _ e t)
      (Effect-Past c.one p s.sources _ e t h)
