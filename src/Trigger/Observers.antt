-- ===== src/Trigger/Observers.antt =====
-- What a presence rule of sentry/triggers.py concludes from its observers.
use mathlib.Core.Path.{fun_ext}
use sentry_mode.Prelude.{
  String, ap, ◌∙◌, ◌≡◌, refl, sym, ◌↔◌, ◌≢◌, ◌⊎◌, inl, inr, Bool, true, false, not, ◌&&◌, ◌||◌,
  List, [], ◌∷◌, arith, ◌==◌, ◌!=◌, string_eq, if◌then◌else◌, contains, map, all, Bool-cases, All,
  decide_eq_iff,
}
use sentry_mode.Prelude.Dict.{lookup, insert, lookup-insert}
use sentry_mode.Rule.{
  Presence, present, absent, presence_eq, PresenceStateTrigger, Presence-discrete,
}
use sentry_mode.Trigger.{
  Observed, RuleState, watching, said, said_by, combined, conclude, presence_fires, initial,
}

-- One of the names satisfies the predicate.
abbrev pub Some : (String → Type 0) → List String → Type 0
Some P [] = ⊥
Some P (x ∷ xs) = P x ⊎ Some P xs

contains-Some :
    (f : String → Presence) (xs : List String)
    → (contains present (map f xs) ≡ true) ↔ Some (λ x. f x ≡ present) xs
contains-Some f [] = ground arith
contains-Some f (x ∷ xs) =
    ground (arith, contains-Some f xs, decide_eq_iff Presence-discrete present (f x))

all-All :
    (f : String → Presence) (xs : List String)
    → (all (λ p. p == absent) (map f xs) ≡ true) ↔ All (λ x. f x ≡ absent) xs
all-All f [] = ground arith
all-All f (x ∷ xs) = ground (arith, all-All f xs, decide_eq_iff Presence-discrete (f x) absent)

not_both :
    (f : String → Presence) (xs : List String)
    → Some (λ x. f x ≡ present) xs
    → All (λ x. f x ≡ absent) xs
    → ⊥
not_both f [] s a = s
not_both f (x ∷ xs) (inl p) a = cc (p, a.0)
not_both f (x ∷ xs) (inr s) a = not_both f xs s a.1

-- What the observers' words add up to: present as soon as one says so, absent exactly when all do.
pub combined_exact :
    (f : String → Presence) (xs : List String)
    → ((combined (map f xs) ≡ present) ↔ Some (λ x. f x ≡ present) xs)
      × ((combined (map f xs) ≡ absent) ↔ All (λ x. f x ≡ absent) xs)
unfolding combined
combined_exact f xs = ground (arith, contains-Some f xs, all-All f xs, not_both f xs)

-- An event that a presence rule reads.
abbrev pub concerns : PresenceStateTrigger → Observed → Bool
concerns t e = contains e.ref_id (watching t) && e.kind == t.kind

-- What an observer last said, in a history with the newest event first.
unfoldable pub last_said : PresenceStateTrigger → List Observed → String → Presence
last_said t [] one = Presence.unknown
last_said t (e ∷ h) one = if concerns t e && e.ref_id == one then said e else last_said t h one

-- The rule's state after a history, newest event first.
unfoldable pub state_after : PresenceStateTrigger → List Observed → RuleState
state_after t [] = initial
state_after t (e ∷ h) = (presence_fires t (state_after t h) e).0

-- Where the device stands by the last words of the observers.
abbrev pub status : PresenceStateTrigger → List Observed → Presence
status t h = combined (map (last_said t h) (watching t))

seen-last_said :
    (t : PresenceStateTrigger) (h : List Observed) (one : String)
    → said_by (state_after t h).seen one ≡ last_said t h one
unfolding state_after last_said said_by presence_fires lookup
seen-last_said t [] one = refl
seen-last_said t (e ∷ h) one =
    ground
      (arith, seen-last_said t h one, lookup-insert e.ref_id one (said e) (state_after t h).seen)

unknown-combined :
    (t : PresenceStateTrigger) → combined (map (last_said t []) (watching t)) ≡ Presence.unknown
unfolding combined last_said
unknown-combined t = no_absent t.source_id t.observers
  where
    no_present :
        (xs : List String) → contains present (map (λ (x : String). Presence.unknown) xs) ≡ false
    no_present [] = refl
    no_present (x ∷ xs) =
        ground (arith, no_present xs, decide_eq_iff Presence-discrete present Presence.unknown)

    no_absent :
        (x : String) (xs : List String)
        → combined (map (λ (y : String). Presence.unknown) (x ∷ xs)) ≡ Presence.unknown
    no_absent x xs =
        ground (arith, no_present (x ∷ xs), decide_eq_iff Presence-discrete Presence.unknown absent)

module _ (t : PresenceStateTrigger) (h : List Observed) (e : Observed) where
  said_by-insert :
      concerns t e ≡ true
      → (one : String)
      → said_by (insert e.ref_id (said e) (state_after t h).seen) one ≡ last_said t (e ∷ h) one
  unfolding said_by last_said
  said_by-insert mine one =
      ground
        (arith, seen-last_said t h one, lookup-insert e.ref_id one (said e) (state_after t h).seen)

  fires_concerned :
      concerns t e ≡ true
      → presence_fires t (state_after t h) e ≡ (
        record (state_after t h) {
          seen = insert e.ref_id (said e) (state_after t h).seen;
          presence = status t (e ∷ h);
        },
        status t (e ∷ h) != (state_after t h).presence && status t (e ∷ h) == t.state,
      )
  unfolding presence_fires
  fires_concerned mine =
      let s = state_after t h in
      let seen = insert e.ref_id (said e) s.seen in
      let meant : (not (contains e.ref_id (watching t)) || e.kind != t.kind) ≡ false =
        ground arith in
      rw (meant, presence_fires)
        (ap (λ f. conclude t s seen (combined (map f (watching t))))
          (fun_ext (said_by-insert mine)))

  fires_other :
      concerns t e ≡ false → presence_fires t (state_after t h) e ≡ (state_after t h, false)
  unfolding presence_fires
  fires_other other = ground arith

  status_other : concerns t e ≡ false → status t (e ∷ h) ≡ status t h
  status_other other = ap (λ f. combined (map f (watching t))) (fun_ext unchanged)
    where
      unchanged : (one : String) → last_said t (e ∷ h) one ≡ last_said t h one
      unchanged one = unfold last_said in ground arith

one_more :
    (t : PresenceStateTrigger) (h : List Observed) (e : Observed)
    → (state_after t h).presence ≡ status t h
    → (state_after t (e ∷ h)).presence ≡ status t (e ∷ h)
unfolding state_after
one_more t h e ih = elim (Bool-cases (concerns t e)) [
  | inl mine ↦ ap (λ r. r.0.presence) (fires_concerned t h e mine)
  | inr other ↦
      ap (λ r. r.0.presence) (fires_other t h e other) ∙ ih ∙ sym (status_other t h e other)
]

-- After any history the rule stands where the last words of its observers put the device.
pub presence-state_after :
    (t : PresenceStateTrigger) (h : List Observed) → (state_after t h).presence ≡ status t h
presence-state_after t [] = unfold state_after in sym (unknown-combined t)
presence-state_after t (e ∷ h) = one_more t h e (presence-state_after t h)

-- An event sets a presence rule off exactly when it takes the device, as the last words of the
-- observers have it, from another status to the one that the rule asks for.
pub presence_fires_exact :
    (t : PresenceStateTrigger) (h : List Observed) (e : Observed)
    → ((presence_fires t (state_after t h) e).1 ≡ true)
      ↔ ((status t h ≢ t.state) × (status t (e ∷ h) ≡ t.state))
presence_fires_exact t h e = elim (Bool-cases (concerns t e)) [
  | inl mine ↦ rw (fires_concerned t h e mine) (
      ground (
        arith,
        presence-state_after t h,
        decide_eq_iff Presence-discrete (status t (e ∷ h)) (state_after t h).presence,
        decide_eq_iff Presence-discrete (status t (e ∷ h)) t.state,
      ))
  | inr other ↦ rw (fires_other t h e other) (ground (arith, status_other t h e other))
]
