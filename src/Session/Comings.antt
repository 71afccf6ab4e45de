-- ===== src/Session/Comings.antt =====
-- How often a node came back, and how often it had restarted, over any sequence of openings.
use sentry_mode.Prelude.{
  ℕ, ◌+◌, suc, String, ◌≡◌, refl, ap, ◌∙◌, inl, inr, Bool, Option, none, some, List, [], ◌∷◌, arith,
  Bool-cases, eq_iff, ◌==◌, string_eq, option_eq, option_beq_iff, length, keep, if◌then◌else◌,
}
use sentry_mode.Prelude.Dict.{lookup, lookup-insert}
use sentry_mode.Session.{Arrivals, no_arrivals, arrived, booted, SessionManager, open_session}

-- One call of `open`.
pub record Opening : Type 0 where
  pub node_id : String
  pub connection_id : String
  pub boot_id : Option String
  pub agent_version : Option String
  pub hub_epoch : ℕ
  pub now : ℕ

unfoldable pub open_all : SessionManager → List Opening → SessionManager
open_all m [] = m
open_all m (o ∷ os) =
    open_all
      (open_session m o.node_id o.connection_id o.boot_id o.agent_version o.hub_epoch o.now).0 os

abbrev pub is_of : String → Opening → Bool
is_of node_id o = o.node_id == node_id

-- How many boots are named that differ from the one named before them.
unfoldable pub changes : Option String → List Opening → ℕ
changes last [] = 0
changes last (o ∷ os) = elim o.boot_id [
  | none ↦ changes last os
  | some b ↦ (if some b == last then 0 else 1) + changes (some b) os
]

abbrev pub known : Option Arrivals → Arrivals
known none = no_arrivals
known (some a) = a

-- The openings of one node by themselves.
unfoldable arrive_all : Option Arrivals → List Opening → Option Arrivals
arrive_all a [] = a
arrive_all a (o ∷ os) = arrive_all (some (arrived a o.boot_id o.now)) os

booted_boots :
    (a : Arrivals) (b : Option String) (now : ℕ) (os : List Opening)
    → (booted a b now).boots + changes (booted a b now).last_boot_id os
      ≡ a.boots + (elim b [
        | none ↦ changes a.last_boot_id os
        | some x ↦ (if some x == a.last_boot_id then 0 else 1) + changes (some x) os
      ])
booted_boots a none now os = refl
booted_boots a (some x) now os = elim (Bool-cases (some x == a.last_boot_id)) [
  | inl same ↦ rw (same, (option_beq_iff (some x) a.last_boot_id).0 same) (omega arith)
  | inr other ↦ rw other (omega arith)
]

arrived_connections :
    (a : Option Arrivals) (b : Option String) (now : ℕ)
    → (arrived a b now).connections ≡ suc (known a).connections
arrived_connections none b now = ground arith
arrived_connections (some a) b now = ground arith

arrived_boots :
    (a : Option Arrivals) (b : Option String) (now : ℕ) (os : List Opening)
    → (arrived a b now).boots + changes (arrived a b now).last_boot_id os
      ≡ (known a).boots + (elim b [
        | none ↦ changes (known a).last_boot_id os
        | some x ↦ (if some x == (known a).last_boot_id then 0 else 1) + changes (some x) os
      ])
arrived_boots none b now os = booted_boots (record no_arrivals { connections = 1 }) b now os
arrived_boots (some a) b now os =
    booted_boots (record a { connections = suc a.connections }) b now os

arrive_all_counts :
    (a : Option Arrivals) (os : List Opening)
    → ((known (arrive_all a os)).connections ≡ (known a).connections + length os)
      × ((known (arrive_all a os)).boots ≡ (known a).boots + changes (known a).last_boot_id os)
unfolding arrive_all changes
arrive_all_counts a [] = (omega arith, omega arith)
arrive_all_counts a (o ∷ os) =
    let (c, b) = arrive_all_counts (some (arrived a o.boot_id o.now)) os in
    let c' = arrived_connections a o.boot_id o.now in
    (omega (arith, c, c'), b ∙ arrived_boots a o.boot_id o.now os)

only_own :
    (m : SessionManager) (os : List Opening) (node_id : String)
    → lookup node_id (open_all m os).comings
      ≡ arrive_all (lookup node_id m.comings) (keep (is_of node_id) os)
unfolding arrive_all open_all open_session
only_own m [] node_id = refl
only_own m (o ∷ os) node_id =
    let m' =
      (open_session m o.node_id o.connection_id o.boot_id o.agent_version o.hub_epoch o.now).0 in
    only_own m' os node_id ∙ elim (Bool-cases (o.node_id == node_id)) [
      | inl own ↦
          let e : o.node_id ≡ node_id = (eq_iff o.node_id node_id).0 own in
          rw (lookup-insert, own, ap (λ n. lookup n m.comings) e) refl
      | inr other ↦ rw (lookup-insert, other) refl
    ]

-- However the openings of the nodes are mixed, a node that starts unknown is counted one connection
-- for each of its own openings, and one boot for each of them that names another boot than the one
-- named before: a node that only reconnects is not counted as restarted.
pub openings_counted :
    (m : SessionManager) (os : List Opening) (node_id : String)
    → lookup node_id m.comings ≡ none
    → let own = keep (is_of node_id) os in
      let a = known (lookup node_id (open_all m os).comings) in
      (a.connections ≡ length own) × (a.boots ≡ changes none own)
openings_counted m os node_id unknown =
    let own = keep (is_of node_id) os in
    let (c, b) = arrive_all_counts none own in
    rw (only_own m os node_id, unknown) (omega (arith, c), omega (arith, b))
