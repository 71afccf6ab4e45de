-- ===== src/Health/Delays.antt =====
-- What the log says of a node that falls behind and catches up.
use sentry_mode.Prelude.{
  ℕ, ◌≤◌, ◌<◌, String, ◌≡◌, refl, Bool, true, false, Option, none, some, List, [], ◌∷◌, ◌++◌,
  eq_iff, ◌==◌, string_eq, Option-cases, Bool-cases, inl, inr, if◌then◌else◌, ltb→lt, ltb→ge, ltb,
  not, ◌&&◌,
}
use sentry_mode.Prelude.Dict.{insert, lookup-insert}
use sentry_mode.Health.{
  NodeHealth, Board, Log, falling_behind, caught_up, behind_ms, entry, waited, delayed,
}

-- One call of `waited`.
pub record Wait : Type 0 where
  pub node_id : String
  pub waited_ms : Option ℕ
  pub now : ℕ

-- The lines that belong to what a node reports, `behind` being the side that it was on before: one of
-- each report that takes it to the other side of the limit, with the wait that was reported, and none of
-- any other.
pub data Says : Bool → List ℕ → List Log → Type 0 where
  ends : {behind : Bool} → Says behind [] []
  falls :
      {ms : ℕ} {reports : List ℕ} {log : List Log}
      → behind_ms < ms
      → Says true reports log
      → Says false (ms ∷ reports) (falling_behind ms ∷ log)
  stays_behind :
      {ms : ℕ} {reports : List ℕ} {log : List Log}
      → behind_ms < ms
      → Says true reports log
      → Says true (ms ∷ reports) log
  catches_up :
      {ms : ℕ} {reports : List ℕ} {log : List Log}
      → ms ≤ behind_ms
      → Says false reports log
      → Says true (ms ∷ reports) (caught_up ms ∷ log)
  keeps_up :
      {ms : ℕ} {reports : List ℕ} {log : List Log}
      → ms ≤ behind_ms
      → Says false reports log
      → Says false (ms ∷ reports) log

abbrev reported : Option ℕ → List ℕ → List ℕ
reported none rest = rest
reported (some ms) rest = ms ∷ rest

-- What one node reports among the waits of all.
unfoldable pub reports_of : String → List Wait → List ℕ
reports_of one [] = []
reports_of one (w ∷ ws) =
    let rest = reports_of one ws in if w.node_id == one then reported w.waited_ms rest else rest

turn :
    (was is : Bool) (ms : ℕ) (reports : List ℕ) (rest : List Log)
    → ltb behind_ms ms ≡ is
    → Says is reports rest
    → Says was (ms ∷ reports) (
        (if is && not was
          then falling_behind ms ∷ []
          else if was && not is
          then caught_up ms ∷ []
          else [])
        ++ rest)
turn true true ms reports rest e h = stays_behind (ltb→lt behind_ms ms e) h
turn true false ms reports rest e h = catches_up (ltb→ge behind_ms ms e) h
turn false true ms reports rest e h = falls (ltb→lt behind_ms ms e) h
turn false false ms reports rest e h = keeps_up (ltb→ge behind_ms ms e) h

module _ {ℓ} {Document : Type ℓ} where
  -- The lines of one node, while the waits of all are mixed.
  unfoldable pub log_of : String → Board Document → List Wait → List Log
  log_of one b [] = []
  log_of one b (w ∷ ws) =
      let (b', log) = waited b w.node_id w.waited_ms w.now in
      let rest = log_of one b' ws in if w.node_id == one then log ++ rest else rest

  entry-insert :
      (b : Board Document) (n one : String) (e : NodeHealth Document)
      → entry (insert n e b) one ≡ (if n == one then e else entry b one)
  unfolding entry
  entry-insert b n one e = elim (Bool-cases (n == one)) [
    | inl here ↦ rw (lookup-insert, here) refl
    | inr other ↦ rw (lookup-insert, other) refl
  ]

  delayed-Says :
      (e : NodeHealth Document) (ms now : ℕ) (reports : List ℕ) (rest : List Log)
      → Says (delayed e ms now).0.behind reports rest
      → Says e.behind (ms ∷ reports) ((delayed e ms now).1 ++ rest)
  unfolding delayed
  delayed-Says e ms now reports rest h = turn e.behind (ltb behind_ms ms) ms reports rest refl h

  -- The log of a node, whatever is told of the other nodes in between, has one warning, with the wait,
  -- of each of its reports that finds it behind the limit when it was not, one line, with the wait, of
  -- each that finds it no longer behind when it was, in the order of the reports, and no other line.
  pub log_of-Says :
      (one : String) (b : Board Document) (ws : List Wait)
      → Says (entry b one).behind (reports_of one ws) (log_of one b ws)
  unfolding log_of waited reports_of
  log_of-Says one b [] = ends
  log_of-Says one b (w ∷ ws) = elim (Option-cases w.waited_ms) [
    | inl nothing_said ↦
        let rest = log_of-Says one b ws in
        elim (Bool-cases (w.node_id == one)) [
          | inl own ↦ rw (own, nothing_said, waited) rest
          | inr other ↦ rw (other, nothing_said, waited) rest
        ]
    | inr (ms, said) ↦
        let after = delayed (entry b w.node_id) ms w.now in
        let rest = log_of-Says one (insert w.node_id after.0 b) ws in
        elim (Bool-cases (w.node_id == one)) [
          | inl own ↦
              let same = (eq_iff w.node_id one).0 own in
              rw (own, said, waited)
                (rw same (
                  delayed-Says (entry b one) ms w.now (reports_of one ws) _
                    (rw same at (rw (entry-insert, own) at rest))))
          | inr other ↦ rw (other, said, waited) (rw (entry-insert, other) at rest)
        ]
  ]
