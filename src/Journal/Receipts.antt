-- ===== src/Journal/Receipts.antt =====
-- The two uniqueness constraints of `event_receipts`, and what one call of `admit` may change.
use sentry_mode.Prelude.{
  String, ◌≡◌, ◌≢◌, ◌⊎◌, inl, inr, Bool, false, ◌&&◌, ◌||◌, Option, none, some, List, [], ◌∷◌,
  arith, ◌==◌, string_eq, nat_eq, if◌then◌else◌, keep, All, Bool-cases,
}
use sentry_mode.Journal.{
  Mark, Entry, Contents, contents, Receipt, Store, Disk, Admission, stored, duplicate, id_reused,
  ok, has_id, has_position, find, receipt_of, marked, written, admit,
}

-- Two receipts that the table's constraints do not let stand together.
abbrev pub clash : Receipt → Receipt → Bool
clash r q =
    has_id r.node_id r.event_id q
    || ((q.node_id == r.node_id && q.boot_id == r.boot_id)
        && (q.source_id == r.source_id && q.sequence == r.sequence))

-- An event identifier is unique per node, and a sequence number per source within a boot.
abbrev pub IsUnique : List Receipt → Type 0
IsUnique [] = Unit {0}
IsUnique (r ∷ rs) = All (λ q. clash r q ≡ false) rs × IsUnique rs

module _ (p q : Receipt → Bool) (r : Receipt → Bool) where
  find-none_both :
      ((x : Receipt) → p x ≡ false → q x ≡ false → r x ≡ false)
      → (rs : List Receipt) → find p rs ≡ none
      → find q rs ≡ none
      → All (λ x. r x ≡ false) rs
  unfolding find
  find-none_both both [] hp hq = tt
  find-none_both both (x ∷ rs) hp hq =
      (both x (ground arith) (ground arith), find-none_both both rs (ground arith) (ground arith))

keep-All :
    (p : Receipt → Bool) (P : Receipt → Type 0) (rs : List Receipt) → All P rs → All P (keep p rs)
keep-All p P [] h = tt
keep-All p P (r ∷ rs) h = elim (Bool-cases (p r)) [
  | inl stays ↦ rw stays (h.0, keep-All p P rs h.1)
  | inr goes ↦ rw goes (keep-All p P rs h.1)
]

pub keep-IsUnique : (p : Receipt → Bool) (rs : List Receipt) → IsUnique rs → IsUnique (keep p rs)
keep-IsUnique p [] h = tt
keep-IsUnique p (r ∷ rs) h = elim (Bool-cases (p r)) [
  | inl stays ↦ rw stays (keep-All p _ rs h.0, keep-IsUnique p rs h.1)
  | inr goes ↦ rw goes (keep-IsUnique p rs h.1)
]

module _ (digest : Contents → String) (s : Store) (disk : Disk) (e : Entry) (m : Option Mark) where
  pub admit_receipts :
      ((admit digest s disk e m).0.receipts ≡ s.receipts)
      ⊎ ((find (has_id e.node_id e.event_id) s.receipts ≡ none)
          × (find (has_position e) s.receipts ≡ none)
          × ((admit digest s disk e m).0.receipts ≡ receipt_of digest e ∷ s.receipts))
  unfolding admit
  admit_receipts = ground arith

  -- A receipt that `admit` inserts breaks neither constraint: SQLite never refuses it, so the
  -- branch that takes a refused insert for a duplicate is not reached under the one writer.
  pub admit-IsUnique : IsUnique s.receipts → IsUnique (admit digest s disk e m).0.receipts
  admit-IsUnique h = elim admit_receipts [
    | inl same ↦ rw same h
    | inr (new, free, grown) ↦ rw grown (
      find-none_both (has_id e.node_id e.event_id) (has_position e) (clash (receipt_of digest e))
          (λ x a b. ground arith) s.receipts new free,
      h,
    )
  ]

  -- Unless it answers `stored`, the call has written nothing: no receipt, no row and no position.
  pub admit_nothing : (admit digest s disk e m).1 ≢ ok stored → (admit digest s disk e m).0 ≡ s
  unfolding admit
  admit_nothing h = ground arith

  -- If it answers `stored`, the receipt, the row and the position are all written, and the event
  -- was known neither by its identifier nor by its place in the stream.
  pub admit_everything :
      (admit digest s disk e m).1 ≡ ok stored
      → ((admit digest s disk e m).0
          ≡ marked (written (record s { receipts = receipt_of digest e ∷ s.receipts }) e) m)
        × (find (has_id e.node_id e.event_id) s.receipts ≡ none)
        × (find (has_position e) s.receipts ≡ none)
  unfolding admit
  admit_everything h = ground arith

  pub admit_known :
      (r : Receipt) (a : Admission)
      → find (has_id e.node_id e.event_id) s.receipts ≡ some r
      → (admit digest s disk e m).1 ≡ ok a
      → a ≡ (if r.fingerprint == digest (contents e) then duplicate else id_reused)
  unfolding admit
  admit_known r a seen answered = ground arith
