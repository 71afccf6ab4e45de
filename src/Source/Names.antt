-- ===== src/Source/Names.antt =====
-- Source identifiers: what `parse` and `id` of sources/models.py are to each other.
use Prim.Native.Char.{Char, code}
use text.Mathlib.TextEquality.{Char-path}
use sentry_mode.Prelude.{
  ℕ, zero, suc, String, ◌≡◌, refl, sym, ap, Bool, true, false, Option, none, some, arith, ◌==◌,
  nat_eq, if◌then◌else◌, Option-cases, Bool-cases, nat_beq_iff, ◌⊎◌, inl, inr,
}
use sentry_mode.Source.{
  SourceRef, is_alnum, name_tail, matches_name, is_valid_ref, make_ref, partition, parse, concat,
  ref_id,
}

-- No character of the text is a dot.
abbrev NoDot : String → Type 0
NoDot String.[] = Unit
NoDot (String.◌∷◌ c s) = ((code c == b'.') ≡ false) × NoDot s

name_tail-NoDot : (room : ℕ) (ok : Bool) (s : String) → name_tail room ok s ≡ true → NoDot s
unfolding name_tail
name_tail-NoDot room ok String.[] h = tt
name_tail-NoDot zero ok (String.◌∷◌ c s) h = absurd (ground arith)
name_tail-NoDot (suc room) ok (String.◌∷◌ c s) h =
    (ground arith, name_tail-NoDot room (is_alnum (code c)) s (ground arith))

matches_name-NoDot : (s : String) → matches_name s ≡ true → NoDot s
unfolding matches_name
matches_name-NoDot String.[] h = tt
matches_name-NoDot (String.◌∷◌ c s) h = (ground arith, name_tail-NoDot 39 true s (ground arith))

partition-NoDot : (s : String) → NoDot s → partition s ≡ (s, none)
unfolding partition
partition-NoDot String.[] h = refl
partition-NoDot (String.◌∷◌ c s) h = rw (h.0, partition-NoDot s h.1) refl

partition-concat : (s t : String) → NoDot s → partition (concat s (concat "." t)) ≡ (s, some t)
unfolding partition concat
partition-concat String.[] t h = refl
partition-concat (String.◌∷◌ c s) t h = rw (h.0, partition-concat s t h.1) refl

-- A valid reference, local or on a satellite, is found again from its identifier.
pub parse-ref_id : (r : SourceRef) → is_valid_ref r ≡ true → parse (ref_id r) ≡ some r
unfolding parse ref_id make_ref
parse-ref_id r h = elim (Option-cases r.node) [
  | inl here ↦ ground (arith, partition-NoDot r.name (matches_name-NoDot r.name (ground arith)))
  | inr (n, there) ↦ ground (arith, partition-concat n r.name (matches_name-NoDot n (ground arith)))
]

-- The two parts, joined again.
abbrev joined : String × Option String → String
joined (before, none) = before
joined (before, some after) = concat before (concat "." after)

joined-partition : (s : String) → joined (partition s) ≡ s
unfolding partition concat
joined-partition String.[] = refl
joined-partition (String.◌∷◌ c s) =
    joined_cons c s (partition s) (joined-partition s) (Bool-cases (code c == b'.'))
  where
    joined_cons :
        (c : Char) (s : String) (p : String × Option String)
        → joined p ≡ s
        → ((code c == b'.') ≡ true) ⊎ ((code c == b'.') ≡ false)
        → joined (if code c == b'.' then (String.[], some s) else (String.◌∷◌ c p.0, p.1))
          ≡ String.◌∷◌ c s
    joined_cons c s p h (inl dot) =
        rw dot (
          ap (λ d. String.◌∷◌ d s)
            (sym (Char-path c "." (ground (arith, nat_beq_iff (code c) 46)))))
    joined_cons c s (before, none) h (inr other) = rw other (ap (String.◌∷◌ c) h)
    joined_cons c s (before, some after) h (inr other) = rw other (ap (String.◌∷◌ c) h)

-- What `parse` accepts has valid names, and its identifier is the text that was parsed.
pub ref_id-parse :
    (value : String) (r : SourceRef)
    → parse value ≡ some r
    → (is_valid_ref r ≡ true) × (ref_id r ≡ value)
unfolding parse ref_id make_ref
ref_id-parse value r h = ground (arith, joined-partition value)

-- Two valid references with one identifier are one reference.
pub ref_id_injective :
    (r s : SourceRef) → is_valid_ref r ≡ true → is_valid_ref s ≡ true → ref_id r ≡ ref_id s → r ≡ s
ref_id_injective r s hr hs e = cc (parse-ref_id r hr, parse-ref_id s hs, ap parse e)
