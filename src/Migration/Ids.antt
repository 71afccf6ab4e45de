-- ===== src/Migration/Ids.antt =====
-- The identifiers that rules are given: `assign_ids` of sentry/migration.py.
use Prim.Native.Char.{code}
use sentry_mode.Prelude.{
  ℕ, zero, suc, ◌+◌, ◌-◌, ◌*◌, ◌/◌, ◌≤◌, ◌<◌, String, ◌≡◌, ◌≢◌, refl, ◌∙◌, true, false, not, none,
  some, List, [], ◌∷◌, length, contains, ltb, ◌==◌, string_eq, nat_eq, if◌then◌else◌, arith,
  Bool-cases, Option-cases, inl, inr, eq_iff, ltb→lt, ltb→ge, nat_beq_iff, keep, length-keep-le,
}
use sentry_mode.Source.{concat}
use sentry_mode.Migration.{is_dash, digit, digits, numbered, search, free_id, rstrip, cut, size}

-- The number after the last hyphen of a text, where digits follow it.
unfoldable value : ℕ → String → ℕ
value acc String.[] = acc
value acc (String.◌∷◌ c s) = if is_dash c then value 0 s else value (10 * acc + (code c - 48)) s

value-concat : (acc : ℕ) (s t : String) → value acc (concat s t) ≡ value (value acc s) t
unfolding value concat
value-concat acc String.[] t = refl
value-concat acc (String.◌∷◌ c s) t = elim (Bool-cases (is_dash c)) [
  | inl dash ↦ rw dash (value-concat 0 s t)
  | inr other ↦ rw other (value-concat (10 * acc + (code c - 48)) s t)
]

value-digit : (acc d : ℕ) → d < 10 → value acc (digit d) ≡ 10 * acc + d
unfolding value digit
value-digit acc zero h = omega arith
value-digit acc (suc zero) h = omega arith
value-digit acc (suc (suc zero)) h = omega arith
value-digit acc (suc (suc (suc zero))) h = omega arith
value-digit acc (suc (suc (suc (suc zero)))) h = omega arith
value-digit acc (suc (suc (suc (suc (suc zero))))) h = omega arith
value-digit acc (suc (suc (suc (suc (suc (suc zero)))))) h = omega arith
value-digit acc (suc (suc (suc (suc (suc (suc (suc zero))))))) h = omega arith
value-digit acc (suc (suc (suc (suc (suc (suc (suc (suc zero)))))))) h = omega arith
value-digit acc (suc (suc (suc (suc (suc (suc (suc (suc (suc zero))))))))) h = omega arith
value-digit acc (suc (suc (suc (suc (suc (suc (suc (suc (suc (suc d)))))))))) h =
    absurd (omega (arith, h))

value-digits : (fuel n : ℕ) → n ≤ fuel → value 0 (digits (suc fuel) n) ≡ n
unfolding digits value digit
value-digits zero zero h = refl
value-digits zero (suc n) h = absurd (omega (arith, h))
value-digits (suc fuel) n h = elim (Bool-cases (ltb n 10)) [
  | inl small ↦ rw (small, digits) (value-digit 0 n (ltb→lt n 10 small) ∙ omega arith)
  | inr large ↦
      let big = ltb→ge n 10 large in
      rw (large, digits)
        (value-concat 0 (digits (suc fuel) (n / 10)) (digit (n - n / 10 * 10))
          ∙ (value-digit (value 0 (digits (suc fuel) (n / 10))) (n - n / 10 * 10) (omega arith)
              ∙ rw (value-digits fuel (n / 10) (omega (arith, h, big))) (omega arith)))
]

numbered-value : (wanted : String) (counter : ℕ) → value 0 (numbered wanted counter) ≡ counter
unfolding numbered value concat digits
numbered-value wanted counter =
    let suffix = concat "-" (digits (suc counter) counter) in
    value-concat 0 (rstrip (cut (64 - size suffix) wanted)) suffix
    ∙ value-digits counter counter (omega arith)

-- The texts that end in another number than `c`.
abbrev without : ℕ → List String → List String
without c taken = keep (λ s. not (value 0 s == c)) taken

length-without :
    (c : ℕ) (s : String) (taken : List String)
    → value 0 s ≡ c
    → contains s taken ≡ true
    → length (without c taken) < length taken
length-without c s [] e h = absurd (ground (arith, h))
length-without c s (t ∷ taken) e h =
    let le = length-keep-le (λ s. not (value 0 s == c)) taken in
    elim (Bool-cases (s == t)) [
      | inl here ↦
          let same : value 0 t ≡ c = rw ((eq_iff s t).0 here) at e in
          ground (arith, le, same, nat_beq_iff (value 0 t) c)
      | inr other ↦
          let less = length-without c s taken e (ground (arith, h, other)) in ground (arith, less)
    ]

contains-without :
    (c : ℕ) (s : String) (taken : List String)
    → value 0 s ≢ c
    → contains s taken ≡ true
    → contains s (without c taken) ≡ true
contains-without c s [] e h = absurd (ground (arith, h))
contains-without c s (t ∷ taken) e h = elim (Bool-cases (s == t)) [
  | inl here ↦
      let same = (eq_iff s t).0 here in
      let kept : (value 0 t == c) ≡ false =
        rw (← same) (ground (arith, e, nat_beq_iff (value 0 s) c)) in
      ground (arith, here, kept)
  | inr other ↦
      let rest = contains-without c s taken e (ground (arith, h, other)) in ground (arith, rest)
]

-- No list holds more numbered texts than it is long.
pigeonhole :
    (wanted : String) (fuel counter : ℕ) (taken : List String)
    → ((k : ℕ) → counter ≤ k → k < counter + fuel → contains (numbered wanted k) taken ≡ true)
    → fuel ≤ length taken
pigeonhole wanted zero counter taken h = omega arith
pigeonhole wanted (suc fuel) counter taken h =
    let less =
      length-without counter (numbered wanted counter) taken (numbered-value wanted counter)
        (h counter (omega arith) (omega arith)) in
    let rest = pigeonhole wanted fuel (suc counter) (without counter taken) (λ k low high.
      contains-without counter (numbered wanted k) taken
        (λ e. let v = numbered-value wanted k in omega (arith, v, e, low))
        (h k (omega (arith, low)) (omega (arith, high)))) in
    omega (arith, less, rest)

search-none :
    (taken : List String) (wanted : String) (fuel counter : ℕ)
    → search taken wanted fuel counter ≡ none
    → (k : ℕ) → counter ≤ k
    → k < counter + fuel
    → contains (numbered wanted k) taken ≡ true
unfolding search
search-none taken wanted zero counter h k low high = absurd (omega (arith, low, high))
search-none taken wanted (suc fuel) counter h k low high =
    elim (Bool-cases (contains (numbered wanted counter) taken)) [
      | inr free ↦ absurd (ground (arith, rw (free, search) at h))
      | inl held ↦ elim (Bool-cases (counter == k)) [
        | inl here ↦ rw (← (nat_beq_iff counter k).0 here) held
        | inr later ↦
            search-none taken wanted fuel (suc counter) (rw (held, search) at h) k
              (ground (arith, low, later)) (omega (arith, high))
      ]
    ]

search-some :
    (taken : List String) (wanted i : String) (fuel counter : ℕ)
    → search taken wanted fuel counter ≡ some i
    → contains i taken ≡ false
unfolding search
search-some taken wanted i zero counter h = absurd (ground (arith, h))
search-some taken wanted i (suc fuel) counter h =
    elim (Bool-cases (contains (numbered wanted counter) taken)) [
      | inl held ↦ search-some taken wanted i fuel (suc counter) (rw (held, search) at h)
      | inr free ↦
          let same : numbered wanted counter ≡ i = ground (arith, rw (free, search) at h) in
          rw (← same) free
    ]

-- The search always ends, with an identifier that is not taken.
pub free_id-free :
    (taken : List String) (wanted : String)
    → (i : String) × (free_id taken wanted ≡ some i) × (contains i taken ≡ false)
unfolding free_id
free_id-free taken wanted = elim (Bool-cases (contains wanted taken)) [
  | inr free ↦ (wanted, rw (free, free_id) refl, free)
  | inl held ↦ elim (Option-cases (search taken wanted (suc (length taken)) 2)) [
    | inr (i, found) ↦ (i, rw (held, found, free_id) refl, search-some taken wanted i _ 2 found)
    | inl lost ↦
        let many =
          pigeonhole wanted (suc (length taken)) 2 taken (search-none taken wanted _ 2 lost) in
        absurd (omega (arith, many))
  ]
]
