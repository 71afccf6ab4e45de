-- ===== src/Spool/Ledger.antt =====
-- The accounts of the queue: what it was given, what it handed out, and what it dropped.
use mathlib.Core.List.{append_assoc, Perm, perm_middle, perm_append_comm, perm_append_singleton}
use mathlib.Core.List.Perm
use sentry_mode.Prelude.{
  ℕ, ◌+◌, ◌≤◌, String, ◌≡◌, ◌∙◌, ap, Bool, List, [], ◌∷◌, ◌++◌, arith, length, length-append,
}
use sentry_mode.Spool.{Held, Limits, Spool, total, expire, shorten, put, take, requeue, appended}
use sentry_mode.Spool.Bounds.{
  IsCounted, weight, put-IsCounted, take-IsCounted, take_from_lem, requeue-IsCounted,
  expire-IsCounted,
}
use sentry_mode.Spool.Oldest.{expire_suffix, shorten_suffix, shrink_suffix, joined, requeue_prefix}

-- A call of the queue.
pub data Op {ℓ} (Item : Type ℓ) : Type ℓ where
  puts : String → Item → ℕ → Bool → ℕ → Op Item
  takes : ℕ → ℕ → Op Item
  requeues : Held Item → Op Item

module _ {ℓ} {Item : Type ℓ} where
  -- A message that is put in goes behind the others, and what is thrown away to make room is the
  -- oldest, each counted once: what was dropped and what is left are the queue with the new message
  -- behind it.
  pub put_drops_oldest :
      (c : Limits) (s : Spool Item) (topic : String) (item : Item) (size : ℕ) (initial : Bool)
      (now : ℕ)
      → let held : Held Item = record {
        item = item;
        size = size;
        queued_at = now;
        topic = topic;
        initial = initial;
      } in
        let s' = put c s topic item size initial now in
        (gone : List (Held Item)) × (gone ++ s'.items ≡ s.items ++ held ∷ [])
        × (total s'.drops ≡ length gone + total s.drops)
  unfolding put
  put_drops_oldest c s topic item size initial now =
      let held : Held Item = record {
        item = item;
        size = size;
        queued_at = now;
        topic = topic;
        initial = initial;
      } in
      let s₁ = expire c now (appended s held) in
      let s₂ = shorten c s₁ in
      let (g₁, e₁, n₁) = expire_suffix c now (appended s held) in
      let (g₂, e₂, n₂) = shorten_suffix c s₁ in
      let (g₃, e₃, n₃) = shrink_suffix c s₂ in
      let l = length-append g₁ (g₂ ++ g₃) in
      let l' = length-append g₂ g₃ in
      (g₁ ++ (g₂ ++ g₃), joined g₁ g₂ g₃ _ _ _ _ e₁ e₂ e₃, n₃ ∙ omega (arith, l, l', n₁, n₂))

  -- Where the bytes are counted right, a call splits the queue in three, in order: what is dropped
  -- as too old, each counted once, what is handed out, and what is left; no more is handed out than
  -- was asked for.
  pub take_oldest :
      (c : Limits) (s : Spool Item) (limit now : ℕ)
      → s.nbytes ≡ weight s.items
      → (gone : List (Held Item)) × (gone
            ++ ((take c s limit now).1 ++ (take c s limit now).0.items)
          ≡ s.items)
        × (total (take c s limit now).0.drops ≡ length gone + total s.drops)
        × (length (take c s limit now).1 ≤ limit)
  unfolding take
  take_oldest c s limit now h =
      let (gone, e, n) = expire_suffix c now s in
      let s' = expire c now s in
      let (b, e', l) = take_from_lem limit s'.items s'.nbytes (expire-IsCounted c now s h).0 in
      (gone, ap (λ l. gone ++ l) e' ∙ e, n, omega (arith, l))

  exchanged : (a b c : List (Held Item)) → Perm (a ++ (b ++ c)) (b ++ (a ++ c))
  exchanged a b c =
      rw (append_assoc a b c, append_assoc b a c) at (Perm.append_right c (perm_append_comm a b))

  -- What the later calls do with the messages, and the earlier one with those it threw away.
  carried :
      (out g g' left given items before : List (Held Item))
      → Perm (out ++ (g' ++ left)) (given ++ items)
      → Perm (g ++ items) before
      → Perm (out ++ ((g ++ g') ++ left)) (given ++ before)
  carried out g g' left given items before p q = rw (append_assoc g g' left) (
      Perm.trans (exchanged out g (g' ++ left)) (
        Perm.trans (Perm.append_left g p)
          (Perm.trans (exchanged g given items) (Perm.append_left given q))))

  taken_back :
      (taken g given items before : List (Held Item))
      → g ++ (taken ++ items) ≡ before
      → Perm (taken ++ (given ++ (g ++ items))) (given ++ before)
  taken_back taken g given items before e =
      Perm.trans (exchanged taken given (g ++ items))
        (Perm.append_left given (rw e at (exchanged taken g items)))

  unfoldable pub run : Limits → Spool Item → List (Op Item) → Spool Item
  run c s [] = s
  run c s (Op.puts topic item size initial now ∷ ops) =
      run c (put c s topic item size initial now) ops
  run c s (Op.takes limit now ∷ ops) = run c (take c s limit now).0 ops
  run c s (Op.requeues held ∷ ops) = run c (requeue c s held) ops

  abbrev pub message : String → Item → ℕ → Bool → ℕ → Held Item
  message topic item size initial now = record {
    item = item;
    size = size;
    queued_at = now;
    topic = topic;
    initial = initial;
  }

  -- The messages that the calls gave to the queue, and those that it handed out, in order.
  unfoldable pub given : List (Op Item) → List (Held Item)
  given [] = []
  given (Op.puts topic item size initial now ∷ ops) =
      message topic item size initial now ∷ given ops
  given (Op.takes limit now ∷ ops) = given ops
  given (Op.requeues held ∷ ops) = held ∷ given ops

  unfoldable pub handed : Limits → Spool Item → List (Op Item) → List (Held Item)
  handed c s [] = []
  handed c s (Op.puts topic item size initial now ∷ ops) =
      handed c (put c s topic item size initial now) ops
  handed c s (Op.takes limit now ∷ ops) =
      (take c s limit now).1 ++ handed c (take c s limit now).0 ops
  handed c s (Op.requeues held ∷ ops) = handed c (requeue c s held) ops

  -- Whatever a queue that is counted right is called for, it stays so, with no more messages than
  -- it may hold; and there are messages, as many as it has counted as dropped meanwhile, that
  -- together with those that it has handed out and those that it still holds are, each as often, the
  -- messages that it was given and those that it held before.
  pub nothing_goes_missing :
      (c : Limits) (s : Spool Item) (ops : List (Op Item))
      → IsCounted c s
      → IsCounted c (run c s ops)
        × ((gone : List (Held Item)) × Perm
              (handed c s ops ++ (gone ++ (run c s ops).items))
              (given ops ++ s.items)
            × (total (run c s ops).drops ≡ length gone + total s.drops))
  unfolding run given handed
  nothing_goes_missing c s [] h = (h, ([], Perm.refl s.items, omega arith))
  nothing_goes_missing c s (Op.puts topic item size initial now ∷ ops) h =
      let held = message topic item size initial now in
      let (g, e, n) = put_drops_oldest c s topic item size initial now in
      let s' = put c s topic item size initial now in
      let (i, (g', p, n')) =
        nothing_goes_missing c s' ops (put-IsCounted c s topic item size initial now h).0 in
      let l = length-append g g' in
      (
        i,
        (
          g ++ g',
          Perm.trans
              (carried (handed c s' ops) g g' (run c s' ops).items (given ops) s'.items
                (held ∷ s.items) p (rw e (perm_append_singleton held s.items)))
              (perm_middle (given ops) s.items),
          omega (arith, l, n, n'),
        ),
      )
  nothing_goes_missing c s (Op.takes limit now ∷ ops) h =
      let (g, e, n, _) = take_oldest c s limit now h.bytes in
      let s' = (take c s limit now).0 in
      let taken = (take c s limit now).1 in
      let (i, (g', p, n')) = nothing_goes_missing c s' ops (take-IsCounted c s limit now h) in
      let l = length-append g g' in
      (
        i,
        (
          g ++ g',
          rw (append_assoc taken (handed c s' ops) ((g ++ g') ++ (run c s' ops).items)) (
              Perm.trans
                (Perm.append_left taken (
                  carried (handed c s' ops) g g' (run c s' ops).items (given ops) s'.items
                    (g ++ s'.items) p (Perm.refl (g ++ s'.items))))
                (taken_back taken g (given ops) s'.items s.items e)),
          omega (arith, l, n, n'),
        ),
      )
  nothing_goes_missing c s (Op.requeues held ∷ ops) h =
      let (g, e, n) = requeue_prefix c s held in
      let s' = requeue c s held in
      let (i, (g', p, n')) = nothing_goes_missing c s' ops (requeue-IsCounted c s held h) in
      let l = length-append g g' in
      (
        i,
        (
          g ++ g',
          Perm.trans
              (carried (handed c s' ops) g g' (run c s' ops).items (given ops) s'.items
                (held ∷ s.items) p (rw e at (perm_append_comm g s'.items)))
              (perm_middle (given ops) s.items),
          omega (arith, l, n, n'),
        ),
      )
