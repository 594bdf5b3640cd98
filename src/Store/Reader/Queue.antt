-- ===== src/Store/Reader/Queue.antt =====
-- The reader's queue of tasks: consecutive entries of the committed sequence, in order, and what
-- each step does to it.
use mathlib.Core.Path.{subst}
use mathlib.Core.List.{append_assoc}
use my_super_ledger.Prelude.{
  ℕ, zero, suc, ◌+◌, ◌≤◌, ◌<◌, ◌≡◌, refl, ◌∙◌, ap, sym, some, List, [], ◌∷◌, ◌++◌, done, length,
  get_elem?, ◌==◌, arith, Bool-cases, inl, inr, some_injective, >>=-eq-done, done-injective,
}
use my_super_ledger.Raft.Log.Defs.{LogEntry}
use my_super_ledger.Store.Reader.Defs.{
  Bundle, Codec, Task, decrypt_entry, decrypt_entries, claim, finish,
}

-- The `n` entries of the sequence from `start` on.
abbrev pub entries_from : (ℕ → LogEntry) → ℕ → ℕ → List LogEntry
entries_from f start zero = []
entries_from f start (suc n) = f start ∷ entries_from f (start + 1) n

pub entries_from-append :
    (f : ℕ → LogEntry) (start m n : ℕ)
    → entries_from f start (m + n) ≡ entries_from f start m ++ entries_from f (start + m) n
entries_from-append f start zero n =
    let size : zero + n ≡ n = omega arith in
    let here : start ≡ start + zero = omega arith in
    ap (entries_from f start) size ∙ ap (λ j. entries_from f j n) here
entries_from-append f start (suc m) n =
    let size : suc m + n ≡ suc (m + n) = omega arith in
    let next : start + 1 + m ≡ start + suc m = omega arith in
    ap (entries_from f start) size
    ∙ ap (λ es. f start ∷ es)
        (entries_from-append f (start + 1) m n
          ∙ ap (λ j. entries_from f (start + 1) m ++ entries_from f j n) next)

pub entries_from_lem :
    (f : ℕ → LogEntry) (start : ℕ) (es : List LogEntry)
    → ((k : ℕ) → k < length es → get_elem? es k ≡ some (f (start + k)))
    → es ≡ entries_from f start (length es)
entries_from_lem f start [] h = refl
entries_from_lem f start (e ∷ es) h =
    let here : start + 0 ≡ start = omega arith in
    let first : e ≡ f start = some_injective (h 0 (omega arith)) ∙ ap f here in
    let next : (k : ℕ) → start + suc k ≡ start + 1 + k = λ k. omega arith in
    let rest =
      entries_from_lem f (start + 1) es
        (λ k lt. h (suc k) (omega arith) ∙ ap (λ j. some (f j)) (next k)) in
    ap (λ x. x ∷ es) first ∙ ap (λ xs. f start ∷ xs) rest

module _ {C E : Type 0} (cod : Codec C E) (f : ℕ → LogEntry) where
  pub decrypt_entries-append :
      (xs ys : List LogEntry) (us bs : List (Bundle C E))
      → decrypt_entries cod xs ≡ done us
      → decrypt_entries cod ys ≡ done bs
      → decrypt_entries cod (xs ++ ys) ≡ done (us ++ bs)
  unfolding decrypt_entries
  decrypt_entries-append [] ys us bs h g = g ∙ ap (λ vs. done (vs ++ bs)) (done-injective h)
  decrypt_entries-append (x ∷ xs) ys us bs h g =
      let (b, first, rest) = >>=-eq-done (decrypt_entry cod x) _ h in
      let (cs, others, same) = >>=-eq-done (decrypt_entries cod xs) _ rest in
      rw (first, decrypt_entries-append xs ys cs bs others g)
        (ap done (sym (append_assoc b cs bs)) ∙ ap (λ vs. done (vs ++ bs)) (done-injective same))

  -- Every entry after the offset can be read.
  abbrev pub IsReadable : ℕ → Type 0
  IsReadable offset =
      (i : ℕ) → offset < i → (bs : List (Bundle C E)) × (decrypt_entry cod (f i) ≡ done bs)

  pub readable :
      (offset : ℕ)
      → IsReadable offset
      → (start n : ℕ) → offset < start
      → (bs : List (Bundle C E)) × (decrypt_entries cod (entries_from f start n) ≡ done bs)
  unfolding decrypt_entries
  readable offset ok start zero h = ([], refl)
  readable offset ok start (suc n) h =
      let (b, first) = ok start h in
      let (bs, rest) = readable offset ok (start + 1) n (omega arith) in
      (b ++ bs, rw (first, rest) refl)

  pub record Fresh (start : ℕ) (t : Task C E) : Type 0 where
    pub consecutive : t.entries ≡ entries_from f start (length t.entries)
    pub ended : t.flag ≡ 2 → decrypt_entries cod t.entries ≡ done t.bundles

  -- The tasks hold the entries from `start` up to `end`.
  abbrev pub Queued : ℕ → List (Task C E) → ℕ → Type 0
  Queued start [] end = start ≡ end
  Queued start (t ∷ ts) end = Fresh start t × Queued (start + length t.entries) ts end

  pub Queued-le : (start : ℕ) (ts : List (Task C E)) (end : ℕ) → Queued start ts end → start ≤ end
  Queued-le start [] end h = omega arith
  Queued-le start (t ∷ ts) end h = omega (arith, Queued-le (start + length t.entries) ts end h.1)

  -- How many entries wait in the queue.
  abbrev pub queued_count : List (Task C E) → ℕ
  queued_count [] = 0
  queued_count (t ∷ ts) = length t.entries + queued_count ts

  pub Queued-count :
      (start : ℕ) (ts : List (Task C E)) (end : ℕ)
      → Queued start ts end
      → start + queued_count ts ≡ end
  Queued-count start [] end h = omega arith
  Queued-count start (t ∷ ts) end h =
      omega (arith, Queued-count (start + length t.entries) ts end h.1)

  pub Queued-snoc :
      (start : ℕ) (ts : List (Task C E)) (end : ℕ) (es : List LogEntry)
      → Queued start ts end
      → es ≡ entries_from f end (length es)
      → Queued start (ts ++ record { entries = es; bundles = []; flag = 0 } ∷ []) (end + length es)
  Queued-snoc start [] end es h g = (
    record {
      consecutive = subst (λ j. es ≡ entries_from f j (length es)) (sym h) g;
      ended = λ two. absurd (omega arith);
    },
    omega arith,
  )
  Queued-snoc start (t ∷ ts) end es h g =
      (h.0, Queued-snoc (start + length t.entries) ts end es h.1 g)

  pub claim-Queued :
      (start : ℕ) (ts : List (Task C E)) (end : ℕ)
      → Queued start ts end
      → Queued start (claim ts) end
  unfolding claim
  claim-Queued start [] end h = h
  claim-Queued start (t ∷ ts) end h = elim (Bool-cases (t.flag == 0)) [
    | inl free ↦
        rw free (record { consecutive = h.0.consecutive; ended = λ two. absurd (omega arith) }, h.1)
    | inr taken ↦ rw taken (h.0, claim-Queued (start + length t.entries) ts end h.1)
  ]

  pub finish-Queued :
      (offset : ℕ)
      → IsReadable offset
      → (k start : ℕ) (ts : List (Task C E)) (end : ℕ) → offset < start
      → Queued start ts end
      → (ts' : List (Task C E)) × (finish cod k ts ≡ done ts') × Queued start ts' end
  unfolding finish
  finish-Queued offset ok k start [] end lo h = ([], refl, h)
  finish-Queued offset ok zero start (t ∷ ts) end lo h = elim (Bool-cases (t.flag == 1)) [
    | inl busy ↦
        let (bs, read) = readable offset ok start (length t.entries) lo in
        let read' : decrypt_entries cod t.entries ≡ done bs =
          subst (λ es. decrypt_entries cod es ≡ done bs) (sym h.0.consecutive) read in
        (
          record t { bundles = bs; flag = 2 } ∷ ts,
          rw (busy, read') refl,
          (record { consecutive = h.0.consecutive; ended = λ two. read' }, h.1),
        )
    | inr other ↦ (t ∷ ts, rw other refl, h)
  ]
  finish-Queued offset ok (suc k) start (t ∷ ts) end lo h =
      let (ts', run, h') =
        finish-Queued offset ok k (start + length t.entries) ts end (omega arith) h.1 in
      (t ∷ ts', rw run refl, (h.0, h'))
