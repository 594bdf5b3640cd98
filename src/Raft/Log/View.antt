-- ===== src/Raft/Log/View.antt =====
-- The abstract log: a partial map from indices to entries, and the invariant under which the
-- representation stands for one.
use mathlib.Core.Option
use my_super_ledger.Prelude.{
  ℕ, zero, suc, ◌+◌, ◌-◌, ◌≤◌, ◌<◌, ◌^◌, ◌≡◌, refl, Option, none, some, List, [], ◌∷◌, get_elem?,
  length, ltb, ◌==◌, arith, if◌then◌else◌, Bool-cases, inl, inr, sub64, ltb→lt, ltb-false→le,
  ltb-false→le,
}
use my_super_ledger.Raft.Log.Defs.{
  LogEntry, Log, get_entry, get_term, empty_log, slot, out_of_range, dummy_entry,
}

-- The entries carry the indices `n`, `n + 1`, ….
abbrev pub Numbered : ℕ → List LogEntry → Type 0
Numbered n [] = Unit {0}
Numbered n (e ∷ es) = (e.index ≡ n) × Numbered (n + 1) es

pub record IsWellFormed (l : Log) : Type 0 where
  pub first : 1 ≤ l.first_index
  pub size : length l.entries + l.first_index ≡ l.last_index + 1
  pub bound : l.last_index + 1 < 2 ^ 64
  pub numbered : Numbered l.first_index l.entries

-- The entry at an index.
unfoldable pub view : Log → ℕ → Option LogEntry
view l i = if ltb i l.first_index then none else get_elem? l.entries (i - l.first_index)

pub IsWellFormed-empty : IsWellFormed empty_log
IsWellFormed-empty = record {
  first = omega arith;
  size = omega arith;
  bound = omega arith;
  numbered = tt;
}

pub get_elem?-none {ℓ} : {A : Type ℓ} (xs : List A) (i : ℕ) → length xs ≤ i → get_elem? xs i ≡ none
get_elem?-none [] i h = refl
get_elem?-none (x ∷ xs) zero h = elim h [ ]
get_elem?-none (x ∷ xs) (suc i) h = get_elem?-none xs i (omega arith)

pub get_elem?-some {ℓ} :
    {A : Type ℓ} (xs : List A) (i : ℕ) → i < length xs → (x : A) × (get_elem? xs i ≡ some x)
get_elem?-some [] i h = elim h [ ]
get_elem?-some (x ∷ xs) zero h = (x, refl)
get_elem?-some (x ∷ xs) (suc i) h = get_elem?-some xs i (omega arith)

pub Numbered-get :
    (n : ℕ) (es : List LogEntry) (i : ℕ) {e : LogEntry}
    → Numbered n es
    → get_elem? es i ≡ some e
    → e.index ≡ n + i
Numbered-get n [] i h g = ground arith
Numbered-get n (x ∷ es) zero h g = ground arith
Numbered-get n (x ∷ es) (suc i) h g = omega (arith, Numbered-get (n + 1) es i h.1 g)

module _ (l : Log) (w : IsWellFormed l) where
  pub view_below : (i : ℕ) → i < l.first_index → view l i ≡ none
  unfolding view
  view_below i h = ground arith

  pub view_above : (i : ℕ) → l.last_index < i → view l i ≡ none
  unfolding view
  view_above i h = elim (Bool-cases (ltb i l.first_index)) [
    | inl below ↦ rw below
    | inr inside ↦ rw inside (get_elem?-none l.entries (i - l.first_index) (omega (arith, w.size)))
  ]

  pub view_inside :
      (i : ℕ) → l.first_index ≤ i → i ≤ l.last_index → (e : LogEntry) × (view l i ≡ some e)
  unfolding view
  view_inside i lo hi =
      let (e, found) = get_elem?-some l.entries (i - l.first_index) (omega (arith, w.size)) in
      (e, ground arith)

  -- The entry at an index carries that index.
  pub index-view : (i : ℕ) {e : LogEntry} → view l i ≡ some e → e.index ≡ i
  unfolding view
  index-view i {e} h = elim (Bool-cases (ltb i l.first_index)) [
    | inl below ↦ absurd (ground arith)
    | inr inside ↦
        let h' = rw inside at h in
        let n = Numbered-get l.first_index l.entries (i - l.first_index) w.numbered h' in
        ground arith
  ]

  -- Inside the range the machine's slot is the abstract one.
  pub slot-eq-view : (i : ℕ) → l.first_index ≤ i → i ≤ l.last_index → slot i l ≡ view l i
  unfolding view
  slot-eq-view i lo hi =
      let same : sub64 i l.first_index ≡ i - l.first_index = omega (arith, w.bound) in
      rw same (ground arith)

  -- The abstract entry, by the tests that `getEntry` and `getTerm` make.
  tested_slot : (i : ℕ) → (if out_of_range i l then none else slot i l) ≡ view l i
  tested_slot i = elim (Bool-cases (ltb i l.first_index)) [
    | inl below ↦ rw (below, view_below i (ltb→lt i l.first_index below))
    | inr inside ↦ elim (Bool-cases (ltb l.last_index i)) [
      | inl above ↦ rw (inside, above, view_above i (ltb→lt l.last_index i above))
      | inr within ↦
          rw (inside, within)
            (slot-eq-view i (ltb-false→le i l.first_index inside)
              (ltb-false→le l.last_index i within))
    ]
  ]

  -- With a log in order, `getEntry` is the abstract map, with a dummy at index 0.
  pub get_entry-eq-view : (i : ℕ) → get_entry i l ≡ (if i == 0 then some dummy_entry else view l i)
  unfolding get_entry
  get_entry-eq-view i = rw (← (tested_slot i))

  -- `getTerm` reads the term of the abstract entry, and 0 at index 0.
  pub get_term-eq-view :
      (i : ℕ)
      → get_term i l ≡ (if i == 0 then some 0 else Option.map (λ (e : LogEntry). e.term) (view l i))
  unfolding get_term
  get_term-eq-view i = rw (← (tested_slot i)) (ground arith)
