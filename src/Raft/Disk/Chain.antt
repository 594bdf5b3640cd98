-- ===== src/Raft/Disk/Chain.antt =====
-- The closed segments, one behind the other.
use my_super_ledger.Prelude.{
  ℕ, ◌+◌, ◌≤◌, ◌<◌, ◌≡◌, refl, true, false, Option, some, List, [], ◌∷◌, ◌++◌, done, length, ltb,
  leb, arith, Bool-cases, inl, inr, ltb→lt, ltb-false→le, leb→le, leb-false→lt, ◌∙◌, sym,
}
use my_super_ledger.Raft.Log.Defs.{LogEntry}
use my_super_ledger.Raft.Disk.Segment.{Env, Segment}
use my_super_ledger.Raft.Disk.Holds.{Holds, Holds-ext}
use my_super_ledger.Raft.Disk.Cutting.{truncate_suffix_lem}
use my_super_ledger.Raft.Disk.SegmentLog.{
  insert_segment, segment_before, erase_below, keep_upto, truncate_last,
}

-- The segments hold the entries from `n` up to `m`, which is out; each ends at `lo` or later.
abbrev pub Chain : Env → (ℕ → LogEntry) → ℕ → ℕ → List Segment → ℕ → Type 0
Chain E f lo n [] m = n ≡ m
Chain E f lo n (s ∷ ss) m =
    (s.first_index ≡ n)
    × (s.first_index ≤ s.last_index)
    × (lo ≤ s.last_index)
    × (s.is_active ≡ false)
    × Holds E f s
    × Chain E f lo (s.last_index + 1) ss m

module _ (E : Env) (f : ℕ → LogEntry) where
  pub Chain-le : (lo n : ℕ) (ss : List Segment) (m : ℕ) → Chain E f lo n ss m → n ≤ m
  Chain-le lo n [] m c = omega arith
  Chain-le lo n (s ∷ ss) m c = omega (arith, Chain-le lo (s.last_index + 1) ss m c.5)

  pub Chain-pos :
      (lo n : ℕ) (ss : List Segment) (m : ℕ) → Chain E f lo n ss m → n < m → 0 < length ss
  Chain-pos lo n [] m c lt = absurd (omega arith)
  Chain-pos lo n (s ∷ ss) m c lt = omega arith

  -- No segment ends at `lo` or later if the chain ends before.
  pub Chain-nil : (lo n : ℕ) (ss : List Segment) (m : ℕ) → Chain E f lo n ss m → m ≤ lo → ss ≡ []
  Chain-nil lo n [] m c le = refl
  Chain-nil lo n (s ∷ ss) m c le =
      absurd (omega (arith, c.2, Chain-le lo (s.last_index + 1) ss m c.5))

  -- Below the bound of the chain one segment starts at most.
  pub keep_upto_short :
      (lo n : ℕ) (ss : List Segment) (m kept : ℕ)
      → Chain E f lo n ss m
      → kept < lo
      → length (keep_upto kept ss) ≤ 1
  unfolding keep_upto
  keep_upto_short lo n [] m kept c lt = omega arith
  keep_upto_short lo n (s ∷ []) m kept c lt = ground arith
  keep_upto_short lo n (s ∷ t ∷ ts) m kept c lt =
      let later : leb t.first_index kept ≡ false = ground (arith, c.2, c.5.0) in
      rw later (ground arith)

  pub Chain-snoc :
      (lo n : ℕ) (ss : List Segment) (m : ℕ) (s : Segment)
      → Chain E f lo n ss m
      → s.first_index ≡ m
      → s.first_index ≤ s.last_index
      → lo ≤ s.last_index
      → s.is_active ≡ false
      → Holds E f s
      → Chain E f lo n (ss ++ s ∷ []) (s.last_index + 1)
  Chain-snoc lo n [] m s c at size live off h = (at ∙ sym c, size, live, off, h, refl)
  Chain-snoc lo n (t ∷ ts) m s c at size live off h =
      (c.0, c.1, c.2, c.3, c.4, Chain-snoc lo (t.last_index + 1) ts m s c.5 at size live off h)

  -- A segment that starts behind the chain is inserted at its end.
  pub insert_segment_lem :
      (lo n : ℕ) (ss : List Segment) (m : ℕ) (s : Segment)
      → Chain E f lo n ss m
      → s.first_index ≡ m
      → insert_segment s ss ≡ ss ++ s ∷ []
  unfolding insert_segment
  insert_segment_lem lo n [] m s c at = refl
  insert_segment_lem lo n (t ∷ ts) m s c at =
      let after = Chain-le lo (t.last_index + 1) ts m c.5 in
      ground (arith, insert_segment_lem lo (t.last_index + 1) ts m s c.5 at)

  before-Chain :
      (lo n : ℕ) (ss : List Segment) (m : ℕ) (i : ℕ) (prev : Option Segment)
      → Chain E f lo n ss m
      → i < n
      → segment_before i prev ss ≡ prev
  unfolding segment_before
  before-Chain lo n [] m i prev c below = refl
  before-Chain lo n (s ∷ ss) m i prev c below = ground arith

  -- The segment of an index is found.
  pub segment_before_lem :
      (lo n : ℕ) (ss : List Segment) (m : ℕ) (i : ℕ) (prev : Option Segment)
      → Chain E f lo n ss m
      → n ≤ i
      → i < m
      → (s : Segment) × (segment_before i prev ss ≡ some s)
        × Holds E f s
        × (s.first_index ≤ i)
        × (i ≤ s.last_index)
        × (s.last_index < m)
  unfolding segment_before
  segment_before_lem lo n [] m i prev c low high = absurd (omega arith)
  segment_before_lem lo n (s ∷ ss) m i prev c low high =
      let here : ltb i s.first_index ≡ false = ground (arith, c.0) in
      elim (Bool-cases (ltb s.last_index i)) [
        | inl later ↦
            let (t, found, h, lo_t, hi_t, end) =
              segment_before_lem lo (s.last_index + 1) ss m i (some s) c.5
                (omega (arith, ltb→lt s.last_index i later)) high in
            (t, rw here found, h, lo_t, hi_t, end)
        | inr inside ↦
            let within = ltb-false→le s.last_index i inside in
            (
              s,
              rw here (before-Chain lo (s.last_index + 1) ss m i (some s) c.5 (omega arith)),
              c.4,
              omega (arith, c.0),
              within,
              omega (arith, Chain-le lo (s.last_index + 1) ss m c.5),
            )
      ]

  pub Chain-raise :
      (lo lo' n : ℕ) (ss : List Segment) (m : ℕ)
      → Chain E f lo n ss m
      → lo' ≤ n
      → Chain E f lo' n ss m
  Chain-raise lo lo' n [] m c le = c
  Chain-raise lo lo' n (s ∷ ss) m c le = (
    c.0,
    c.1,
    omega (arith, c.0, c.1),
    c.3,
    c.4,
    Chain-raise lo lo' (s.last_index + 1) ss m c.5 (omega (arith, c.0, c.1)),
  )

  -- What `truncatePrefix` leaves of the chain: all gone, or a chain of segments that end later.
  pub erase_below_lem :
      (lo kept n : ℕ) (ss : List Segment) (m : ℕ)
      → Chain E f lo n ss m
      → n ≤ kept
      → (n' : ℕ) × Chain E f kept n' (erase_below kept ss).1 m × (n' ≤ kept)
  unfolding erase_below
  erase_below_lem lo kept n [] m c le = (n, c, le)
  erase_below_lem lo kept n (s ∷ ss) m c le = elim (Bool-cases (ltb s.last_index kept)) [
    | inl gone ↦ rw gone (
        erase_below_lem lo kept (s.last_index + 1) ss m c.5
          (omega (arith, ltb→lt s.last_index kept gone)))
    | inr stays ↦
        let later = ltb-false→le s.last_index kept stays in
        (
          n,
          rw stays (
            c.0,
            c.1,
            later,
            c.3,
            c.4,
            Chain-raise lo kept (s.last_index + 1) ss m c.5 (omega arith),
          ),
          le,
        )
  ]

  pub Chain-ext :
      (g : ℕ → LogEntry) (lo n : ℕ) (ss : List Segment) (m : ℕ)
      → Chain E f lo n ss m
      → ((i : ℕ) → i < m → f i ≡ g i)
      → Chain E g lo n ss m
  Chain-ext g lo n [] m c same = c
  Chain-ext g lo n (s ∷ ss) m c same =
      let after = Chain-le lo (s.last_index + 1) ss m c.5 in
      (
        c.0,
        c.1,
        c.2,
        c.3,
        Holds-ext E f g s c.4 (λ i low high. same i (omega arith)),
        Chain-ext g lo (s.last_index + 1) ss m c.5 same,
      )

  cut_one :
      (lo n : ℕ) (s : Segment) (kept : ℕ)
      → s.first_index ≡ n
      → kept ≤ s.last_index
      → lo ≤ kept
      → s.is_active ≡ false
      → Holds E f s
      → n ≤ kept
      → (s' : Segment) × (truncate_last kept (s ∷ []) ≡ done (s' ∷ []))
        × Chain E f lo n (s' ∷ []) (kept + 1)
  unfolding truncate_last
  cut_one lo n s kept at high live off h low =
      let (s', run, h', last, first, active, data_limit, meta_limit) =
        truncate_suffix_lem E f s kept h (omega (arith, at)) in
      let end : s'.last_index ≡ kept = ground arith in
      (s', rw run, (omega arith, omega arith, omega arith, active ∙ off, h', omega arith))

  -- A chain is cut at an index of its range: the segments up to it stay, the last of them is cut.
  pub truncate_last_lem :
      (lo n : ℕ) (ss : List Segment) (m kept : ℕ)
      → Chain E f lo n ss m
      → n ≤ kept
      → kept < m
      → lo ≤ kept
      → (ts : List Segment) × (truncate_last kept (keep_upto kept ss) ≡ done ts)
        × Chain E f lo n ts (kept + 1)
        × (0 < length (keep_upto kept ss))
  unfolding truncate_last keep_upto
  truncate_last_lem lo n [] m kept c low high live = absurd (omega arith)
  truncate_last_lem lo n (s ∷ []) m kept c low high live =
      let first : leb s.first_index kept ≡ true = ground (arith, c.0) in
      let (s', run, chain) = cut_one lo n s kept c.0 (omega (arith, c.5)) live c.3 c.4 low in
      (s' ∷ [], rw (first, truncate_last) run, chain, rw first (omega arith))
  truncate_last_lem lo n (s ∷ t ∷ ts) m kept c low high live =
      let first : leb s.first_index kept ≡ true = ground (arith, c.0) in
      elim (Bool-cases (leb t.first_index kept)) [
        | inr last ↦
            let before = leb-false→lt t.first_index kept last in
            let (s', run, chain) =
              cut_one lo n s kept c.0 (omega (arith, c.5.0)) live c.3 c.4 low in
            (s' ∷ [], rw (first, last, truncate_last) run, chain, rw first (omega arith))
        | inl more ↦
            let inside = leb→le t.first_index kept more in
            let (ts', run, chain, some_left) =
              truncate_last_lem lo (s.last_index + 1) (t ∷ ts) m kept c.5 (omega (arith, c.5.0))
                high live in
            (
              s ∷ ts',
              (let run' = rw more at run in rw (first, more, run')),
              (c.0, c.1, c.2, c.3, c.4, chain),
              rw first (omega arith),
            )
      ]
