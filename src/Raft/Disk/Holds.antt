-- ===== src/Raft/Disk/Holds.antt =====
-- What a segment that holds the entries `f i`, at the indices of its range, looks like in memory,
-- and the reads of one entry.
use my_super_ledger.Prelude.{
  ℕ, ◌+◌, ◌-◌, ◌*◌, ◌^◌, ◌≤◌, ◌<◌, ◌≡◌, refl, true, false, none, some, done, leb, ◌&&◌, sub64,
  arith, if◌then◌else◌, sym,
}
use mathlib.Core.Path.{subst}
use my_super_ledger.Raft.Log.Defs.{LogEntry}
use my_super_ledger.Raft.Disk.Memory.{read}
use my_super_ledger.Raft.Disk.Segment.{
  Env, LogMeta, Segment, create, close, get_meta, get_entry, get_term, load, entry_bytes,
  is_within_boundary,
}
use my_super_ledger.Raft.Disk.Sealing.{IsLawful, IsSealed, IsHint, verify_hmac_lem}

abbrev pub end_of : LogMeta → ℕ
end_of m = m.offset + m.length

-- The meta is that of the entry, at index `i`, and the entry's bytes are in place.
pub record Slot (E : Env) (bytes : ℕ → ℕ) (i : ℕ) (e : LogEntry) (m : LogMeta) : Type 0 where
  pub place : e.index ≡ i
  pub index : m.index ≡ i
  pub term : m.term ≡ e.term
  pub size : m.length ≡ E.byte_size e
  pub body : read bytes m.offset m.length ≡ E.serialize e
  pub sealed : IsSealed E m (E.serialize e)
  pub parses : E.parse (E.serialize e) ≡ some e

pub record Holds (E : Env) (f : ℕ → LogEntry) (s : Segment) : Type 0 where
  pub first : 1 ≤ s.first_index
  pub size : s.first_index ≤ s.last_index + 1
  pub bound : s.last_index + 1 < 2 ^ 64
  pub metas_end : s.meta_offset ≡ (s.last_index + 1 - s.first_index) * 64
  pub meta_fits : s.meta_offset ≤ s.meta_size_limit
  pub meta_small : s.meta_size_limit < 2 ^ 63
  pub data_fits : s.data_offset ≤ s.data_size_limit
  pub data_small : s.data_size_limit < 2 ^ 63
  pub slots :
      (k : ℕ)
      → s.first_index + k ≤ s.last_index
      → Slot E s.bytes (s.first_index + k) (f (s.first_index + k)) (s.metas k)
  pub ordered :
      (j k : ℕ) → j ≤ k → s.first_index + k ≤ s.last_index → end_of (s.metas j) ≤ end_of (s.metas k)
  pub tail_empty : s.last_index + 1 ≡ s.first_index → s.data_offset ≡ 0
  pub tail_last : (k : ℕ) → s.first_index + k ≡ s.last_index → s.data_offset ≡ end_of (s.metas k)
  pub blank : (k : ℕ) → s.last_index < s.first_index + k → (s.metas k).index ≡ 0

-- A new segment holds no entry.
pub create-Holds :
    (E : Env) (law : IsLawful E) (f : ℕ → LogEntry) (n : ℕ)
    → 1 ≤ n
    → n < 2 ^ 64
    → Holds E f (create E n)
unfolding create
create-Holds E law f n lo hi =
    let last : sub64 n 1 ≡ n - 1 = omega arith in
    record {
      first = lo;
      size = omega arith;
      bound = omega arith;
      metas_end = omega arith;
      meta_fits = omega arith;
      meta_small = law.meta_small;
      data_fits = omega arith;
      data_small = law.data_small;
      slots = λ k h. absurd (omega arith);
      ordered = λ j k le h. absurd (omega arith);
      tail_empty = λ h. refl;
      tail_last = λ k h. absurd (omega arith);
      blank = λ k h. refl;
    }

-- What a segment holds depends on the entries of its range only.
pub Holds-ext :
    (E : Env) (f g : ℕ → LogEntry) (s : Segment)
    → Holds E f s
    → ((i : ℕ) → s.first_index ≤ i → i ≤ s.last_index → f i ≡ g i)
    → Holds E g s
Holds-ext E f g s h same = record {
  first = h.first;
  size = h.size;
  bound = h.bound;
  metas_end = h.metas_end;
  meta_fits = h.meta_fits;
  meta_small = h.meta_small;
  data_fits = h.data_fits;
  data_small = h.data_small;
  slots = λ k inside.
      subst (λ e. Slot E s.bytes (s.first_index + k) e (s.metas k))
        (same (s.first_index + k) (omega arith) inside) (h.slots k inside);
  ordered = h.ordered;
  tail_empty = h.tail_empty;
  tail_last = h.tail_last;
  blank = h.blank;
}

-- Closing a segment changes nothing of what it holds.
pub close_lem :
    (E : Env) (f : ℕ → LogEntry) (s : Segment)
    → s.is_active ≡ true
    → Holds E f s
    → (close s ≡ done (record s { is_active = false })) × Holds E f (record s { is_active = false })
unfolding close
close_lem E f s on h = (
  ground arith,
  record {
    first = h.first;
    size = h.size;
    bound = h.bound;
    metas_end = h.metas_end;
    meta_fits = h.meta_fits;
    meta_small = h.meta_small;
    data_fits = h.data_fits;
    data_small = h.data_small;
    slots = h.slots;
    ordered = h.ordered;
    tail_empty = h.tail_empty;
    tail_last = h.tail_last;
    blank = h.blank;
  },
)

module _ (E : Env) (law : IsLawful E) (f : ℕ → LogEntry) (s : Segment) (h : Holds E f s) where
  pub within_lem : (i : ℕ) → is_within_boundary i s ≡ (leb s.first_index i && leb i s.last_index)
  within_lem i =
      let last : sub64 s.first_index 1 ≡ s.first_index - 1 = omega (arith, h.bound, h.size) in
      rw last (ground (arith, h.first, h.size))

  pub get-Slot :
      (i : ℕ)
      → s.first_index ≤ i
      → i ≤ s.last_index
      → Slot E s.bytes i (f i) (s.metas (i - s.first_index))
  get-Slot i lo hi =
      let at : s.first_index + (i - s.first_index) ≡ i = omega arith in
      subst (λ j. Slot E s.bytes j (f j) (s.metas (i - s.first_index))) at
        (h.slots (i - s.first_index) (omega arith))

  pub get_meta_lem :
      (i : ℕ)
      → s.first_index ≤ i
      → i ≤ s.last_index
      → get_meta i s ≡ done (s.metas (i - s.first_index))
  unfolding get_meta
  get_meta_lem i lo hi =
      let at : sub64 i s.first_index ≡ i - s.first_index = omega (arith, h.bound) in
      let sl = get-Slot i lo hi in rw (within_lem i, at) (ground (arith, sl.index))

  pub end-le-data :
      (i : ℕ)
      → s.first_index ≤ i
      → i ≤ s.last_index
      → end_of (s.metas (i - s.first_index)) ≤ s.data_offset
  end-le-data i lo hi = omega (
    arith,
    h.ordered (i - s.first_index) (s.last_index - s.first_index) (omega arith) (omega arith),
    h.tail_last (s.last_index - s.first_index) (omega arith),
  )

  -- The checked bytes of a slot parse to its entry.
  pub load_lem :
      (hint i : ℕ)
      → IsHint E hint
      → s.first_index ≤ i
      → i ≤ s.last_index
      → load E hint (s.metas (i - s.first_index)) s ≡ done (some (f i))
  unfolding load entry_bytes
  load_lem hint i ok lo hi =
      let m = s.metas (i - s.first_index) in
      let sl = get-Slot i lo hi in
      let below = end-le-data i lo hi in
      let (h', checked, again) =
        verify_hmac_lem E law hint m s ok (omega arith)
          (subst (λ b. IsSealed E m b) (sym sl.body) sl.sealed) in
      ground (arith, checked, sl.body, sl.parses)

  -- One entry: the one at the index, if it is in the range.
  pub get_entry_lem :
      (hint i : ℕ)
      → IsHint E hint
      → get_entry E hint i s
        ≡ done (if leb s.first_index i && leb i s.last_index then some (f i) else none)
  unfolding get_entry
  get_entry_lem hint i ok = rw (within_lem i) (ground (arith, get_meta_lem i, load_lem hint i ok))

  pub get_term_lem :
      (i : ℕ)
      → get_term i s
        ≡ done (if leb s.first_index i && leb i s.last_index then some ((f i).term) else none)
  unfolding get_term
  get_term_lem i = rw (within_lem i) (ground (arith, get_meta_lem i, slot_term))
    where
      slot_term :
          s.first_index ≤ i → i ≤ s.last_index → (s.metas (i - s.first_index)).term ≡ (f i).term
      slot_term lo hi = (get-Slot i lo hi).term
