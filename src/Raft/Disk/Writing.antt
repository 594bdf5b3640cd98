-- ===== src/Raft/Disk/Writing.antt =====
-- Appending to a segment: what it holds after the entries are copied.
use my_super_ledger.Prelude.{
  ℕ, ◌+◌, ◌-◌, ◌*◌, ◌/◌, ◌^◌, ◌≤◌, ◌<◌, ◌≡◌, refl, true, some, List, ◌∷◌, inl, inr, done, ◌>>=◌,
  ◌>>◌, length, get_elem?, ltb, leb, add64, arith, Bool-cases, ltb→lt, ltb-false→le, ◌∙◌, sym, ap,
}
use mathlib.Core.Path.{subst}
use my_super_ledger.Raft.Log.Defs.{LogEntry, total_size}
use my_super_ledger.Raft.Log.View.{Numbered, get_elem?-some}
use my_super_ledger.Raft.Disk.Memory.{write, read_ext, write_below, write_above, write_inside}
use my_super_ledger.Raft.Disk.Segment.{Env, LogMeta, Segment, Copied, append_entries, meta_len}
use my_super_ledger.Raft.Disk.Sealing.{IsLawful}
use my_super_ledger.Raft.Disk.Holds.{Slot, Holds, end_of, end-le-data}
use my_super_ledger.Raft.Disk.Copying.{AllStorable, Writes, copy_entries_lem}

-- The segment with what has been copied.
abbrev extended : Segment → Copied → ℕ → Segment
extended s c n = record s {
  bytes = c.bytes;
  metas = write c.metas (s.last_index + 1 - s.first_index) s.metas;
  data_offset = c.offset;
  meta_offset = s.meta_offset + n * 64;
  last_index = s.last_index + n;
}

module _ (E : Env) (law : IsLawful E) (f : ℕ → LogEntry) (s : Segment) (es : List LogEntry)
    (c : Copied) (h : Holds E f s) (w : Writes E s.bytes s.data_offset (s.last_index + 1) es c)
    (given : (k : ℕ) (x : LogEntry) → get_elem? es k ≡ some x → f (s.last_index + 1 + k) ≡ x) where
  -- the table of metas after the write
  table : ℕ → LogMeta
  table = write c.metas (s.last_index + 1 - s.first_index) s.metas

  old_meta : (k : ℕ) → s.first_index + k ≤ s.last_index → table k ≡ s.metas k
  unfolding table
  old_meta k inside = write_below c.metas (s.last_index + 1 - s.first_index) s.metas k (omega arith)

  -- an index past the old ones is that of a new entry
  new_meta :
      (k : ℕ)
      → s.last_index < s.first_index + k
      → s.first_index + k ≤ s.last_index + length es
      → (j : ℕ) × (x : LogEntry) × (m : LogMeta) × (s.first_index + k ≡ s.last_index + 1 + j)
        × (get_elem? es j ≡ some x)
        × (get_elem? c.metas j ≡ some m)
        × (table k ≡ m)
        × Slot E c.bytes (s.last_index + 1 + j) x m
  unfolding table
  new_meta k lo hi =
      let j = s.first_index + k - s.last_index - 1 in
      let (x, found) = get_elem?-some es j (omega arith) in
      let (m, at, slot) = w.slots j x found in
      let place : s.last_index + 1 - s.first_index + j ≡ k = omega (arith, h.size) in
      (
        j,
        x,
        m,
        omega arith,
        found,
        at,
        subst (λ p. write c.metas (s.last_index + 1 - s.first_index) s.metas p ≡ m) place
            (write_inside c.metas (s.last_index + 1 - s.first_index) s.metas j m at),
        slot,
      )

  old-Slot :
      (k : ℕ)
      → s.first_index + k ≤ s.last_index
      → Slot E c.bytes (s.first_index + k) (f (s.first_index + k)) (table k)
  old-Slot k inside =
      let at : s.first_index + k - s.first_index ≡ k = omega arith in
      let below : end_of (s.metas k) ≤ s.data_offset =
        subst (λ j. end_of (s.metas j) ≤ s.data_offset) at
          (end-le-data E law f s h (s.first_index + k) (omega arith) inside) in
      let sl = h.slots k inside in
      subst (λ m. Slot E c.bytes (s.first_index + k) (f (s.first_index + k)) m)
        (sym (old_meta k inside))
        (record {
          place = sl.place;
          index = sl.index;
          term = sl.term;
          size = sl.size;
          body =
              read_ext c.bytes s.bytes (s.metas k).offset (s.metas k).length
                (λ p lo hi. w.kept p (omega arith))
              ∙ sl.body;
          sealed = sl.sealed;
          parses = sl.parses;
        })

  new-Slot :
      (k : ℕ)
      → s.last_index < s.first_index + k
      → s.first_index + k ≤ s.last_index + length es
      → Slot E c.bytes (s.first_index + k) (f (s.first_index + k)) (table k)
  new-Slot k lo hi =
      let (j, x, m, place, found, at, row, slot) = new_meta k lo hi in
      let same : f (s.first_index + k) ≡ x = rw place (given j x found) in
      rw (row, same) (subst (λ i. Slot E c.bytes i x m) (sym place) slot)

  table_ordered :
      (j k : ℕ)
      → j ≤ k
      → s.first_index + k ≤ s.last_index + length es
      → end_of (table j) ≤ end_of (table k)
  table_ordered j k le hi = elim (Bool-cases (ltb s.last_index (s.first_index + k))) [
    | inr old ↦
        let k_old = ltb-false→le s.last_index (s.first_index + k) old in
        rw (old_meta j (omega arith), old_meta k k_old) (h.ordered j k le k_old)
    | inl new ↦
        let (k', x, m, place, found, at, row, slot) =
          new_meta k (ltb→lt s.last_index (s.first_index + k) new) hi in
        elim (Bool-cases (ltb s.last_index (s.first_index + j))) [
          | inr old_j ↦
              let j_old = ltb-false→le s.last_index (s.first_index + j) old_j in
              let same : s.first_index + j - s.first_index ≡ j = omega arith in
              let below : end_of (s.metas j) ≤ s.data_offset =
                subst (λ i. end_of (s.metas i) ≤ s.data_offset) same
                  (end-le-data E law f s h (s.first_index + j) (omega arith) j_old) in
              rw (old_meta j j_old, row) (omega (arith, w.above k' m at))
          | inl new_j ↦
              let (j', y, m', place', found', at', row', slot') =
                new_meta j (ltb→lt s.last_index (s.first_index + j) new_j) (omega arith) in
              rw (row', row) (w.ordered j' k' m' m (omega arith) at' at)
        ]
  ]

  extended-Holds :
      s.last_index + length es + 1 < 2 ^ 64
      → c.offset ≤ s.data_size_limit
      → s.meta_offset + length es * 64 ≤ s.meta_size_limit
      → 0 < length es
      → Holds E f (extended s c (length es))
  unfolding table
  extended-Holds bound data_room meta_room some_entry = record {
    first = h.first;
    size = omega (arith, h.size);
    bound = omega arith;
    metas_end = omega (arith, h.metas_end, h.size);
    meta_fits = meta_room;
    meta_small = h.meta_small;
    data_fits = data_room;
    data_small = h.data_small;
    slots = λ k hi. elim (Bool-cases (ltb s.last_index (s.first_index + k))) [
      | inr old ↦ old-Slot k (ltb-false→le s.last_index (s.first_index + k) old)
      | inl new ↦ new-Slot k (ltb→lt s.last_index (s.first_index + k) new) hi
    ];
    ordered = table_ordered;
    tail_empty = λ e. absurd (omega (arith, h.size));
    tail_last = λ k e.
        let (j, x, m, place, found, at, row, slot) = new_meta k (omega arith) (omega arith) in
        let last = w.last j m (omega arith) at in rw row (sym last);
    blank = λ k lo.
        ap (λ (m : LogMeta). m.index)
          (write_above c.metas (s.last_index + 1 - s.first_index) s.metas k
            (omega (arith, w.count, h.size)))
        ∙ h.blank k (omega arith);
  }

module _ (E : Env) (law : IsLawful E) where
  -- The segment holds the entries as well, if they are those that `f` gives after its last index.
  pub append_entries_lem :
      (f : ℕ → LogEntry) (s : Segment) (e : LogEntry) (es : List LogEntry)
      → Holds E f s
      → s.is_active ≡ true
      → Numbered (s.last_index + 1) (e ∷ es)
      → AllStorable E (e ∷ es)
      → s.last_index + length (e ∷ es) + 1 < 2 ^ 64
      → s.data_offset + total_size E.byte_size (e ∷ es) ≤ s.data_size_limit
      → s.meta_offset + length (e ∷ es) * 64 ≤ s.meta_size_limit
      → ((k : ℕ) (x : LogEntry) → get_elem? (e ∷ es) k ≡ some x → f (s.last_index + 1 + k) ≡ x)
      → (s' : Segment) × (append_entries E (e ∷ es) s ≡ done s')
        × Holds E f s'
        × (s'.last_index ≡ s.last_index + length (e ∷ es))
        × (s'.first_index ≡ s.first_index)
        × (s'.is_active ≡ true)
        × (s'.data_size_limit ≡ s.data_size_limit)
        × (s'.meta_size_limit ≡ s.meta_size_limit)
  unfolding append_entries
  append_entries_lem f s e es h on num able bound data_room meta_room given =
      let zeroth : s.last_index + 1 ≡ s.last_index + 1 + 0 = omega arith in
      let (c, copied, w) =
        copy_entries_lem E law s 0 s.bytes s.data_offset (e ∷ es)
          (subst (λ k. Numbered k (e ∷ es)) zeroth num) able (omega arith) data_room h.data_small in
      let w' = subst (λ k. Writes E s.bytes s.data_offset k (e ∷ es) c) (sym zeroth) w in
      let (m, head, slot) = w'.slots 0 e refl in
      let len : meta_len (length (e ∷ es)) ≡ length (e ∷ es) * 64 = omega (arith, h.meta_small) in
      let place : s.meta_offset / 64 ≡ s.last_index + 1 - s.first_index =
        omega (arith, h.metas_end) in
      let room : leb (s.meta_offset + length (e ∷ es) * 64) s.meta_size_limit ≡ true =
        ground arith in
      let metas_wide : add64 s.meta_offset (length (e ∷ es) * 64)
          ≡ s.meta_offset + length (e ∷ es) * 64 =
        omega (arith, h.meta_small) in
      let last_wide : add64 s.last_index (length (e ∷ es)) ≡ s.last_index + length (e ∷ es) =
        omega arith in
      (
        extended s c (length (e ∷ es)),
        simp (on, copied, head, len, place, room, metas_wide, last_wide, ◌>>=◌, ◌>>◌),
        extended-Holds E law f s (e ∷ es) c h w' given bound (omega (arith, w.ends)) meta_room
            (omega arith),
        refl,
        refl,
        on,
        refl,
        refl,
      )
