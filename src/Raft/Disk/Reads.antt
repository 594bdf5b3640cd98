-- ===== src/Raft/Disk/Reads.antt =====
-- The reads of a log on disk against those of the in-memory log that it stands for.
use my_super_ledger.Prelude.{
  ℕ, ◌+◌, ◌-◌, ◌≤◌, ◌<◌, ◌^◌, ◌≡◌, refl, true, false, some, none, List, [], done, length, ltb, leb,
  ◌==◌, ◌&&◌, arith, Bool-cases, inl, inr, ltb→lt, ltb-false→le, if◌then◌else◌, ◌∙◌, ap, sym, sub64,
  add64, tests, some_injective, ◌≢◌, ==-false→ne,
}
use mathlib.Core.Path.{subst}
use mathlib.Core.Option
use my_super_ledger.Raft.Log.Defs as Memory
use my_super_ledger.Raft.Log.Defs.{LogEntry, Log}
use my_super_ledger.Raft.Log.View.{
  view, view_below, view_above, get_entry-eq-view, get_term-eq-view,
}
use my_super_ledger.Raft.Log.Batch.{IsBatch}
use my_super_ledger.Raft.Disk.Segment.{Env}
use my_super_ledger.Raft.Disk.Sealing.{IsLawful, IsHint}
use my_super_ledger.Raft.Disk.Holds.{get_entry_lem, get_term_lem}
use my_super_ledger.Raft.Disk.Batch as Batch
use my_super_ledger.Raft.Disk.SegmentLog.{SegmentLog, get_entry, get_term, get_entries}
use my_super_ledger.Raft.Disk.Represents.{Represents, get_segment_lem, get_segment-none}

module _ (E : Env) (law : IsLawful E) (l : Log) (d : SegmentLog) (r : Represents E l d) where
  -- the entry of the log at an index, by the segments
  found : (hint i : ℕ) → IsHint E hint → get_entry E hint i d ≡ done (view l i)
  unfolding get_entry
  found hint i ok = elim (Bool-cases (ltb i d.first_index)) [
    | inl below ↦
        let lt = ltb→lt i d.first_index below in
        rw
          (
            get_segment-none E r.entry d r.ordered i (inl lt),
            view_below l r.well_formed i (omega (arith, r.first)),
          )
          refl
    | inr above_first ↦ elim (Bool-cases (ltb d.last_index i)) [
      | inl above ↦
          let gt = ltb→lt d.last_index i above in
          rw
            (
              get_segment-none E r.entry d r.ordered i (inr gt),
              view_above l r.well_formed i (omega (arith, r.last)),
            )
            refl
      | inr inside ↦
          let lo = ltb-false→le i d.first_index above_first in
          let hi = ltb-false→le d.last_index i inside in
          let (s, at, h, lo_s, hi_s, end) = get_segment_lem E r.entry d r.ordered i lo hi in
          let within : (leb s.first_index i && leb i s.last_index) ≡ true = ground arith in
          let read = get_entry_lem E law r.entry s h hint i ok in
          let same = r.same i (omega (arith, r.first)) (omega (arith, r.last)) in
          rw (at, same) (read ∙ rw within)
    ]
  ]

  -- With a lawful environment and a shared key position of at most the number of keys, `getEntry`
  -- of a log on disk does not abort, whatever key made the digest, and reads what the in-memory
  -- log that it stands for reads, but that index 0 gives no entry.
  pub get_entry_refines :
      (hint i : ℕ)
      → IsHint E hint
      → get_entry E hint i d ≡ done (if i == 0 then none else Memory.get_entry i l)
  get_entry_refines hint i ok =
      let first = r.well_formed.first in
      found hint i ok
      ∙ ap done
          (rw (get_entry-eq-view l r.well_formed i) (ground (arith, view_below l r.well_formed i)))

  found_term :
      (i : ℕ)
      → i + 1 ≢ d.first_index
      → get_term i d ≡ done (Option.map (λ (e : LogEntry). e.term) (view l i))
  unfolding get_term
  found_term i apart =
      let before : sub64 d.first_index 1 ≡ d.first_index - 1 =
        omega (arith, r.ordered.first, r.ordered.size, r.last, r.well_formed.bound) in
      let other : (i == d.first_index - 1) ≡ false = ground (arith, r.ordered.first) in
      elim (Bool-cases (ltb i d.first_index)) [
        | inl below ↦
            let lt = ltb→lt i d.first_index below in
            rw
              (
                before,
                other,
                get_segment-none E r.entry d r.ordered i (inl lt),
                view_below l r.well_formed i (omega (arith, r.first)),
              )
              refl
        | inr above_first ↦ elim (Bool-cases (ltb d.last_index i)) [
          | inl above ↦
              let gt = ltb→lt d.last_index i above in
              rw
                (
                  before,
                  other,
                  get_segment-none E r.entry d r.ordered i (inr gt),
                  view_above l r.well_formed i (omega (arith, r.last)),
                )
                refl
          | inr inside ↦
              let lo = ltb-false→le i d.first_index above_first in
              let hi = ltb-false→le d.last_index i inside in
              let (s, at, h, lo_s, hi_s, end) = get_segment_lem E r.entry d r.ordered i lo hi in
              let within : (leb s.first_index i && leb i s.last_index) ≡ true = ground arith in
              let read = get_term_lem E law r.entry s h i in
              let same = r.same i (omega (arith, r.first)) (omega (arith, r.last)) in
              rw (before, other, at, same) (read ∙ rw within)
        ]
      ]

  -- With a lawful environment, `getTerm` of a log on disk does not abort and reads what the
  -- in-memory log that it stands for reads, but that the index before the first has term 0, and
  -- that index 0 has no term otherwise.
  pub get_term_refines :
      (i : ℕ)
      → get_term i d
        ≡ done (
            if i + 1 == l.first_index then some 0 else if i == 0 then none else Memory.get_term i l)
  get_term_refines i = elim (Bool-cases (i + 1 == l.first_index)) [
    | inl just_before ↦
        let before : sub64 d.first_index 1 ≡ i =
          omega (tests, r.ordered.size, r.last, r.well_formed.bound, r.first) in
        rw (just_before) (unfold get_term in rw before (ground arith))
    | inr apart ↦
        found_term i (λ e. ==-false→ne (i + 1) l.first_index apart (e ∙ r.first))
        ∙ rw (apart, get_term-eq-view l r.well_formed i)
            (ground (arith, view_below l r.well_formed i, r.well_formed.first))
  ]

  -- With a lawful environment, key positions in range and a byte limit below 2^63, a batch from an
  -- index of the log, or from the one after it, does not abort: it is a piece of the in-memory log
  -- within both limits, its length is what is returned, and it holds an entry if there is one and
  -- the first fits.
  pub get_entries_refines :
      (hints : ℕ → ℕ) (start max_len max_batch : ℕ)
      → ((i : ℕ) → IsHint E (hints i))
      → max_len < 2 ^ 63
      → l.first_index ≤ start
      → start ≤ l.last_index + 1
      → (es : List LogEntry) × (get_entries E hints start max_len max_batch d
          ≡ done (length es, es))
        × IsBatch E.byte_size l start max_batch max_len es
        × (start ≤ l.last_index
            → 0 < max_batch
            → (e : LogEntry) → view l start ≡ some e
            → E.byte_size e ≤ max_len
            → 0 < length es)
  unfolding get_entries
  get_entries_refines hints start max_len max_batch ok small lo hi =
      elim (Bool-cases (ltb d.last_index start)) [
        | inl past ↦
            let gt = ltb→lt d.last_index start past in
            let next : (start == add64 d.last_index 1) ≡ true =
              ground (arith, r.last, r.well_formed.bound) in
            (
              [],
              rw (past, next) refl,
              record {
                contiguous = λ k h. absurd (omega arith);
                count = omega arith;
                bytes = omega arith;
              },
              λ inside. absurd (omega (arith, r.last)),
            )
        | inr inside ↦
            let hi_d = ltb-false→le d.last_index start inside in
            let (s, at, h, lo_s, hi_s, end) =
              get_segment_lem E r.entry d r.ordered start (omega (arith, r.first)) hi_d in
            let (es, read, b) =
              Batch.get_entries_lem E law r.entry s h hints ok max_len small start max_batch lo_s
                hi_s in
            (
              es,
              rw (inside, at) read,
              record {
                contiguous = λ k k_in.
                    r.same (start + k) (omega arith) (omega (arith, b.count, r.last))
                    ∙ sym (b.contiguous k k_in);
                count = omega (arith, b.count);
                bytes = b.bytes;
              },
              λ lt some_room e is_e fits.
                  let same : e ≡ r.entry start = some_injective (sym is_e ∙ r.same start lo lt) in
                  b.progress (omega (arith, hi_s)) (subst (λ x. E.byte_size x ≤ max_len) same fits),
            )
      ]
