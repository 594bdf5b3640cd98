-- ===== src/Raft/Disk/Copying.antt =====
-- Copying entries into a segment, and what has been written after it.
use my_super_ledger.Prelude.{
  ℕ, zero, suc, ◌+◌, ◌^◌, ◌≤◌, ◌<◌, ◌≡◌, refl, true, some, List, [], ◌∷◌, done, length, get_elem?,
  leb, ◌==◌, add64, arith, ◌∙◌, sym, some_injective,
}
use mathlib.Core.Path.{subst}
use my_super_ledger.Raft.Log.Defs.{LogEntry, total_size}
use my_super_ledger.Raft.Log.View.{Numbered}
use my_super_ledger.Raft.Disk.Memory.{read, write, read_ext, write_below, read-write}
use my_super_ledger.Raft.Disk.Segment.{Env, LogMeta, Segment, Copied, meta_of, copy_entries}
use my_super_ledger.Raft.Disk.Sealing.{IsLawful, IsSealed, IsSealable, seal_lem}
use my_super_ledger.Raft.Disk.Holds.{Slot, end_of}

-- The entry's bytes parse to the entry, and if digests are made, its version is a listed one.
pub record IsStorable (E : Env) (e : LogEntry) : Type 0 where
  pub parses : E.parse (E.serialize e) ≡ some e
  pub sealable : IsSealable E e

-- Every entry of the list can be stored.
abbrev pub AllStorable : Env → List LogEntry → Type 0
AllStorable E [] = Unit {0}
AllStorable E (e ∷ es) = IsStorable E e × AllStorable E es

-- The entries, the first with index `n`, have been written from `offset` on.
pub record Writes (E : Env) (bytes : ℕ → ℕ) (offset n : ℕ) (es : List LogEntry) (c : Copied)
    : Type 0 where
  pub kept : (p : ℕ) → p < offset → c.bytes p ≡ bytes p
  pub ends : c.offset ≡ offset + total_size E.byte_size es
  pub count : length c.metas ≡ length es
  pub slots :
      (k : ℕ) (e : LogEntry)
      → get_elem? es k ≡ some e
      → (m : LogMeta) × (get_elem? c.metas k ≡ some m) × Slot E c.bytes (n + k) e m
  pub above : (k : ℕ) (m : LogMeta) → get_elem? c.metas k ≡ some m → offset ≤ end_of m
  pub ordered :
      (j k : ℕ) (m m' : LogMeta)
      → j ≤ k
      → get_elem? c.metas j ≡ some m
      → get_elem? c.metas k ≡ some m'
      → end_of m ≤ end_of m'
  pub last :
      (k : ℕ) (m : LogMeta) → suc k ≡ length es → get_elem? c.metas k ≡ some m → end_of m ≡ c.offset

module _ (E : Env) (law : IsLawful E) where
  -- One more entry in front of a copy that starts where it ends.
  Writes-cons :
      (bytes : ℕ → ℕ) (offset n : ℕ) (e : LogEntry) (es : List LogEntry) (c : Copied) (m : LogMeta)
      → m.offset ≡ offset
      → Slot E (write (E.serialize e) offset bytes) n e m
      → Writes E (write (E.serialize e) offset bytes) (offset + E.byte_size e) (n + 1) es c
      → Writes E bytes offset n (e ∷ es) (record c { metas = m ∷ c.metas })
  Writes-cons bytes offset n e es c m start slot w = record {
    kept = λ p h. w.kept p (omega arith) ∙ write_below (E.serialize e) offset bytes p h;
    ends = omega (arith, w.ends);
    count = omega (arith, w.count);
    slots = slots;
    above = above;
    ordered = ordered;
    last = last;
  }
    where
      total_size_nil : (xs : List LogEntry) → length xs ≡ 0 → total_size E.byte_size xs ≡ 0
      total_size_nil [] h = refl
      total_size_nil (x ∷ xs) h = absurd (omega arith)

      same : read c.bytes m.offset m.length ≡ E.serialize e
      same =
          read_ext c.bytes (write (E.serialize e) offset bytes) m.offset m.length
            (λ p lo hi. w.kept p (omega (arith, slot.size, start)))
          ∙ slot.body

      slots :
          (k : ℕ) (x : LogEntry)
          → get_elem? (e ∷ es) k ≡ some x
          → (m' : LogMeta) × (get_elem? (m ∷ c.metas) k ≡ some m') × Slot E c.bytes (n + k) x m'
      slots zero x h =
          let eq : e ≡ x = some_injective h in
          let zeroth : n ≡ n + zero = omega arith in
          (
            m,
            refl,
            subst (λ y. Slot E c.bytes (n + zero) y m) eq
                (record {
                  place = slot.place ∙ zeroth;
                  index = slot.index ∙ zeroth;
                  term = slot.term;
                  size = slot.size;
                  body = same;
                  sealed = slot.sealed;
                  parses = slot.parses;
                }),
          )
      slots (suc k) x h =
          let (m', found, sl) = w.slots k x h in
          (m', found, subst (λ i. Slot E c.bytes i x m') (omega arith) sl)

      above : (k : ℕ) (a : LogMeta) → get_elem? (m ∷ c.metas) k ≡ some a → offset ≤ end_of a
      above zero a h = let eq : m ≡ a = some_injective h in ground (arith, start)
      above (suc k) a h = omega (arith, w.above k a h)

      ordered :
          (j k : ℕ) (a b : LogMeta)
          → j ≤ k
          → get_elem? (m ∷ c.metas) j ≡ some a
          → get_elem? (m ∷ c.metas) k ≡ some b
          → end_of a ≤ end_of b
      ordered zero zero a b le ha hb = let eq : a ≡ b = cc in ground arith
      ordered zero (suc k) a b le ha hb =
          let eq : m ≡ a = some_injective ha in ground (arith, w.above k b hb, start, slot.size)
      ordered (suc j) zero a b le ha hb = absurd (omega arith)
      ordered (suc j) (suc k) a b le ha hb = w.ordered j k a b (omega arith) ha hb

      last :
          (k : ℕ) (a : LogMeta)
          → suc k ≡ length (e ∷ es)
          → get_elem? (m ∷ c.metas) k ≡ some a
          → end_of a ≡ c.offset
      last zero a len h =
          let eq : m ≡ a = some_injective h in
          ground (arith, w.ends, start, slot.size, total_size_nil es)
      last (suc k) a len h = w.last k a (omega arith) h

  pub copy_entries_lem :
      (s : Segment) (i : ℕ) (bytes : ℕ → ℕ) (offset : ℕ) (es : List LogEntry)
      → Numbered (s.last_index + 1 + i) es
      → AllStorable E es
      → s.last_index + 1 + i + length es < 2 ^ 64
      → offset + total_size E.byte_size es ≤ s.data_size_limit
      → s.data_size_limit < 2 ^ 63
      → (c : Copied) × (copy_entries E s i bytes offset es ≡ done c)
        × Writes E bytes offset (s.last_index + 1 + i) es c
  unfolding copy_entries
  copy_entries_lem s i bytes offset [] num able bound fits small = (
    record { bytes = bytes; metas = []; offset = offset },
    refl,
    record {
      kept = λ p h. refl;
      ends = omega arith;
      count = refl;
      slots = λ k e h. cc;
      above = λ k m h. cc;
      ordered = λ j k m m' le ha hb. cc;
      last = λ k m len h. cc;
    },
  )
  copy_entries_lem s i bytes offset (e ∷ es) num able bound fits small =
      let bytes' = write (E.serialize e) offset bytes in
      let m = meta_of E offset e in
      let written : read bytes' offset (E.byte_size e) ≡ E.serialize e =
        subst (λ n. read bytes' offset n ≡ E.serialize e) (law.length-serialize e)
          (read-write (E.serialize e) offset bytes) in
      let (d, made, sealed) = seal_lem E law bytes' e m able.0.sealable refl in
      let next : add64 offset (E.byte_size e) ≡ offset + E.byte_size e = omega arith in
      let step : s.last_index + 1 + i + 1 ≡ s.last_index + 1 + (i + 1) = omega arith in
      let (c, rest, w) =
        copy_entries_lem s (i + 1) bytes' (offset + E.byte_size e) es
          (subst (λ k. Numbered k es) step num.1) able.1 (omega arith) (omega arith) small in
      let follows : (add64 (add64 s.last_index 1) i == e.index) ≡ true = ground (arith, num.0) in
      let inside : leb (offset + E.byte_size e) s.data_size_limit ≡ true = ground arith in
      let slot : Slot E bytes' (s.last_index + 1 + i) e (record m { digest = d }) = record {
        place = num.0;
        index = num.0;
        term = refl;
        size = refl;
        body = written;
        sealed = subst (λ b. IsSealed E (record m { digest = d }) b) written sealed;
        parses = able.0.parses;
      } in
      (
        record c { metas = record m { digest = d } ∷ c.metas },
        ground (arith, made, rest),
        Writes-cons bytes offset (s.last_index + 1 + i) e es c (record m { digest = d }) refl slot
            (subst (λ k. Writes E bytes' (offset + E.byte_size e) k es c) (sym step) w),
      )
