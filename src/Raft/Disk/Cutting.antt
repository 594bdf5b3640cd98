-- ===== src/Raft/Disk/Cutting.antt =====
-- Cutting a segment at its end.
use my_super_ledger.Prelude.{
  ℕ, ◌+◌, ◌-◌, ◌*◌, ◌/◌, ◌≤◌, ◌<◌, ◌≡◌, refl, true, false, inl, inr, done, ◌>>=◌, ◌>>◌, ltb, leb,
  ◌==◌, ◌&&◌, ◌||◌, not, add64, sub64, arith, if◌then◌else◌, Bool-cases, leb-false→lt, ◌∙◌, sym, ap,
}
use mathlib.Core.Path.{subst}
use my_super_ledger.Raft.Log.Defs.{LogEntry}
use my_super_ledger.Raft.Disk.Memory.{fill}
use my_super_ledger.Raft.Disk.Segment.{Env, Segment, zero_meta, meta_len, get_meta, truncate_suffix}
use my_super_ledger.Raft.Disk.Holds.{Slot, Holds, end_of}

module _ (E : Env) (f : ℕ → LogEntry) (s : Segment) (kept : ℕ) (h : Holds E f s)
    (lo : s.first_index ≤ kept) (hi : kept < s.last_index) where
  -- what is left of the segment
  abbrev cut : Segment
  cut = record s {
    last_index = kept;
    meta_offset = (kept + 1 - s.first_index) * 64;
    metas = fill zero_meta (kept + 1 - s.first_index) (s.last_index - kept) s.metas;
    data_offset = end_of (s.metas (kept - s.first_index));
  }

  cut_meta : (k : ℕ) → s.first_index + k ≤ kept → cut.metas k ≡ s.metas k
  unfolding fill
  cut_meta k inside = ground arith

  cut-Holds : Holds E f cut
  cut-Holds = record {
    first = h.first;
    size = omega arith;
    bound = omega (arith, h.bound);
    metas_end = refl;
    meta_fits = omega (arith, h.meta_fits, h.metas_end);
    meta_small = h.meta_small;
    data_fits = omega (
      arith,
      h.ordered (kept - s.first_index) (s.last_index - s.first_index) (omega arith) (omega arith),
      h.tail_last (s.last_index - s.first_index) (omega arith),
      h.data_fits,
    );
    data_small = h.data_small;
    slots = λ k inside.
        subst (λ m. Slot E s.bytes (s.first_index + k) (f (s.first_index + k)) m)
          (sym (cut_meta k inside)) (h.slots k (omega arith));
    ordered = λ j k le inside.
        rw (cut_meta j (omega arith), cut_meta k inside) (h.ordered j k le (omega arith));
    tail_empty = λ e. absurd (omega arith);
    tail_last = λ k e.
        let at : kept - s.first_index ≡ k = omega arith in
        ap end_of (ap s.metas at ∙ sym (cut_meta k (omega arith)));
    blank = blank;
  }
    where
      blank : (k : ℕ) → kept < s.first_index + k → (cut.metas k).index ≡ 0
      blank k above = unfold fill in ground (arith, h.blank k)

  cut_runs : truncate_suffix kept s ≡ done cut
  unfolding truncate_suffix get_meta
  cut_runs =
      let n : meta_len (add64 (kept - s.first_index) 1) ≡ (kept + 1 - s.first_index) * 64 =
        omega (arith, h.bound, h.meta_small, h.meta_fits, h.metas_end) in
      let place : (kept + 1 - s.first_index) * 64 / 64 ≡ kept + 1 - s.first_index = omega arith in
      let count : sub64 s.last_index kept ≡ s.last_index - kept = omega (arith, h.bound) in
      let at : sub64 kept s.first_index ≡ kept - s.first_index = omega (arith, h.bound) in
      let before : sub64 s.first_index 1 ≡ s.first_index - 1 =
        omega (arith, h.bound, h.size, h.first) in
      let sl = h.slots (kept - s.first_index) (omega arith) in
      let m = s.metas (kept - s.first_index) in
      let index : m.index ≡ kept = omega (arith, sl.index) in
      let total : add64 m.offset m.length ≡ end_of m =
        omega (arith, cut-Holds.data_fits, h.data_small) in
      let same : (m.index == kept) ≡ true = ground (arith, index) in
      let le : leb s.last_index kept ≡ false = ground arith in
      let inside : (not (kept == s.first_index - 1)
            && not (ltb kept s.first_index || ltb kept kept))
          ≡ true =
        ground (arith, h.first) in
      let row = cut_meta (kept - s.first_index) (omega arith) in
      simp (at, n, place, count, row, total, before, inside, same, le, ◌>>=◌, ◌>>◌)

-- A segment that is cut at an index of its range, or past it, holds the entries up to there.
pub truncate_suffix_lem :
    (E : Env) (f : ℕ → LogEntry) (s : Segment) (kept : ℕ)
    → Holds E f s
    → s.first_index ≤ kept
    → (s' : Segment) × (truncate_suffix kept s ≡ done s')
      × Holds E f s'
      × (s'.last_index ≡ (if leb s.last_index kept then s.last_index else kept))
      × (s'.first_index ≡ s.first_index)
      × (s'.is_active ≡ s.is_active)
      × (s'.data_size_limit ≡ s.data_size_limit)
      × (s'.meta_size_limit ≡ s.meta_size_limit)
truncate_suffix_lem E f s kept h lo = elim (Bool-cases (leb s.last_index kept)) [
  | inl all ↦ (s, unfold truncate_suffix in ground arith, h, ground arith, refl, refl, refl, refl)
  | inr some_cut ↦
      let hi = leb-false→lt s.last_index kept some_cut in
      (
        cut E f s kept h lo hi,
        cut_runs E f s kept h lo hi,
        cut-Holds E f s kept h lo hi,
        ground arith,
        refl,
        refl,
        refl,
        refl,
      )
]
