-- ===== src/Raft/Disk/Batch.antt =====
-- Reading a batch of entries from a segment.
use my_super_ledger.Prelude.{
  ℕ, zero, suc, ◌+◌, ◌-◌, ◌≤◌, ◌<◌, ◌^◌, ◌≡◌, refl, true, some, List, [], ◌∷◌, min, get_elem?,
  length, done, ◌>>=◌, ◌>>◌, ltb, leb, ◌&&◌, arith, Bool-cases, inl, inr, add64, sub64, ltb→lt,
  ltb-false→le, ap,
}
use mathlib.Core.Path.{subst}
use my_super_ledger.Raft.Log.Defs.{LogEntry, total_size}
use my_super_ledger.Raft.Disk.Segment.{Env, Segment, batch_loop, get_entries}
use my_super_ledger.Raft.Disk.Sealing.{IsLawful, IsHint}
use my_super_ledger.Raft.Disk.Holds.{
  Holds, get-Slot, get_meta_lem, load_lem, end-le-data, within_lem,
}

-- `es` are entries from `start` on, within the limits, and some if the first one fits them.
pub record IsRun (byte_size : LogEntry → ℕ) (f : ℕ → LogEntry) (start room budget : ℕ)
    (es : List LogEntry) : Type 0 where
  pub contiguous : (k : ℕ) → k < length es → get_elem? es k ≡ some (f (start + k))
  pub count : length es ≤ room
  pub bytes : total_size byte_size es ≤ budget
  pub progress : 0 < room → byte_size (f start) ≤ budget → 0 < length es

module _ (byte_size : LogEntry → ℕ) (f : ℕ → LogEntry) where
  IsRun-nil :
      (start room budget : ℕ)
      → (0 < room → byte_size (f start) ≤ budget → 0 < 0)
      → IsRun byte_size f start room budget []
  IsRun-nil start room budget none_fits = record {
    contiguous = λ k h. absurd (omega arith);
    count = omega arith;
    bytes = omega arith;
    progress = none_fits;
  }

  IsRun-cons :
      (start room budget : ℕ) (es : List LogEntry)
      → byte_size (f start) ≤ budget
      → IsRun byte_size f (start + 1) room (budget - byte_size (f start)) es
      → IsRun byte_size f start (suc room) budget (f start ∷ es)
  IsRun-cons start room budget es fits r = record {
    contiguous = at;
    count = omega (arith, r.count);
    bytes = omega (arith, r.bytes);
    progress = λ p q. omega arith;
  }
    where
      at : (k : ℕ) → k < length (f start ∷ es) → get_elem? (f start ∷ es) k ≡ some (f (start + k))
      at zero h = ap (λ i. some (f i)) (omega arith)
      at (suc k) h =
          let next : start + 1 + k ≡ start + suc k = omega arith in
          subst (λ i. get_elem? es k ≡ some (f i)) next (r.contiguous k (omega arith))

module _ (E : Env) (law : IsLawful E) (f : ℕ → LogEntry) (s : Segment) (h : Holds E f s)
    (hints : ℕ → ℕ) (ok : (i : ℕ) → IsHint E (hints i)) (max_len : ℕ)
    (small : max_len < 2 ^ 63) where
  batch_loop_lem :
      (room start len : ℕ)
      → s.first_index ≤ start
      → start + room ≤ s.last_index + 1
      → len ≤ max_len
      → (es : List LogEntry) × (batch_loop E hints max_len s room start len ≡ done (true, es))
        × IsRun E.byte_size f start room (max_len - len) es
  unfolding batch_loop
  batch_loop_lem zero start len lo hi fits =
      ([], refl, IsRun-nil E.byte_size f start zero (max_len - len) (λ p q. p))
  batch_loop_lem (suc room) start len lo hi fits =
      let m = s.metas (start - s.first_index) in
      let sl = get-Slot E law f s h start lo (omega arith) in
      let below = end-le-data E law f s h start lo (omega arith) in
      let sum : add64 len m.length ≡ len + E.byte_size (f start) =
        omega (arith, sl.size, h.data_fits, h.data_small) in
      let next : add64 start 1 ≡ start + 1 = omega (arith, h.bound) in
      let meta = get_meta_lem E law f s h start lo (omega arith) in
      let loaded = load_lem E law f s h (hints start) start (ok start) lo (omega arith) in
      elim (Bool-cases (ltb max_len (len + E.byte_size (f start)))) [
        | inl full ↦
            let over = ltb→lt max_len (len + E.byte_size (f start)) full in
            (
              [],
              ground (arith, meta, sum),
              IsRun-nil E.byte_size f start (suc room) (max_len - len) (λ p q. omega arith),
            )
        | inr room_left ↦
            let within = ltb-false→le max_len (len + E.byte_size (f start)) room_left in
            let (es, rest, r) =
              batch_loop_lem room (start + 1) (len + E.byte_size (f start)) (omega arith)
                (omega arith) within in
            (
              f start ∷ es,
              ground (arith, meta, loaded, sum, next, rest),
              IsRun-cons E.byte_size f start room (max_len - len) es (omega arith)
                  (subst (λ b. IsRun E.byte_size f (start + 1) room b es) (omega arith) r),
            )
      ]

  -- A batch from an index of the segment is read, and no entry is lost to a failed check.
  pub get_entries_lem :
      (start max_batch : ℕ)
      → s.first_index ≤ start
      → start ≤ s.last_index
      → (es : List LogEntry) × (get_entries E hints start max_len max_batch s
          ≡ done (length es, es))
        × IsRun E.byte_size f start (min max_batch (s.last_index + 1 - start)) max_len es
  unfolding get_entries
  get_entries_lem start max_batch lo hi =
      let room : add64 (sub64 s.last_index start) 1 ≡ s.last_index + 1 - start =
        omega (arith, h.bound) in
      let inside : (leb s.first_index start && leb start s.last_index) ≡ true = ground arith in
      let within = within_lem E law f s h start in
      let (es, read, r) =
        batch_loop_lem (min max_batch (s.last_index + 1 - start)) start 0 lo (omega arith)
          (omega arith) in
      (
        es,
        simp (within, inside, room, read, ◌>>=◌, ◌>>◌),
        subst (λ b. IsRun E.byte_size f start (min max_batch (s.last_index + 1 - start)) b es)
            (omega arith) r,
      )
