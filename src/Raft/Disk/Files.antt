-- ===== src/Raft/Disk/Files.antt =====
-- The files that segments leave in the directory of the log, and their recovery. A pair of a data
-- and a meta file counts as one; its name tells an active segment from a closed one.
use my_super_ledger.Prelude.{
  ℕ, zero, suc, ◌+◌, ◌-◌, ◌/◌, ◌≤◌, ◌≡◌, Bool, true, false, inl, inr, Outcome, done, ◌>>=◌, ◌>>◌,
  assert, ltb, leb, ◌==◌, ◌||◌, add64, sub64, arith, if◌then◌else◌, Bool-cases, ltb→lt,
  ltb-false→le, sym, tests,
}
use my_super_ledger.Raft.Log.Defs.{LogEntry}
use my_super_ledger.Raft.Disk.Segment.{Env, LogMeta, Segment, meta_size, meta_len, is_empty}
use my_super_ledger.Raft.Disk.Holds.{Holds}

pub data FileName : Type 0 where
  in_progress : ℕ → FileName
  closed : ℕ → ℕ → FileName

pub record SegmentFile : Type 0 where
  pub name : FileName
  pub data_size : ℕ
  pub bytes : ℕ → ℕ
  pub meta_size : ℕ
  pub metas : ℕ → LogMeta

-- What a segment leaves: the mapping is shared, so the files hold what the memory holds.
unfoldable pub file_of : Segment → SegmentFile
file_of s = record {
  name = if s.is_active then in_progress s.first_index else closed s.first_index s.last_index;
  data_size = s.data_size_limit;
  bytes = s.bytes;
  meta_size = s.meta_size_limit;
  metas = s.metas;
}

-- The loop over the metas, on the number of those that fit the file.
unfoldable pub last_valid : (ℕ → LogMeta) → ℕ → ℕ → ℕ → ℕ
last_valid metas zero pos last = last
last_valid metas (suc n) pos last =
    let rest = last_valid metas n (pos + 1) (add64 last 1) in
    if (metas pos).index == add64 last 1 then rest else last

-- The offset after the last entry of the table.
unfoldable pub data_end : (ℕ → LogMeta) → ℕ → ℕ → ℕ
data_end metas first last =
    if is_empty first last
    then 0
    else add64 (metas (sub64 last first)).offset (metas (sub64 last first)).length

-- A segment whose last index, if it is closed, is `last`.
abbrev pub recovered : SegmentFile → Bool → ℕ → ℕ → Segment
recovered file active first last = record {
  data_size_limit = file.data_size;
  data_offset = data_end file.metas first last;
  bytes = file.bytes;
  meta_size_limit = file.meta_size;
  meta_offset = meta_len (add64 (sub64 last first) 1);
  metas = file.metas;
  first_index = first;
  last_index = last;
  is_active = active;
}

unfoldable pub recover : SegmentFile → Bool → ℕ → ℕ → Outcome Segment
recover file active first last = do
  let found = last_valid file.metas (file.meta_size / meta_size) 0 (sub64 first 1)
  assert (active || found == last)
  assert (leb (recovered file active first found).meta_offset file.meta_size)
  assert (leb (recovered file active first found).data_offset file.data_size)
  done (recovered file active first found)

module _ (E : Env) (f : ℕ → LogEntry) (s : Segment) (h : Holds E f s) where
  -- The loop stops at the last index of the segment.
  last_valid_lem :
      (n pos last : ℕ)
      → last + 1 ≡ s.first_index + pos
      → last ≤ s.last_index
      → s.last_index ≤ last + n
      → last_valid s.metas n pos last ≡ s.last_index
  unfolding last_valid
  last_valid_lem zero pos last at lo hi = omega arith
  last_valid_lem (suc n) pos last at lo hi = elim (Bool-cases (ltb last s.last_index)) [
    | inl more ↦
        let inside = ltb→lt last s.last_index more in
        let sl = h.slots pos (omega arith) in
        let wide : add64 last 1 ≡ last + 1 = omega (arith, h.bound) in
        let same : ((s.metas pos).index == last + 1) ≡ true = ground (arith, sl.index) in
        rw (wide, same)
          (last_valid_lem n (pos + 1) (last + 1) (omega arith) (omega arith) (omega arith))
    | inr at_end ↦
        let past = ltb-false→le last s.last_index at_end in
        let wide : add64 last 1 ≡ last + 1 = omega (arith, h.bound) in
        let stop : ((s.metas pos).index == last + 1) ≡ false =
          ground (arith, h.blank pos (omega arith)) in
        rw (wide, stop) (omega arith)
  ]

  data_end_lem : data_end s.metas s.first_index s.last_index ≡ s.data_offset
  unfolding data_end
  data_end_lem =
      let before : sub64 s.first_index 1 ≡ s.first_index - 1 =
        omega (arith, h.first, h.bound, h.size) in
      elim (Bool-cases (s.last_index == s.first_index - 1)) [
        | inl empty ↦ rw (before, empty) (sym (h.tail_empty (omega (tests, h.first))))
        | inr some_entry ↦
            let more : s.first_index ≤ s.last_index = ground (arith, h.size) in
            let at : sub64 s.last_index s.first_index ≡ s.last_index - s.first_index =
              omega (arith, h.bound) in
            let tail = h.tail_last (s.last_index - s.first_index) (omega arith) in
            rw (before, some_entry, at) (omega (arith, tail, h.data_fits, h.data_small))
      ]

  -- A segment is recovered from its files as it was.
  pub recover-file_of : recover (file_of s) s.is_active s.first_index s.last_index ≡ done s
  unfolding recover file_of
  recover-file_of =
      let before : sub64 s.first_index 1 ≡ s.first_index - 1 =
        omega (arith, h.first, h.bound, h.size) in
      let rooms : s.last_index ≤ s.first_index - 1 + s.meta_size_limit / 64 =
        omega (arith, h.metas_end, h.meta_fits, h.first, h.size) in
      let found : last_valid s.metas (s.meta_size_limit / 64) 0 (s.first_index - 1) ≡ s.last_index =
        last_valid_lem (s.meta_size_limit / 64) 0 (s.first_index - 1) (omega (arith, h.first))
          (omega (arith, h.size)) rooms in
      let offset : meta_len (add64 (sub64 s.last_index s.first_index) 1) ≡ s.meta_offset =
        omega (arith, h.metas_end, h.meta_fits, h.meta_small, h.bound, h.size, h.first) in
      let meta_room : leb s.meta_offset s.meta_size_limit ≡ true = ground (arith, h.meta_fits) in
      let data_room : leb s.data_offset s.data_size_limit ≡ true = ground (arith, h.data_fits) in
      let same : (s.last_index == s.last_index) ≡ true = ground arith in
      let any : (s.is_active || true) ≡ true = ground arith in
      simp (before, found, offset, data_end_lem, meta_room, data_room, same, any, ◌>>=◌, ◌>>◌)
