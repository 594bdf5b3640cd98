-- ===== src/Raft/Disk/Represents.antt =====
-- A log on disk that holds the entries of an in-memory log.
use my_super_ledger.Prelude.{
  ℕ, ◌+◌, ◌-◌, ◌≤◌, ◌<◌, ◌^◌, ◌≡◌, refl, true, false, some, none, ◌||◌, done, ◌>>=◌, ◌>>◌, length,
  ltb, leb, arith, Bool-cases, ◌⊎◌, inl, inr, lt→ltb, leb→le, leb-false→lt, sub64,
}
use my_super_ledger.Raft.Log.Defs.{LogEntry, Log}
use my_super_ledger.Raft.Log.View.{IsWellFormed, view}
use my_super_ledger.Raft.Disk.Segment.{Env, Segment, is_empty, create}
use my_super_ledger.Raft.Disk.Sealing.{IsLawful}
use my_super_ledger.Raft.Disk.Holds.{Holds, create-Holds}
use my_super_ledger.Raft.Disk.SegmentLog.{SegmentLog, new_active, get_segment}
use my_super_ledger.Raft.Disk.Chain.{Chain, Chain-pos, segment_before_lem}

-- The segments hold the entries `f i` of the log's range. Every segment ends in the range, and the
-- active one has the size of new segments.
pub record IsOrdered (E : Env) (f : ℕ → LogEntry) (d : SegmentLog) : Type 0 where
  pub active : Segment
  pub has_active : d.active_segment ≡ some active
  pub is_on : active.is_active ≡ true
  pub holds : Holds E f active
  pub data_limit : active.data_size_limit ≡ E.data_size_limit
  pub meta_limit : active.meta_size_limit ≡ E.meta_size_limit
  pub start : ℕ
  pub chain : Chain E f d.first_index start d.closed_segments active.first_index
  pub start_low : start ≤ d.first_index
  pub last : active.last_index ≡ d.last_index
  pub first : 1 ≤ d.first_index
  pub size : d.first_index ≤ d.last_index + 1
  pub live : active.first_index ≤ active.last_index → d.first_index ≤ active.last_index

-- The log on disk stands for the in-memory one.
pub record Represents (E : Env) (l : Log) (d : SegmentLog) : Type 0 where
  pub entry : ℕ → LogEntry
  pub ordered : IsOrdered E entry d
  pub well_formed : IsWellFormed l
  pub first : d.first_index ≡ l.first_index
  pub last : d.last_index ≡ l.last_index
  pub term : d.current_term ≡ l.current_term
  pub vote : d.vote_for ≡ l.vote_for
  pub same : (i : ℕ) → l.first_index ≤ i → i ≤ l.last_index → view l i ≡ some (entry i)

-- A new active segment behind the closed ones.
unfoldable pub fresh-IsOrdered :
    (E : Env) (law : IsLawful E) (f : ℕ → LogEntry) (d : SegmentLog) (start : ℕ)
    → Chain E f d.first_index start d.closed_segments (d.last_index + 1)
    → start ≤ d.first_index
    → 1 ≤ d.first_index
    → d.first_index ≤ d.last_index + 1
    → d.last_index + 1 < 2 ^ 64
    → IsOrdered E f (new_active E (d.last_index + 1) d)
unfolding create
fresh-IsOrdered E law f d start chain low first size bound =
    let last : sub64 (d.last_index + 1) 1 ≡ d.last_index = omega arith in
    record {
      active = create E (d.last_index + 1);
      has_active = refl;
      is_on = refl;
      holds = create-Holds E law f (d.last_index + 1) (omega arith) bound;
      data_limit = refl;
      meta_limit = refl;
      start = start;
      chain = chain;
      start_low = low;
      last = last;
      first = first;
      size = size;
      live = λ some_entry. absurd (omega arith);
    }

module _ (E : Env) (f : ℕ → LogEntry) (d : SegmentLog) (o : IsOrdered E f d) where
  -- The segment of an index of the range holds its entry.
  pub get_segment_lem :
      (i : ℕ)
      → d.first_index ≤ i
      → i ≤ d.last_index
      → (s : Segment) × (get_segment i d ≡ done (some s))
        × Holds E f s
        × (s.first_index ≤ i)
        × (i ≤ s.last_index)
        × (s.last_index ≤ d.last_index)
  unfolding get_segment
  get_segment_lem i lo hi =
      let before : sub64 d.first_index 1 ≡ d.first_index - 1 =
        omega (arith, o.first, o.holds.bound, o.last) in
      let inside : (is_empty d.first_index d.last_index
            || (ltb i d.first_index || ltb d.last_index i))
          ≡ false =
        rw before (ground (arith, o.first)) in
      elim (Bool-cases (leb o.active.first_index i)) [
        | inl newest ↦ (
          o.active,
          simp (inside, o.has_active, newest),
          o.holds,
          leb→le o.active.first_index i newest,
          omega (arith, o.last),
          omega (arith, o.last),
        )
        | inr older ↦
            let below = leb-false→lt o.active.first_index i older in
            let (s, found, h, lo_s, hi_s, end) =
              segment_before_lem E f d.first_index o.start d.closed_segments o.active.first_index i
                none o.chain (omega (arith, o.start_low)) below in
            let some_closed : ltb 0 (length d.closed_segments) ≡ true =
              lt→ltb 0 (length d.closed_segments) (
                Chain-pos E f d.first_index o.start d.closed_segments o.active.first_index o.chain
                  (omega (arith, o.start_low))) in
            (
              s,
              simp (inside, o.has_active, older, some_closed, found, ◌>>=◌, ◌>>◌),
              h,
              lo_s,
              hi_s,
              omega (arith, o.last, o.holds.size),
            )
      ]

  -- Outside the range there is none.
  pub get_segment-none :
      (i : ℕ) → i < d.first_index ⊎ d.last_index < i → get_segment i d ≡ done none
  unfolding get_segment
  get_segment-none i (inl below) = ground arith
  get_segment-none i (inr above) = ground arith
