-- ===== src/Raft/Disk/Rolling.antt =====
-- Making room for entries: the active segment is closed and a new one created.
use my_super_ledger.Prelude.{
  ℕ, ◌+◌, ◌*◌, ◌%◌, ◌≤◌, ◌<◌, ◌^◌, ◌≡◌, refl, true, false, List, [], ◌∷◌, ◌++◌, done, ◌>>=◌, ◌>>◌,
  expect, length, ltb, arith, Bool-cases, ◌⊎◌, inl, inr, ltb→lt, ltb-false→le, add64,
}
use mathlib.Core.Path.{subst}
use my_super_ledger.Raft.Log.Defs.{LogEntry, total_size}
use my_super_ledger.Raft.Disk.Segment.{Env, Segment, create, should_roll, meta_len}
use my_super_ledger.Raft.Disk.Sealing.{IsLawful}
use my_super_ledger.Raft.Disk.Holds.{Holds, close_lem}
use my_super_ledger.Raft.Disk.SegmentLog.{
  SegmentLog, new_active, roll_active_segment, roll_if_needed,
}
use my_super_ledger.Raft.Disk.Chain.{Chain, Chain-snoc, insert_segment_lem}
use my_super_ledger.Raft.Disk.Represents.{IsOrdered, fresh-IsOrdered}

-- The entries fit a new segment.
pub record Fits (E : Env) (es : List LogEntry) : Type 0 where
  pub data_fits : total_size E.byte_size es ≤ E.data_size_limit
  pub meta_fits : length es * 64 ≤ E.meta_size_limit

-- The active segment has room for the entries.
pub record HasRoom (E : Env) (es : List LogEntry) (s : Segment) : Type 0 where
  pub data_room : s.data_offset + total_size E.byte_size es ≤ s.data_size_limit
  pub meta_room : s.meta_offset + length es * 64 ≤ s.meta_size_limit

-- What the steps of an append leave alone.
pub record Same (d d' : SegmentLog) : Type 0 where
  pub same_first : d'.first_index ≡ d.first_index
  pub same_term : d'.current_term ≡ d.current_term
  pub same_vote : d'.vote_for ≡ d.vote_for

module _ (E : Env) (law : IsLawful E) (es : List LogEntry) (fits : Fits E es) where
  -- The active segment has room, or it holds an entry and is rolled.
  should_roll_lem :
      (f : ℕ → LogEntry) (s : Segment)
      → Holds E f s
      → s.is_active ≡ true
      → s.data_size_limit ≡ E.data_size_limit
      → s.meta_size_limit ≡ E.meta_size_limit
      → ((should_roll E es s ≡ done false) × HasRoom E es s)
        ⊎ ((should_roll E es s ≡ done true) × (s.first_index ≤ s.last_index))
  unfolding should_roll
  should_roll_lem f s h on data_limit meta_limit =
      let meta_wide : add64 s.meta_offset (meta_len (length es)) ≡ s.meta_offset + length es * 64 =
        omega (arith, h.meta_fits, h.meta_small, fits.meta_fits, law.meta_small) in
      let data_wide : add64 s.data_offset (total_size E.byte_size es % 2 ^ 64)
          ≡ s.data_offset + total_size E.byte_size es =
        omega (arith, h.data_fits, h.data_small, fits.data_fits, law.data_small) in
      elim (Bool-cases (ltb s.meta_size_limit (s.meta_offset + length es * 64))) [
        | inl full ↦
            let over = ltb→lt s.meta_size_limit (s.meta_offset + length es * 64) full in
            inr (
              simp (on, meta_wide, full, ◌>>=◌, ◌>>◌),
              omega (arith, h.metas_end, h.size, fits.meta_fits),
            )
        | inr meta_room ↦
            elim (Bool-cases (ltb s.data_size_limit (s.data_offset + total_size E.byte_size es))) [
              | inl full ↦
                  let over =
                    ltb→lt s.data_size_limit (s.data_offset + total_size E.byte_size es) full in
                  inr
                    (simp (on, meta_wide, meta_room, data_wide, full, ◌>>=◌, ◌>>◌), holds_some over)
              | inr data_room ↦ inl (
                simp (on, meta_wide, meta_room, data_wide, data_room, ◌>>=◌, ◌>>◌),
                record {
                  data_room =
                      ltb-false→le s.data_size_limit (s.data_offset + total_size E.byte_size es)
                        data_room;
                  meta_room =
                      ltb-false→le s.meta_size_limit (s.meta_offset + length es * 64) meta_room;
                },
              )
            ]
      ]
    where
      holds_some :
          s.data_size_limit < s.data_offset + total_size E.byte_size es
          → s.first_index ≤ s.last_index
      holds_some over = elim (Bool-cases (ltb s.last_index s.first_index)) [
        | inl empty ↦
            let lt = ltb→lt s.last_index s.first_index empty in
            let none_used = h.tail_empty (omega (arith, h.size)) in
            absurd (omega (arith, none_used, fits.data_fits, data_limit))
        | inr some_entry ↦ ltb-false→le s.last_index s.first_index some_entry
      ]

  -- The log whose active segment is closed and that has a new one.
  abbrev rolled : SegmentLog → Segment → SegmentLog
  rolled d s =
      new_active E (d.last_index + 1)
        (record d { closed_segments = d.closed_segments ++ record s { is_active = false } ∷ [] })

  roll_lem :
      (f : ℕ → LogEntry) (d : SegmentLog) (o : IsOrdered E f d)
      → o.active.first_index ≤ o.active.last_index
      → roll_active_segment E d ≡ done (rolled d o.active)
  unfolding roll_active_segment
  roll_lem f d o some_entry =
      let bump : add64 d.last_index 1 ≡ d.last_index + 1 = omega (arith, o.holds.bound, o.last) in
      let placed =
        insert_segment_lem E f d.first_index o.start d.closed_segments o.active.first_index
          (record o.active { is_active = false }) o.chain refl in
      let closed = (close_lem E f o.active o.is_on o.holds).0 in
      simp (o.has_active, closed, placed, bump, expect, ◌>>=◌, ◌>>◌)

  rolled-IsOrdered :
      (f : ℕ → LogEntry) (d : SegmentLog) (o : IsOrdered E f d)
      → o.active.first_index ≤ o.active.last_index
      → IsOrdered E f (rolled d o.active)
  rolled-IsOrdered f d o some_entry =
      let off : Segment = record o.active { is_active = false } in
      let chain =
        Chain-snoc E f d.first_index o.start d.closed_segments o.active.first_index off o.chain refl
          some_entry (o.live some_entry) refl (close_lem E f o.active o.is_on o.holds).1 in
      fresh-IsOrdered E law f (record d { closed_segments = d.closed_segments ++ off ∷ [] }) o.start
        (subst (λ n. Chain E f d.first_index o.start (d.closed_segments ++ off ∷ []) (n + 1)) o.last
          chain)
        o.start_low o.first o.size (omega (arith, o.holds.bound, o.last))

  -- After the rolling the active segment has room, and the log holds what it held.
  pub roll_if_needed_lem :
      (f : ℕ → LogEntry) (d : SegmentLog)
      → IsOrdered E f d
      → (d' : SegmentLog) × (o' : IsOrdered E f d') × (roll_if_needed E es d ≡ done d')
        × HasRoom E es o'.active
        × Same d d'
        × (d'.last_index ≡ d.last_index)
  unfolding roll_if_needed rolled-IsOrdered fresh-IsOrdered
  roll_if_needed_lem f d o =
      elim (should_roll_lem f o.active o.holds o.is_on o.data_limit o.meta_limit) [
        | inl (stays, room) ↦ (
          d,
          o,
          simp (o.has_active, stays, expect, ◌>>=◌),
          room,
          record { same_first = refl; same_term = refl; same_vote = refl },
          refl,
        )
        | inr (rolls, some_entry) ↦
            let run = roll_lem f d o some_entry in
            (
              rolled d o.active,
              rolled-IsOrdered f d o some_entry,
              simp (o.has_active, rolls, run, expect, ◌>>=◌),
              record {
                data_room = unfold create in omega (arith, fits.data_fits);
                meta_room = unfold create in omega (arith, fits.meta_fits);
              },
              record { same_first = refl; same_term = refl; same_vote = refl },
              refl,
            )
      ]
