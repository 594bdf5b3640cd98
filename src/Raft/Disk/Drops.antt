-- ===== src/Raft/Disk/Drops.antt =====
-- Dropping the entries at the start of a log on disk.
use my_super_ledger.Prelude.{
  ℕ, ◌+◌, ◌-◌, ◌≤◌, ◌<◌, ◌^◌, ◌≡◌, refl, true, false, some, List, [], ◌∷◌, ◌++◌, map, done, ◌>>=◌,
  expect, ltb, leb, arith, Bool-cases, ◌⊎◌, inl, inr, ltb→lt, ltb-false→le, if◌then◌else◌, ◌∙◌, ap,
  sym, sub64, add64,
}
use mathlib.Core.Path.{subst}
use my_super_ledger.Raft.Log.Defs.{LogEntry}
use my_super_ledger.Raft.Disk.Segment.{Env, Segment}
use my_super_ledger.Raft.Disk.Sealing.{IsLawful}
use my_super_ledger.Raft.Disk.Files.{file_of}
use my_super_ledger.Raft.Disk.SegmentLog.{
  SegmentLog, new_active, erase_below, reset_active, when_all_gone, truncate_prefix,
}
use my_super_ledger.Raft.Disk.Chain.{Chain, Chain-le, erase_below_lem}
use my_super_ledger.Raft.Disk.Represents.{IsOrdered, fresh-IsOrdered}

-- What is left of a log that drops the entries before `kept`.
pub record IsDropped (E : Env) (f : ℕ → LogEntry) (kept : ℕ) (d d' : SegmentLog) : Type 0 where
  pub ordered : IsOrdered E f d'
  pub new_first : d'.first_index ≡ kept
  pub new_last : d'.last_index ≡ (if ltb d.last_index kept then kept - 1 else d.last_index)
  pub same_term : d'.current_term ≡ d.current_term
  pub same_vote : d'.vote_for ≡ d.vote_for

module _ (E : Env) (kept : ℕ) (d : SegmentLog) (active : Segment)
    (has_active : d.active_segment ≡ some active) where
  reset_stays : ltb active.last_index kept ≡ false → reset_active E kept d ≡ done d
  unfolding reset_active
  reset_stays stays =
      let rest = λ (s : Segment).
        if ltb s.last_index kept
        then done (
            new_active E (add64 (sub64 d.first_index 1) 1)
              (record d { last_index = sub64 d.first_index 1; left = d.left ++ file_of s ∷ [] }))
        else done d in
      ap (λ a. expect a >>= rest) has_active ∙ rw stays

  pub reset_gone :
      (m n : ℕ)
      → sub64 d.first_index 1 ≡ m
      → add64 m 1 ≡ n
      → ltb active.last_index kept ≡ true
      → reset_active E kept d
        ≡ done (new_active E n (record d { last_index = m; left = d.left ++ file_of active ∷ [] }))
  unfolding reset_active
  reset_gone m n last next gone =
      let rest = λ (s : Segment).
        if ltb s.last_index kept
        then done (
            new_active E (add64 (sub64 d.first_index 1) 1)
              (record d { last_index = sub64 d.first_index 1; left = d.left ++ file_of s ∷ [] }))
        else done d in
      ap (λ a. expect a >>= rest) has_active ∙ rw (gone, last, next)

List-cases : (ss : List Segment) → (ss ≡ []) ⊎ ((s : Segment) × (ts : List Segment) × (ss ≡ s ∷ ts))
List-cases [] = inl refl
List-cases (s ∷ ts) = inr (s, ts, refl)

module _ (E : Env) (law : IsLawful E) (f : ℕ → LogEntry) (d : SegmentLog) (o : IsOrdered E f d)
    (kept : ℕ) (cut : d.first_index < kept) (fits : kept + 1 < 2 ^ 64) where
  -- the log with its new first index
  abbrev dropped : SegmentLog
  dropped = record d {
    meta_storage = record d.meta_storage { first_index_file = some kept };
    first_index = kept;
    closed_segments = (erase_below kept d.closed_segments).1;
    left = d.left ++ map file_of (erase_below kept d.closed_segments).0;
  }

  -- If some entry of the active segment stays, the segment stays.
  dropped-IsDropped :
      (start : ℕ)
      → Chain E f kept start (erase_below kept d.closed_segments).1 o.active.first_index
      → start ≤ kept
      → kept ≤ d.last_index
      → IsDropped E f kept d dropped
  dropped-IsDropped start chain low some_left = record {
    ordered = record {
      active = o.active;
      has_active = o.has_active;
      is_on = o.is_on;
      holds = o.holds;
      data_limit = o.data_limit;
      meta_limit = o.meta_limit;
      start = start;
      chain = chain;
      start_low = low;
      last = o.last;
      first = omega arith;
      size = omega arith;
      live = λ some_entry. omega (arith, o.last);
    };
    new_first = refl;
    new_last = ground arith;
    same_term = refl;
    same_vote = refl;
  }

  reset_active_lem :
      (start : ℕ)
      → Chain E f kept start (erase_below kept d.closed_segments).1 o.active.first_index
      → start ≤ kept
      → (erase_below kept d.closed_segments).1 ≡ []
      → (d' : SegmentLog) × (reset_active E kept dropped ≡ done d') × IsDropped E f kept d d'
  unfolding reset_active
  reset_active_lem start chain low all_gone = elim (Bool-cases (ltb o.active.last_index kept)) [
    | inr stays ↦ (
      dropped,
      reset_stays E kept dropped o.active o.has_active stays,
      dropped-IsDropped start chain low
          (omega (arith, o.last, ltb-false→le o.active.last_index kept stays)),
    )
    | inl gone ↦
        let lt = ltb→lt o.active.last_index kept gone in
        let last : sub64 kept 1 ≡ kept - 1 = omega arith in
        let next : add64 (kept - 1) 1 ≡ kept - 1 + 1 = omega arith in
        let d' = record dropped {
          last_index = kept - 1;
          left = dropped.left ++ file_of o.active ∷ [];
        } in
        (
          new_active E (kept - 1 + 1) d',
          reset_gone E kept dropped o.active o.has_active (kept - 1) (kept - 1 + 1) last next gone,
          record {
            ordered =
                fresh-IsOrdered E law f d' kept
                  (subst (λ ss. Chain E f kept kept ss (kept - 1 + 1)) (sym all_gone) (omega arith))
                  (omega arith) (omega arith) (omega arith) (omega arith);
            new_first = refl;
            new_last = ground (arith, o.last);
            same_term = refl;
            same_vote = refl;
          },
        )
  ]

  pub truncate_prefix_run :
      (d' : SegmentLog) × (truncate_prefix E kept d ≡ done d') × IsDropped E f kept d d'
  unfolding truncate_prefix
  truncate_prefix_run =
      let some_cut : leb kept d.first_index ≡ false = ground arith in
      let (start, chain, low) =
        erase_below_lem E f d.first_index kept o.start d.closed_segments o.active.first_index
          o.chain (omega (arith, o.start_low)) in
      elim (List-cases (erase_below kept d.closed_segments).1) [
        | inl all_gone ↦
            let (d', run, c) = reset_active_lem start chain low all_gone in
            (
              d',
              rw some_cut (
                  ap (λ ss. when_all_gone ss (reset_active E kept dropped) (done dropped)) all_gone
                  ∙ run),
              c,
            )
        | inr (s, ts, stay) ↦
            let c' = subst (λ ss. Chain E f kept start ss o.active.first_index) stay chain in
            let after = Chain-le E f kept (s.last_index + 1) ts o.active.first_index c'.5 in
            (
              dropped,
              rw some_cut
                  (ap (λ ss. when_all_gone ss (reset_active E kept dropped) (done dropped)) stay),
              dropped-IsDropped start chain low (omega (arith, c'.2, o.last, o.holds.size)),
            )
      ]
