-- ===== src/Raft/Disk/DropsMemory.antt =====
-- Dropping the entries at the start of both logs.
use my_super_ledger.Prelude.{
  ℕ, ◌+◌, ◌-◌, ◌<◌, ◌^◌, ◌≡◌, true, false, some, List, [], ◌∷◌, ◌++◌, map, done, ltb, leb, arith,
  Bool-cases, inl, inr, leb-false→lt, if◌then◌else◌, ◌∙◌, ap, sym, sub64, add64,
}
use my_super_ledger.Raft.Log.Defs as Memory
use my_super_ledger.Raft.Log.Defs.{LogEntry, Log}
use my_super_ledger.Raft.Log.Truncate.{truncate_prefix-IsWellFormed, view-truncate_prefix}
use my_super_ledger.Raft.Disk.Segment.{Env, Segment}
use my_super_ledger.Raft.Disk.Sealing.{IsLawful}
use my_super_ledger.Raft.Disk.Files.{file_of}
use my_super_ledger.Raft.Disk.SegmentLog.{
  SegmentLog, new_active, erase_below, reset_active, when_all_gone, truncate_prefix,
}
use my_super_ledger.Raft.Disk.Chain.{Chain-nil, erase_below_lem}
use my_super_ledger.Raft.Disk.Represents.{IsOrdered, Represents}
use my_super_ledger.Raft.Disk.Drops.{reset_gone, truncate_prefix_run}

memory_fields :
    (l : Log) (kept : ℕ)
    → l.first_index < kept
    → kept + 1 < 2 ^ 64
    → ((Memory.truncate_prefix kept l).first_index ≡ kept)
      × ((Memory.truncate_prefix kept l).last_index
          ≡ (if ltb l.last_index kept then kept - 1 else l.last_index))
      × ((Memory.truncate_prefix kept l).current_term ≡ l.current_term)
      × ((Memory.truncate_prefix kept l).vote_for ≡ l.vote_for)
unfolding Memory.truncate_prefix
memory_fields l kept cut fits = (ground arith, ground arith, ground arith, ground arith)

-- The same entries are dropped from both logs.
pub truncate_prefix_refines :
    (E : Env) (law : IsLawful E) (l : Log) (d : SegmentLog) (kept : ℕ)
    → Represents E l d
    → kept + 1 < 2 ^ 64
    → (d' : SegmentLog) × (truncate_prefix E kept d ≡ done d')
      × Represents E (Memory.truncate_prefix kept l) d'
truncate_prefix_refines E law l d kept r fits = elim (Bool-cases (leb kept l.first_index)) [
  | inl nothing ↦
      let same : leb kept d.first_index ≡ true = rw r.first nothing in
      (d, unfold truncate_prefix in rw same, unfold Memory.truncate_prefix in rw nothing r)
  | inr some_cut ↦
      let lt = leb-false→lt kept l.first_index some_cut in
      let (d', run, c) =
        truncate_prefix_run E law r.entry d r.ordered kept (omega (arith, r.first)) fits in
      let fields = memory_fields l kept lt fits in
      let cut_last : (if ltb d.last_index kept then kept - 1 else d.last_index)
          ≡ (if ltb l.last_index kept then kept - 1 else l.last_index) =
        ap (λ n. if ltb n kept then kept - 1 else n) r.last in
      (
        d',
        run,
        record {
          entry = r.entry;
          ordered = c.ordered;
          well_formed = truncate_prefix-IsWellFormed l r.well_formed kept fits;
          first = c.new_first ∙ sym fields.0;
          last = c.new_last ∙ cut_last ∙ sym fields.1;
          term = c.same_term ∙ r.term ∙ sym fields.2;
          vote = c.same_vote ∙ r.vote ∙ sym fields.3;
          same = λ i lo hi.
              let inside : ltb i kept ≡ false = ground (arith, fields.0) in
              view-truncate_prefix l r.well_formed kept fits i
              ∙ rw inside (r.same i (omega (arith, fields.0)) (ground (arith, fields.0, fields.1)));
        },
      )
]

-- What is left of a log that drops every entry: a new active segment, and the files of the others.
pub drop_all_run :
    (E : Env) (f : ℕ → LogEntry) (d : SegmentLog) (o : IsOrdered E f d) (kept : ℕ)
    → d.last_index + 1 < kept
    → kept + 1 < 2 ^ 64
    → truncate_prefix E kept d
      ≡ done (
          new_active E kept (record d {
            meta_storage = record d.meta_storage { first_index_file = some kept };
            first_index = kept;
            last_index = kept - 1;
            closed_segments = [];
            left =
                (d.left ++ map file_of (erase_below kept d.closed_segments).0)
                ++ file_of o.active ∷ [];
          }))
unfolding truncate_prefix
drop_all_run E f d o kept past fits =
    let some_cut : leb kept d.first_index ≡ false = ground (arith, o.size) in
    let (start, chain, low) =
      erase_below_lem E f d.first_index kept o.start d.closed_segments o.active.first_index o.chain
        (omega (arith, o.start_low, o.size)) in
    let none_stays : (erase_below kept d.closed_segments).1 ≡ [] =
      Chain-nil E f kept start (erase_below kept d.closed_segments).1 o.active.first_index chain
        (omega (arith, o.holds.size, o.last)) in
    let gone : ltb o.active.last_index kept ≡ true = ground (arith, o.last) in
    let last : sub64 kept 1 ≡ kept - 1 = omega arith in
    let next : add64 (kept - 1) 1 ≡ kept = omega arith in
    let end = λ (ss : List Segment). record d {
      meta_storage = record d.meta_storage { first_index_file = some kept };
      first_index = kept;
      closed_segments = ss;
      left = d.left ++ map file_of (erase_below kept d.closed_segments).0;
    } in
    let cut = end (erase_below kept d.closed_segments).1 in
    rw some_cut (
      ap (λ ss. when_all_gone ss (reset_active E kept cut) (done cut)) none_stays
      ∙ ap (λ ss. reset_active E kept (end ss)) none_stays
      ∙ reset_gone E kept (end []) o.active o.has_active (kept - 1) kept last next gone)
