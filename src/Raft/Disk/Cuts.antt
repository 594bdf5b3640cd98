-- ===== src/Raft/Disk/Cuts.antt =====
-- Cutting a log on disk at its end.
use my_super_ledger.Prelude.{
  ℕ, ◌+◌, ◌≤◌, ◌<◌, ◌^◌, ◌≡◌, refl, true, false, some, List, [], ◌∷◌, done, ◌>>=◌, expect, length,
  leb, arith, Bool-cases, inl, inr, leb→le, leb-false→lt, if◌then◌else◌, ◌∙◌, ap, sym, add64,
}
use mathlib.Core.Path.{subst}
use my_super_ledger.Raft.Log.Defs as Memory
use my_super_ledger.Raft.Log.Defs.{LogEntry, Log}
use my_super_ledger.Raft.Log.Truncate.{truncate_suffix-IsWellFormed, view-truncate_suffix}
use my_super_ledger.Raft.Disk.Segment.{Env, Segment}
use my_super_ledger.Raft.Disk.Sealing.{IsLawful}
use my_super_ledger.Raft.Disk.Cutting.{truncate_suffix_lem}
use my_super_ledger.Raft.Disk.SegmentLog.{
  SegmentLog, new_active, keep_upto, truncate_last, but_last, cut_active, cut_closed,
  truncate_suffix,
}
use my_super_ledger.Raft.Disk.Chain.{Chain, Chain-nil, keep_upto_short, truncate_last_lem}
use my_super_ledger.Raft.Disk.Represents.{IsOrdered, fresh-IsOrdered, Represents}

cut_closed_last :
    (E : Env) (kept : ℕ) (ss ts : List Segment) (d : SegmentLog)
    → 0 < length ss
    → leb d.first_index kept ≡ true
    → truncate_last kept ss ≡ done ts
    → cut_closed E kept ss d
      ≡ done (new_active E (add64 kept 1) (record d { closed_segments = ts }))
unfolding cut_closed
cut_closed_last E kept [] ts d pos in_range run = absurd (omega arith)
cut_closed_last E kept (s ∷ ss) ts d pos in_range run = rw (in_range, run)

cut_closed_all :
    (E : Env) (kept : ℕ) (ss : List Segment) (d : SegmentLog)
    → length ss ≤ 1
    → leb d.first_index kept ≡ false
    → add64 kept 1 ≡ d.first_index
    → cut_closed E kept ss d
      ≡ done (new_active E (add64 kept 1) (record d { closed_segments = [] }))
unfolding cut_closed but_last
cut_closed_all E kept [] d short below at =
    ap
      (λ n. done (new_active E (add64 kept 1) (record d { first_index = n; closed_segments = [] })))
      at
cut_closed_all E kept (s ∷ []) d short below at = rw below
cut_closed_all E kept (s ∷ t ∷ ts) d short below at = absurd (omega arith)

-- What is left of a log that is cut.
record IsCut (E : Env) (f : ℕ → LogEntry) (kept : ℕ) (d d' : SegmentLog) : Type 0 where
  ordered : IsOrdered E f d'
  same_first : d'.first_index ≡ d.first_index
  new_last : d'.last_index ≡ kept
  same_term : d'.current_term ≡ d.current_term
  same_vote : d'.vote_for ≡ d.vote_for

module _ (E : Env) (law : IsLawful E) (f : ℕ → LogEntry) (d : SegmentLog) (o : IsOrdered E f d)
    (kept : ℕ) (cut : kept < d.last_index) (low : d.first_index ≤ kept + 1) where
  -- the log with its new last index
  abbrev shortened : SegmentLog
  shortened = record d { last_index = kept }

  bump : add64 kept 1 ≡ kept + 1
  bump = omega (arith, o.holds.bound, o.last)

  -- Closed segments up to the new last index and a new active one make a log that is cut.
  fresh-IsCut :
      (ts : List Segment) (start : ℕ)
      → Chain E f d.first_index start ts (kept + 1)
      → start ≤ d.first_index
      → IsCut E f kept d (new_active E (kept + 1) (record shortened { closed_segments = ts }))
  fresh-IsCut ts start chain start_low = record {
    ordered =
        fresh-IsOrdered E law f (record shortened { closed_segments = ts }) start chain start_low
          o.first low (omega (arith, o.holds.bound, o.last));
    same_first = refl;
    new_last = refl;
    same_term = refl;
    same_vote = refl;
  }

  cut_active_lem :
      o.active.first_index ≤ kept
      → (d' : SegmentLog) × (cut_active E kept o.active shortened ≡ done d') × IsCut E f kept d d'
  unfolding cut_active
  cut_active_lem inside = elim (Bool-cases (leb d.first_index kept)) [
    | inl in_range ↦
        let lo = leb→le d.first_index kept in_range in
        let (s, run, h, last, first, on, data_limit, meta_limit) =
          truncate_suffix_lem E f o.active kept o.holds inside in
        let end : s.last_index ≡ kept = ground (arith, o.last) in
        (
          record shortened { active_segment = some s },
          rw (in_range, run),
          record {
            ordered = record {
              active = s;
              has_active = refl;
              is_on = on ∙ o.is_on;
              holds = h;
              data_limit = data_limit ∙ o.data_limit;
              meta_limit = meta_limit ∙ o.meta_limit;
              start = o.start;
              chain =
                  subst (λ m. Chain E f d.first_index o.start d.closed_segments m) (sym first)
                    o.chain;
              start_low = o.start_low;
              last = end;
              first = o.first;
              size = low;
              live = λ some_entry. omega arith;
            };
            same_first = refl;
            new_last = refl;
            same_term = refl;
            same_vote = refl;
          },
        )
    | inr below ↦
        let lt = leb-false→lt d.first_index kept below in
        let empty : d.closed_segments ≡ [] =
          Chain-nil E f d.first_index o.start d.closed_segments o.active.first_index o.chain
            (omega arith) in
        (
          new_active E (kept + 1) (record shortened { closed_segments = [] }),
          rw (below, bump)
              (ap (λ ss. done (new_active E (kept + 1) (record shortened { closed_segments = ss })))
                empty),
          fresh-IsCut [] (kept + 1) refl (omega arith),
        )
  ]

  cut_closed_lem :
      kept < o.active.first_index
      → (d' : SegmentLog) × (cut_closed E kept (keep_upto kept d.closed_segments) shortened
          ≡ done d')
        × IsCut E f kept d d'
  cut_closed_lem before = elim (Bool-cases (leb d.first_index kept)) [
    | inl in_range ↦
        let lo = leb→le d.first_index kept in_range in
        let (ts, run, chain, pos) =
          truncate_last_lem E f d.first_index o.start d.closed_segments o.active.first_index kept
            o.chain (omega (arith, o.start_low)) before lo in
        (
          new_active E (kept + 1) (record shortened { closed_segments = ts }),
          subst
              (λ n.
                cut_closed E kept (keep_upto kept d.closed_segments) shortened
                ≡ done (new_active E n (record shortened { closed_segments = ts })))
              bump
              (cut_closed_last E kept (keep_upto kept d.closed_segments) ts shortened pos in_range
                run),
          fresh-IsCut ts o.start chain o.start_low,
        )
    | inr below ↦
        let lt = leb-false→lt d.first_index kept below in
        let short =
          keep_upto_short E f d.first_index o.start d.closed_segments o.active.first_index kept
            o.chain lt in
        (
          new_active E (kept + 1) (record shortened { closed_segments = [] }),
          subst
              (λ n.
                cut_closed E kept (keep_upto kept d.closed_segments) shortened
                ≡ done (new_active E n (record shortened { closed_segments = [] })))
              bump
              (cut_closed_all E kept (keep_upto kept d.closed_segments) shortened short below
                (bump ∙ omega arith)),
          fresh-IsCut [] (kept + 1) refl (omega arith),
        )
  ]

  truncate_suffix_run :
      (d' : SegmentLog) × (truncate_suffix E kept d ≡ done d') × IsCut E f kept d d'
  unfolding truncate_suffix
  truncate_suffix_run =
      let some_cut : leb d.last_index kept ≡ false = ground arith in
      let rest = λ (active : Segment).
        if leb active.first_index kept
        then cut_active E kept active shortened
        else cut_closed E kept (keep_upto kept d.closed_segments) shortened in
      let read = ap (λ a. expect a >>= rest) o.has_active in
      elim (Bool-cases (leb o.active.first_index kept)) [
        | inl inside ↦
            let (d', run, c) = cut_active_lem (leb→le o.active.first_index kept inside) in
            (d', rw some_cut (read ∙ rw inside run), c)
        | inr before ↦
            let (d', run, c) = cut_closed_lem (leb-false→lt o.active.first_index kept before) in
            (d', rw some_cut (read ∙ rw before run), c)
      ]

memory_fields :
    (l : Log) (kept : ℕ)
    → l.first_index ≤ kept + 1
    → kept < l.last_index
    → l.last_index + 1 < 2 ^ 64
    → ((Memory.truncate_suffix kept l).first_index ≡ l.first_index)
      × ((Memory.truncate_suffix kept l).last_index ≡ kept)
      × ((Memory.truncate_suffix kept l).current_term ≡ l.current_term)
      × ((Memory.truncate_suffix kept l).vote_for ≡ l.vote_for)
unfolding Memory.truncate_suffix
memory_fields l kept low cut bound = (ground arith, ground arith, ground arith, ground arith)

-- A cut that leaves the first index alone, or just empties the log, does the same to both logs.
pub truncate_suffix_refines :
    (E : Env) (law : IsLawful E) (l : Log) (d : SegmentLog) (kept : ℕ)
    → Represents E l d
    → l.first_index ≤ kept + 1
    → (d' : SegmentLog) × (truncate_suffix E kept d ≡ done d')
      × Represents E (Memory.truncate_suffix kept l) d'
truncate_suffix_refines E law l d kept r low = elim (Bool-cases (leb l.last_index kept)) [
  | inl nothing ↦
      let same : leb d.last_index kept ≡ true = rw r.last nothing in
      (d, unfold truncate_suffix in rw same, unfold Memory.truncate_suffix in rw nothing r)
  | inr some_cut ↦
      let lt = leb-false→lt l.last_index kept some_cut in
      let (d', run, c) =
        truncate_suffix_run E law r.entry d r.ordered kept (omega (arith, r.last))
          (omega (arith, r.first)) in
      let wf =
        truncate_suffix-IsWellFormed l r.well_formed kept (omega (arith, r.well_formed.bound)) in
      let fields = memory_fields l kept low lt r.well_formed.bound in
      (
        d',
        run,
        record {
          entry = r.entry;
          ordered = c.ordered;
          well_formed = wf;
          first = c.same_first ∙ r.first ∙ sym fields.0;
          last = c.new_last ∙ sym fields.1;
          term = c.same_term ∙ r.term ∙ sym fields.2;
          vote = c.same_vote ∙ r.vote ∙ sym fields.3;
          same = λ i lo hi.
              let inside : leb i kept ≡ true = ground (arith, fields.1) in
              view-truncate_suffix l r.well_formed kept (omega (arith, r.well_formed.bound)) i
              ∙ rw inside (r.same i (omega (arith, fields.0)) (omega (arith, fields.1)));
        },
      )
]
