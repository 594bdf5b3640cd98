-- ===== src/Raft/Disk/Appends.antt =====
-- Appending to a log on disk.
use my_super_ledger.Prelude.{
  ℕ, ◌+◌, ◌-◌, ◌≤◌, ◌<◌, ◌^◌, ◌≡◌, refl, true, false, some, none, List, [], ◌∷◌, done, ◌>>=◌,
  expect, length, get_elem?, ltb, ◌==◌, arith, Bool-cases, inl, inr, ltb→lt, ltb-false→le,
  if◌then◌else◌, ◌∙◌, ap, sym, add64, tests,
}
use mathlib.Core.Path.{subst}
use my_super_ledger.Raft.Log.Defs as Memory
use my_super_ledger.Raft.Log.Defs.{LogEntry, Log, total_size}
use my_super_ledger.Raft.Log.View.{IsWellFormed, Numbered, view, get_elem?-some}
use my_super_ledger.Raft.Log.Append.{Extends, append_entries_lem, append_entry_lem}
use my_super_ledger.Raft.Disk.Segment.{Env}
use my_super_ledger.Raft.Disk.Sealing.{IsLawful}
use my_super_ledger.Raft.Disk.Holds.{Holds-ext}
use my_super_ledger.Raft.Disk.Writing as Writing
use my_super_ledger.Raft.Disk.Copying.{AllStorable}
use my_super_ledger.Raft.Disk.SegmentLog.{SegmentLog, write_entries, append_entries}
use my_super_ledger.Raft.Disk.Chain.{Chain, Chain-ext}
use my_super_ledger.Raft.Disk.Represents.{IsOrdered, Represents}
use my_super_ledger.Raft.Disk.Rolling.{Fits, Same, roll_if_needed_lem}

module _ (E : Env) (law : IsLawful E) where
  -- The order of a log depends on the entries up to its last index only.
  IsOrdered-ext :
      (f g : ℕ → LogEntry) (d : SegmentLog)
      → IsOrdered E f d
      → ((i : ℕ) → i ≤ d.last_index → f i ≡ g i)
      → IsOrdered E g d
  IsOrdered-ext f g d o same = record {
    active = o.active;
    has_active = o.has_active;
    is_on = o.is_on;
    holds = Holds-ext E f g o.active o.holds (λ i lo hi. same i (omega (arith, o.last)));
    data_limit = o.data_limit;
    meta_limit = o.meta_limit;
    start = o.start;
    chain =
        Chain-ext E f g d.first_index o.start d.closed_segments o.active.first_index o.chain
          (λ i below. same i (omega (arith, o.last, o.holds.size)));
    start_low = o.start_low;
    last = o.last;
    first = o.first;
    size = o.size;
    live = o.live;
  }

  -- What `appendEntries` does after its tests.
  write_entries_lem :
      (f : ℕ → LogEntry) (d : SegmentLog) (e : LogEntry) (es : List LogEntry)
      → IsOrdered E f d
      → Fits E (e ∷ es)
      → Numbered (d.last_index + 1) (e ∷ es)
      → AllStorable E (e ∷ es)
      → d.last_index + length (e ∷ es) + 1 < 2 ^ 64
      → ((k : ℕ) (x : LogEntry) → get_elem? (e ∷ es) k ≡ some x → f (d.last_index + 1 + k) ≡ x)
      → (d' : SegmentLog) × (write_entries E (e ∷ es) d ≡ done d')
        × IsOrdered E f d'
        × (d'.last_index ≡ d.last_index + length (e ∷ es))
        × Same d d'
  unfolding write_entries
  write_entries_lem f d e es o fits num able bound given =
      let (d', o', rolled, room, same, last) = roll_if_needed_lem E law (e ∷ es) fits f d o in
      let end : o'.active.last_index ≡ d.last_index = o'.last ∙ last in
      let (s, run, h, s_last, s_first, s_on, s_data, s_meta) =
        Writing.append_entries_lem E law f o'.active e es o'.holds o'.is_on
          (subst (λ n. Numbered (n + 1) (e ∷ es)) (sym end) num) able (omega (arith, end))
          room.data_room room.meta_room (λ k x at. ap (λ n. f (n + 1 + k)) end ∙ given k x at) in
      let wide : add64 d'.last_index (length (e ∷ es)) ≡ d.last_index + length (e ∷ es) =
        omega (arith, last) in
      (
        record d' { active_segment = some s; last_index = d.last_index + length (e ∷ es) },
        simp (rolled, o'.has_active, run, wide, expect, ◌>>=◌),
        record {
          active = s;
          has_active = refl;
          is_on = s_on;
          holds = h;
          data_limit = s_data ∙ o'.data_limit;
          meta_limit = s_meta ∙ o'.meta_limit;
          start = o'.start;
          chain =
              subst (λ m. Chain E f d'.first_index o'.start d'.closed_segments m) (sym s_first)
                o'.chain;
          start_low = o'.start_low;
          last = s_last ∙ ap (λ n. n + length (e ∷ es)) end;
          first = o'.first;
          size = omega (arith, o'.size, last);
          live = λ some_entry. omega (arith, o'.size, last, s_last, end);
        },
        refl,
        record {
          same_first = same.same_first;
          same_term = same.same_term;
          same_vote = same.same_vote;
        },
      )

-- The entries from index `n` on, and `f` elsewhere.
abbrev extend : (ℕ → LogEntry) → ℕ → List LogEntry → ℕ → LogEntry
extend f n es i = elim (get_elem? es (i - n)) [ none ↦ f i | some e ↦ if ltb i n then f i else e ]

extend_old : (f : ℕ → LogEntry) (n : ℕ) (es : List LogEntry) (i : ℕ) → i < n → extend f n es i ≡ f i
extend_old f n es i below = ground arith

extend_new :
    (f : ℕ → LogEntry) (n : ℕ) (es : List LogEntry) (k : ℕ) (e : LogEntry)
    → get_elem? es k ≡ some e
    → extend f n es (n + k) ≡ e
extend_new f n es k e at =
    let place : n + k - n ≡ k = omega arith in
    let found : get_elem? es (n + k - n) ≡ some e = ap (get_elem? es) place ∙ at in ground arith

append_refused :
    (l : Log)
    → IsWellFormed l
    → (e : LogEntry) (es : List LogEntry) → (e.index == l.last_index + 1) ≡ false
    → Memory.append_entries (e ∷ es) l ≡ (false, l)
unfolding Memory.append_entries
append_refused l w e es other =
    let refused : Memory.append_entry e l ≡ (false, l) = append_entry_lem l w e ∙ rw other in
    ap (Memory.proceed (Memory.append_entries es)) refused

disk_refused :
    (E : Env) (d : SegmentLog) (e : LogEntry) (es : List LogEntry)
    → (e.index == add64 d.last_index 1) ≡ false
    → append_entries E (e ∷ es) d ≡ done (false, d)
unfolding append_entries
disk_refused E d e es other = rw other

disk_appended :
    (E : Env) (d d' : SegmentLog) (e : LogEntry) (es : List LogEntry)
    → (e.index == add64 d.last_index 1) ≡ true
    → write_entries E (e ∷ es) d ≡ done d'
    → append_entries E (e ∷ es) d ≡ done (true, d')
unfolding append_entries
disk_appended E d d' e es follows run = rw (follows, run)

module _ (E : Env) (law : IsLawful E) (l : Log) (d : SegmentLog) (r : Represents E l d) where
  -- Both logs after an append that succeeds.
  appended-Represents :
      (es : List LogEntry) (l' : Log) (d' : SegmentLog)
      → Extends l l' es
      → IsOrdered E (extend r.entry (l.last_index + 1) es) d'
      → d'.last_index ≡ d.last_index + length es
      → Same d d'
      → Represents E l' d'
  appended-Represents es l' d' x o last same = record {
    entry = extend r.entry (l.last_index + 1) es;
    ordered = o;
    well_formed = x.well_formed;
    first = same.same_first ∙ r.first ∙ sym x.first;
    last = omega (arith, last, x.last, r.last);
    term = same.same_term ∙ r.term ∙ sym x.term;
    vote = same.same_vote ∙ r.vote ∙ sym x.vote;
    same = entries;
  }
    where
      entries :
          (i : ℕ)
          → l'.first_index ≤ i
          → i ≤ l'.last_index
          → view l' i ≡ some (extend r.entry (l.last_index + 1) es i)
      entries i lo hi = elim (Bool-cases (ltb l.last_index i)) [
        | inr old ↦
            let le = ltb-false→le l.last_index i old in
            x.old i le
            ∙ r.same i (omega (arith, x.first)) le
            ∙ ap some (sym (extend_old r.entry (l.last_index + 1) es i (omega arith)))
        | inl new ↦
            let lt = ltb→lt l.last_index i new in
            let k = i - l.last_index - 1 in
            let at : l.last_index + 1 + k ≡ i = omega arith in
            let below : k < length es = omega (arith, x.last) in
            let (e, found) = get_elem?-some es k below in
            subst (λ j. view l' j ≡ some (extend r.entry (l.last_index + 1) es j)) at
              (x.new k below
                ∙ found
                ∙ ap some (sym (extend_new r.entry (l.last_index + 1) es k e found)))
      ]

  -- Entries that follow one another, that fit a new segment and that can be stored are
  -- appended to both logs or to none.
  pub append_entries_refines :
      (n : ℕ) (es : List LogEntry)
      → Numbered n es
      → Fits E es
      → AllStorable E es
      → l.last_index + length es + 1 < 2 ^ 64
      → (d' : SegmentLog) × (append_entries E es d ≡ done ((Memory.append_entries es l).0, d'))
        × Represents E (Memory.append_entries es l).1 d'
  append_entries_refines n [] num fits able bound =
      (d, unfold append_entries Memory.append_entries in refl, unfold Memory.append_entries in r)
  append_entries_refines n (e ∷ es) num fits able bound =
      let bump : add64 d.last_index 1 ≡ l.last_index + 1 = omega (arith, r.last) in
      elim (Bool-cases (e.index == l.last_index + 1)) [
        | inr other ↦
            let refused = append_refused l r.well_formed e es other in
            (d, rw refused (disk_refused E d e es (rw bump other)), rw refused r)
        | inl follows ↦
            let start : n ≡ l.last_index + 1 = omega (tests, num.0) in
            let num' = subst (λ k. Numbered k (e ∷ es)) start num in
            let (l', appended, x) = append_entries_lem (e ∷ es) l r.well_formed num' bound in
            let f = extend r.entry (l.last_index + 1) (e ∷ es) in
            let o = IsOrdered-ext E law r.entry f d r.ordered (λ i le.
              sym (extend_old r.entry (l.last_index + 1) (e ∷ es) i (omega (arith, r.last)))) in
            let (d', run, o', last, same) =
              write_entries_lem E law f d e es o fits
                (subst (λ k. Numbered (k + 1) (e ∷ es)) (sym r.last) num') able
                (omega (arith, r.last))
                (λ k y at.
                  ap (λ j. f (j + 1 + k)) r.last
                  ∙ extend_new r.entry (l.last_index + 1) (e ∷ es) k y at) in
            (
              d',
              rw appended (disk_appended E d d' e es (rw bump follows) run),
              rw appended (appended-Represents (e ∷ es) l' d' x o' last same),
            )
      ]
