-- ===== src/Raft/Disk/Runs.antt =====
-- Runs of calls on a log on disk and on an in-memory log.
use my_super_ledger.Prelude.{
  ℕ, ◌+◌, ◌≤◌, ◌<◌, ◌^◌, ◌≡◌, refl, Bool, true, none, some, List, [], ◌∷◌, Outcome, done, ◌>>=◌,
  length, arith, sym,
}
use mathlib.Core.Path.{subst}
use my_super_ledger.Raft.Log.Defs as Memory
use my_super_ledger.Raft.Log.Defs.{LogEntry, Log, empty_log, dummy_entry}
use my_super_ledger.Raft.Log.View.{IsWellFormed-empty, Numbered, view}
use my_super_ledger.Raft.Disk.Segment.{Env, create}
use my_super_ledger.Raft.Disk.Sealing.{IsLawful}
use my_super_ledger.Raft.Disk.Copying.{AllStorable}
use my_super_ledger.Raft.Disk.SegmentLog as Disk
use my_super_ledger.Raft.Disk.SegmentLog.{MetaStorage, SegmentLog, without_in_progress}
use my_super_ledger.Raft.Disk.Represents.{fresh-IsOrdered, Represents}
use my_super_ledger.Raft.Disk.Rolling.{Fits}
use my_super_ledger.Raft.Disk.Appends.{append_entries_refines}
use my_super_ledger.Raft.Disk.Cuts.{truncate_suffix_refines}
use my_super_ledger.Raft.Disk.DropsMemory.{truncate_prefix_refines}
use my_super_ledger.Raft.Disk.Recovery.{init, recover_closed, recover_active, list_segments}

-- A call that changes a log.
pub data Op : Type 0 where
  append : List LogEntry → Op
  drop_prefix : ℕ → Op
  cut_suffix : ℕ → Op
  set_term : ℕ → Op
  set_vote : ℕ → Op

unfoldable pub memory_step : Op → Log → Bool × Log
memory_step (append es) l = Memory.append_entries es l
memory_step (drop_prefix kept) l = (true, Memory.truncate_prefix kept l)
memory_step (cut_suffix kept) l = (true, Memory.truncate_suffix kept l)
memory_step (set_term term) l = (true, Memory.set_current_term term l)
memory_step (set_vote vote) l = (true, Memory.set_vote_for vote l)

unfoldable pub disk_step : Env → Op → SegmentLog → Outcome (Bool × SegmentLog)
disk_step E (append es) d = Disk.append_entries E es d
disk_step E (drop_prefix kept) d = Disk.truncate_prefix E kept d >>= λ d'. done (true, d')
disk_step E (cut_suffix kept) d = Disk.truncate_suffix E kept d >>= λ d'. done (true, d')
disk_step E (set_term term) d = done (true, Disk.set_current_term term d)
disk_step E (set_vote vote) d = done (true, Disk.set_vote_for vote d)

-- What the callers keep to: entries that follow one another and fit a segment, and no cut before
-- the first index.
abbrev pub Allowed : Env → Op → Log → Type 0
Allowed E (append es) l =
    (n : ℕ) × Numbered n es × Fits E es × AllStorable E es × (l.last_index + length es + 1 < 2 ^ 64)
Allowed E (drop_prefix kept) l = kept + 1 < 2 ^ 64
Allowed E (cut_suffix kept) l = l.first_index ≤ kept + 1
Allowed E (set_term term) l = Unit {0}
Allowed E (set_vote vote) l = Unit {0}

-- The answers of the calls, and the log after them.
unfoldable pub memory_run : List Op → Log → List Bool × Log
memory_run [] l = ([], l)
memory_run (op ∷ ops) l = let s = memory_step op l in let r = memory_run ops s.1 in (s.0 ∷ r.0, r.1)

unfoldable pub disk_run : Env → List Op → SegmentLog → Outcome (List Bool × SegmentLog)
disk_run E [] d = done ([], d)
disk_run E (op ∷ ops) d =
    disk_step E op d >>= λ s. disk_run E ops s.1 >>= λ r. done (s.0 ∷ r.0, r.1)

abbrev pub AllAllowed : Env → List Op → Log → Type 0
AllAllowed E [] l = Unit {0}
AllAllowed E (op ∷ ops) l = Allowed E op l × AllAllowed E ops (memory_step op l).1

-- Neither log's entries depend on the term and the vote.
marked-Represents :
    (E : Env) (l : Log) (d : SegmentLog) (meta : MetaStorage) (term vote : ℕ)
    → Represents E l d
    → Represents E
        (record l { current_term = term; vote_for = vote })
        (record d { meta_storage = meta; current_term = term; vote_for = vote })
unfolding view
marked-Represents E l d meta term vote r =
    let o = r.ordered in
    let w = r.well_formed in
    record {
      entry = r.entry;
      ordered = record {
        active = o.active;
        has_active = o.has_active;
        is_on = o.is_on;
        holds = o.holds;
        data_limit = o.data_limit;
        meta_limit = o.meta_limit;
        start = o.start;
        chain = o.chain;
        start_low = o.start_low;
        last = o.last;
        first = o.first;
        size = o.size;
        live = o.live;
      };
      well_formed = record {
        first = w.first;
        size = w.size;
        bound = w.bound;
        numbered = w.numbered;
      };
      first = r.first;
      last = r.last;
      term = refl;
      vote = refl;
      same = r.same;
    }

module _ (E : Env) (law : IsLawful E) where
  set_term-Represents :
      (l : Log) (d : SegmentLog) (term : ℕ)
      → Represents E l d
      → Represents E (Memory.set_current_term term l) (Disk.set_current_term term d)
  unfolding Memory.set_current_term Disk.set_current_term
  set_term-Represents l d term r =
      subst
        (λ v.
          Represents E (record l { current_term = term; vote_for = l.vote_for })
            (record d {
              meta_storage = record d.meta_storage { current_term_file = some term };
              current_term = term;
              vote_for = v;
            }))
        (sym r.vote)
        (marked-Represents E l d (record d.meta_storage { current_term_file = some term }) term
          l.vote_for r)

  set_vote-Represents :
      (l : Log) (d : SegmentLog) (vote : ℕ)
      → Represents E l d
      → Represents E (Memory.set_vote_for vote l) (Disk.set_vote_for vote d)
  unfolding Memory.set_vote_for Disk.set_vote_for
  set_vote-Represents l d vote r =
      subst
        (λ t.
          Represents E (record l { current_term = l.current_term; vote_for = vote })
            (record d {
              meta_storage = record d.meta_storage { vote_for_file = some vote };
              current_term = t;
              vote_for = vote;
            }))
        (sym r.term)
        (marked-Represents E l d (record d.meta_storage { vote_for_file = some vote })
          l.current_term vote r)

  -- Each call gives the same answer on both logs, and leaves the one standing for the other.
  step_refines :
      (op : Op) (l : Log) (d : SegmentLog)
      → Represents E l d
      → Allowed E op l
      → (d' : SegmentLog) × (disk_step E op d ≡ done ((memory_step op l).0, d'))
        × Represents E (memory_step op l).1 d'
  unfolding disk_step memory_step
  step_refines (append es) l d r (n, num, fits, able, bound) =
      append_entries_refines E law l d r n es num fits able bound
  step_refines (drop_prefix kept) l d r fits =
      let (d', run, r') = truncate_prefix_refines E law l d kept r fits in (d', rw run refl, r')
  step_refines (cut_suffix kept) l d r low =
      let (d', run, r') = truncate_suffix_refines E law l d kept r low in (d', rw run refl, r')
  step_refines (set_term term) l d r h =
      (Disk.set_current_term term d, refl, set_term-Represents l d term r)
  step_refines (set_vote vote) l d r h =
      (Disk.set_vote_for vote d, refl, set_vote-Represents l d vote r)

  -- Runs of appends, cuts at either end, and changes of term and vote on a log on disk that stands
  -- for an in-memory log do not abort, give the answers that the in-memory log gives, and end with
  -- logs that stand for each other, if the environment is lawful, the entries of an append follow
  -- one another, fit a new segment and can be stored, indices stay below 2^64 and no cut keeps
  -- less than the index before the first.
  pub run_refines :
      (ops : List Op) (l : Log) (d : SegmentLog)
      → Represents E l d
      → AllAllowed E ops l
      → (d' : SegmentLog) × (disk_run E ops d ≡ done ((memory_run ops l).0, d'))
        × Represents E (memory_run ops l).1 d'
  unfolding disk_run memory_run
  run_refines [] l d r h = (d, refl, r)
  run_refines (op ∷ ops) l d r h =
      let (d1, first, r1) = step_refines op l d r h.0 in
      let (d2, rest, r2) = run_refines ops (memory_step op l).1 d1 r1 h.1 in
      (d2, rw (first, rest) refl, r2)

-- A log that has no files yet starts empty.
unfoldable pub fresh_log : Env → SegmentLog
fresh_log E = record {
  meta_storage = record {
    current_term_file = some 0;
    vote_for_file = some 0;
    first_index_file = some 1;
  };
  first_index = 1;
  last_index = 0;
  current_term = 0;
  vote_for = 0;
  closed_segments = [];
  active_segment = some (create E 1);
  left = [];
}

pub init_fresh :
    (E : Env) (law : IsLawful E)
    → (init E
          (record { current_term_file = none; vote_for_file = none; first_index_file = none })
          []
        ≡ done (fresh_log E))
      × Represents E empty_log (fresh_log E)
unfolding init fresh_log recover_closed recover_active list_segments without_in_progress
init_fresh E law = (
  refl,
  record {
    entry = λ i. dummy_entry;
    ordered =
        fresh-IsOrdered E law (λ i. dummy_entry)
          (record {
            meta_storage = record {
              current_term_file = some 0;
              vote_for_file = some 0;
              first_index_file = some 1;
            };
            first_index = 1;
            last_index = 0;
            current_term = 0;
            vote_for = 0;
            closed_segments = [];
            active_segment = none;
            left = [];
          })
          1 refl (omega arith) (omega arith) (omega arith) (omega arith);
    well_formed = IsWellFormed-empty;
    first = refl;
    last = refl;
    term = refl;
    vote = refl;
    same = λ i lo hi. absurd (omega arith);
  },
)
