-- ===== src/Raft/Disk/Tests.antt =====
-- A log on disk with two entries, whose digests are made with one key.
use my_super_ledger.Prelude.{
  ℕ, zero, suc, ◌+◌, ◌≤◌, ◌<◌, ◌≡◌, refl, Bool, true, false, Option, none, some, List, [], ◌∷◌,
  Outcome, done, abort, length, get_elem?, ◌==◌, arith, if◌then◌else◌, nat_eq, lookup, insert,
  some_injective,
}
use my_super_ledger.Raft.Log.Defs as Memory
use my_super_ledger.Raft.Log.Defs.{LogEntry, Log, empty_log}
use my_super_ledger.Raft.Log.View.{view}
use my_super_ledger.Raft.Log.Batch.{IsBatch}
use my_super_ledger.Raft.Tests.{entry_at}
use my_super_ledger.Raft.Disk.Memory.{read, write, fill}
use my_super_ledger.Raft.Disk.Files.{file_of}
use my_super_ledger.Raft.Disk.Crypto.{
  Crypto, hmac, init_file, add_keys, sort_versions, insert_version,
}
use my_super_ledger.Raft.Disk.Keys.{init_file-IsKeyed}
use my_super_ledger.Raft.Disk.Segment.{Env, Segment, create, zeros, last_version}
use my_super_ledger.Raft.Disk.Sealing.{IsLawful, IsKeyed}
use my_super_ledger.Raft.Disk.Holds.{Holds, create-Holds}
use my_super_ledger.Raft.Disk.Copying.{IsStorable}
use my_super_ledger.Raft.Disk.Writing as Writing
use my_super_ledger.Raft.Disk.Segment as Segments
use my_super_ledger.Raft.Disk.SegmentLog as Disk
use my_super_ledger.Raft.Disk.SegmentLog.{MetaStorage, SegmentLog}
use my_super_ledger.Raft.Disk.Represents.{IsOrdered, Represents}
use my_super_ledger.Raft.Disk.Reads.{get_entry_refines, get_term_refines, get_entries_refines}
use my_super_ledger.Raft.Disk.Recovery.{directory, init}
use my_super_ledger.Raft.Disk.Restart.{IsPersisted, init-directory}
use my_super_ledger.Raft.Disk.TwoActive.{init-drop_all}
use my_super_ledger.Raft.Disk.Runs.{
  Op, append, drop_prefix, cut_suffix, set_term, memory_step, memory_run, disk_step, disk_run,
  fresh_log, init_fresh, run_refines, AllAllowed,
}

abbrev parse_pair : List ℕ → Option LogEntry
parse_pair (t ∷ i ∷ []) = some (entry_at t i)
parse_pair _ = none

-- An entry is stored as its term and its index; a segment has room for two entries.
abbrev sample_env : Env
sample_env = record {
  serialize = λ e. e.term ∷ e.index ∷ [];
  parse = parse_pair;
  byte_size = λ e. 2;
  crypto = record {
    enabled = true;
    descending_versions = 3 ∷ [];
    all_keys = (3, zeros 32) ∷ [];
    latest_version = 3;
    sha256 = λ key msg. 7 ∷ zeros 31;
  };
  data_size_limit = 4;
  meta_size_limit = 256;
}

sample-IsKeyed : IsKeyed sample_env.crypto
unfolding lookup
sample-IsKeyed zero v h = (zeros 32, ground arith)
sample-IsKeyed (suc p) v h = cc

sample_law : IsLawful sample_env
sample_law = record {
  length-serialize = λ e. refl;
  length-sha256 = λ key msg. refl;
  keyed = sample-IsKeyed;
  versions_small = omega arith;
  data_small = omega arith;
  meta_small = omega arith;
}

storable : (t i : ℕ) → IsStorable sample_env (entry_at t i)
unfolding last_version
storable t i = record { parses = refl; sealable = λ on. (0, 3, refl, refl) }

-- Seven calls: the fifth entry needs a third segment, and the log loses both ends.
abbrev sample_ops : List Op
sample_ops =
    append (entry_at 1 1 ∷ entry_at 1 2 ∷ [])
    ∷ append (entry_at 1 3 ∷ [])
    ∷ append (entry_at 2 4 ∷ entry_at 2 5 ∷ [])
    ∷ append (entry_at 2 9 ∷ [])
    ∷ cut_suffix 3
    ∷ drop_prefix 2
    ∷ set_term 5
    ∷ []

sample_allowed : AllAllowed sample_env sample_ops empty_log
unfolding memory_step Memory.append_entries Memory.truncate_suffix Memory.truncate_prefix
    Memory.set_current_term
sample_allowed = (
  (
    1,
    (refl, (refl, tt)),
    record { data_fits = omega arith; meta_fits = omega arith },
    (storable 1 1, (storable 1 2, tt)),
    omega arith,
  ),
  (
    (
      3,
      (refl, tt),
      record { data_fits = omega arith; meta_fits = omega arith },
      (storable 1 3, tt),
      omega arith,
    ),
    (
      (
        4,
        (refl, (refl, tt)),
        record { data_fits = omega arith; meta_fits = omega arith },
        (storable 2 4, (storable 2 5, tt)),
        omega arith,
      ),
      (
        (
          9,
          (refl, tt),
          record { data_fits = omega arith; meta_fits = omega arith },
          (storable 2 9, tt),
          omega arith,
        ),
        (omega arith, (omega arith, (tt, tt))),
      ),
    ),
  ),
)

run_refines_example :
    (d' : SegmentLog) × (disk_run sample_env sample_ops (fresh_log sample_env)
      ≡ done ((memory_run sample_ops empty_log).0, d'))
    × Represents sample_env (memory_run sample_ops empty_log).1 d'
run_refines_example =
    run_refines sample_env sample_law sample_ops empty_log (fresh_log sample_env)
      (init_fresh sample_env sample_law).1 sample_allowed

sample_answers :
    (memory_run sample_ops empty_log).0 ≡ true ∷ true ∷ true ∷ false ∷ true ∷ true ∷ true ∷ []
unfolding memory_run memory_step Memory.append_entries Memory.truncate_suffix Memory.truncate_prefix
    Memory.set_current_term
sample_answers = refl

-- The code itself, run on these calls.
disk_answers : Outcome (List Bool × SegmentLog) → List Bool
disk_answers (done r) = r.0
disk_answers abort = []

disk_runs :
    disk_answers (disk_run sample_env sample_ops (fresh_log sample_env))
    ≡ true ∷ true ∷ true ∷ false ∷ true ∷ true ∷ true ∷ []
unfolding disk_answers disk_run disk_step Disk.append_entries fresh_log Disk.write_entries
    Disk.roll_if_needed Segments.should_roll create Segments.append_entries Segments.copy_entries
    Segments.seal Segments.create_hmac hmac lookup Disk.roll_active_segment Segments.close
    Disk.truncate_suffix file_of fill read write last_version Segments.digits Segments.get_meta
    Segments.truncate_suffix Disk.but_last Disk.cut_active Disk.cut_closed Disk.erase_below
    Disk.insert_segment Disk.keep_upto Disk.reset_active Disk.set_current_term Disk.truncate_last
    Disk.truncate_prefix Disk.without_in_progress
disk_runs = refl

-- One segment with the entries at the indices 1 and 2.
abbrev sample_entry : ℕ → LogEntry
sample_entry i = entry_at 1 i

sample_given :
    (k : ℕ) (x : LogEntry)
    → get_elem? (entry_at 1 1 ∷ entry_at 1 2 ∷ []) k ≡ some x
    → entry_at 1 (1 + k) ≡ x
sample_given zero x h = some_injective h
sample_given (suc zero) x h = some_injective h
sample_given (suc (suc k)) x h = cc

sample_segment :
    (s : Segment) × (Segments.append_entries sample_env
        (entry_at 1 1 ∷ entry_at 1 2 ∷ [])
        (create sample_env 1)
      ≡ done s)
    × Holds sample_env sample_entry s
    × (s.last_index ≡ 2)
    × (s.first_index ≡ 1)
    × (s.is_active ≡ true)
    × (s.data_size_limit ≡ 4)
    × (s.meta_size_limit ≡ 256)
unfolding create
sample_segment =
    Writing.append_entries_lem sample_env sample_law sample_entry (create sample_env 1)
      (entry_at 1 1) (entry_at 1 2 ∷ [])
      (create-Holds sample_env sample_law sample_entry 1 (omega arith) (omega arith)) refl
      (refl, (refl, tt)) (storable 1 1, (storable 1 2, tt)) (omega arith) (omega arith)
      (omega arith) sample_given

abbrev sample_disk : SegmentLog
sample_disk = record {
  meta_storage = record {
    current_term_file = some 1;
    vote_for_file = some 0;
    first_index_file = some 1;
  };
  first_index = 1;
  last_index = 2;
  current_term = 1;
  vote_for = 0;
  closed_segments = [];
  active_segment = some sample_segment.0;
  left = [];
}

abbrev sample_log : Log
sample_log = record {
  entries = entry_at 1 1 ∷ entry_at 1 2 ∷ [];
  first_index = 1;
  last_index = 2;
  current_term = 1;
  vote_for = 0;
}

sample_ordered : IsOrdered sample_env sample_entry sample_disk
sample_ordered =
    let (s, run, h, last, first, on, data_limit, meta_limit) = sample_segment in
    record {
      active = s;
      has_active = refl;
      is_on = on;
      holds = h;
      data_limit = data_limit;
      meta_limit = meta_limit;
      start = 1;
      chain = omega arith;
      start_low = omega arith;
      last = last;
      first = omega arith;
      size = omega arith;
      live = λ some_entry. omega arith;
    }

sample_same : (i : ℕ) → 1 ≤ i → i ≤ 2 → view sample_log i ≡ some (sample_entry i)
unfolding view
sample_same zero lo hi = absurd (omega arith)
sample_same (suc zero) lo hi = refl
sample_same (suc (suc zero)) lo hi = refl
sample_same (suc (suc (suc k))) lo hi = absurd (omega arith)

sample_Represents : Represents sample_env sample_log sample_disk
unfolding view
sample_Represents = record {
  entry = sample_entry;
  ordered = sample_ordered;
  well_formed = record {
    first = omega arith;
    size = refl;
    bound = omega arith;
    numbered = (refl, (refl, tt));
  };
  first = refl;
  last = refl;
  term = refl;
  vote = refl;
  same = sample_same;
}

get_entry_refines_example :
    Disk.get_entry sample_env 0 2 sample_disk
    ≡ done (if 2 == 0 then none else Memory.get_entry 2 sample_log)
get_entry_refines_example =
    get_entry_refines sample_env sample_law sample_log sample_disk sample_Represents 0 2
      (omega arith)

get_term_refines_example :
    Disk.get_term 0 sample_disk
    ≡ done (
        if 0 + 1 == sample_log.first_index
        then some 0
        else if 0 == 0
        then none
        else Memory.get_term 0 sample_log)
get_term_refines_example =
    get_term_refines sample_env sample_law sample_log sample_disk sample_Represents 0

get_entries_refines_example :
    (es : List LogEntry) × (Disk.get_entries sample_env (λ i. 0) 1 3 10 sample_disk
      ≡ done (length es, es))
    × IsBatch sample_env.byte_size sample_log 1 10 3 es
    × (1 ≤ sample_log.last_index
        → 0 < 10
        → (e : LogEntry) → view sample_log 1 ≡ some e
        → sample_env.byte_size e ≤ 3
        → 0 < length es)
get_entries_refines_example =
    get_entries_refines sample_env sample_law sample_log sample_disk sample_Represents (λ i. 0) 1 3
      10 (λ i. omega arith) (omega arith) (omega arith) (omega arith)

sample-IsPersisted : IsPersisted sample_disk 1
sample-IsPersisted = record { fields = refl; from = 1; retained = []; kept = refl; in_order = refl }

init-directory_example :
    init sample_env sample_disk.meta_storage (directory sample_disk) ≡ done sample_disk
unfolding sample_ordered
init-directory_example =
    init-directory sample_env sample_entry sample_disk sample_ordered sample-IsPersisted
      (omega arith)

init-drop_all_example :
    (d' : SegmentLog) × (Disk.truncate_prefix sample_env 7 sample_disk ≡ done d')
    × (init sample_env sample_disk.meta_storage (directory d') ≡ abort)
init-drop_all_example =
    init-drop_all sample_env sample_entry sample_disk sample_ordered 7 sample_disk.meta_storage
      (omega arith) (omega arith)

-- Two keys, listed in ascending order in their file.
abbrev no_keys : Crypto
no_keys = record {
  enabled = false;
  descending_versions = [];
  all_keys = [];
  latest_version = 0;
  sha256 = λ key msg. [];
}

abbrev two_keys : Crypto
two_keys = record {
  enabled = true;
  descending_versions = 5 ∷ 2 ∷ [];
  all_keys = (2, zeros 32) ∷ (5, zeros 32) ∷ [];
  latest_version = 5;
  sha256 = λ key msg. [];
}

init_two_keys : init_file true (some ((2, zeros 32) ∷ (5, zeros 32) ∷ [])) no_keys ≡ done two_keys
unfolding init_file add_keys sort_versions insert_version insert
init_two_keys = refl

init_file-IsKeyed_example :
    (key : List ℕ) × (lookup 2 two_keys.all_keys ≡ some key) × (length key ≡ 32)
init_file-IsKeyed_example =
    init_file-IsKeyed true (some ((2, zeros 32) ∷ (5, zeros 32) ∷ [])) no_keys refl init_two_keys 1
      2 refl
