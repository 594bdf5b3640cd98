-- ===== src/Raft/Tests.antt =====
-- A group of three nodes, and a log with entries at the indices 1 to 3.
use my_super_ledger.Prelude.{ℕ, true, false, none, List, [], ◌∷◌, ◌≡◌, refl, done, arith}
use my_super_ledger.Raft.Log.Defs.{LogEntry, Log, append_entries, get_entries}
use my_super_ledger.Raft.Log.View.{IsWellFormed}
use my_super_ledger.Raft.Log.Append.{Extends, append_entries_lem}
use my_super_ledger.Raft.Log.Batch.{IsBatch, get_entries_lem}

abbrev pub entry_at : ℕ → ℕ → LogEntry
entry_at term index = record {
  term = term;
  index = index;
  noop = false;
  checksum = 0;
  payload = "";
  secret_key_version = 0;
  special_tag = none;
}

abbrev pub three : Log
three = record {
  entries = entry_at 1 1 ∷ entry_at 1 2 ∷ entry_at 2 3 ∷ [];
  first_index = 1;
  last_index = 3;
  current_term = 2;
  vote_for = 0;
}

pub three-IsWellFormed : IsWellFormed three
three-IsWellFormed = record {
  first = omega arith;
  size = refl;
  bound = omega arith;
  numbered = (refl, (refl, (refl, tt)));
}

append_entries_lem_example :
    (l' : Log) × (append_entries (entry_at 2 4 ∷ []) three ≡ (true, l'))
    × Extends three l' (entry_at 2 4 ∷ [])
append_entries_lem_example =
    append_entries_lem (entry_at 2 4 ∷ []) three three-IsWellFormed (refl, tt) (omega arith)

abbrev ten_bytes : LogEntry → ℕ
ten_bytes e = 10

get_entries_lem_example :
    (es : List LogEntry) × (get_entries ten_bytes 1 25 9 three ≡ done es)
    × IsBatch ten_bytes three 1 9 25 es
get_entries_lem_example =
    get_entries_lem ten_bytes (λ e. omega arith) three three-IsWellFormed 25 (omega arith) 1 9
      (omega arith) (omega arith)
