-- ===== src/Store/ReaderTests.antt =====
-- A replica with three committed entries, of which the second one has an operation.
use my_super_ledger.Prelude.{
  ℕ, zero, suc, ◌+◌, ◌-◌, ◌≤◌, ◌<◌, ◌≡◌, ◌≢◌, refl, sym, ap, ==→eq, done-injective, ◌∙◌, String,
  true, false, not, none, some, List, [], ◌∷◌, ◌++◌, done, ◌==◌, arith, Bool-cases, inl, inr,
}
use my_super_ledger.Raft.Log.Defs.{LogEntry, get_entry, get_entries, batch_loop}
use my_super_ledger.Raft.Log.View.{view}
use my_super_ledger.Raft.Core.State.{Core, leader}
use my_super_ledger.Store.Reader.Defs.{
  Bundle, Codec, Reader, Action, load_entries, take_task, end_task, read_next, decrypt_entry,
  decrypt_entries, open_payload, act_all, reader_at, act, load_task, committed_entries, load_next,
  fill_cache, claim, finish,
}
use my_super_ledger.Store.Reader.Queue.{entries_from, IsReadable, queued_count}
use my_super_ledger.Store.Reader.Order.{Serves}
use my_super_ledger.Store.Reader.Runs.{read_in_order}
use my_super_ledger.Store.Reader.Marks.{last_id}
use my_super_ledger.Store.Reader.Ids.{IsNumbered}
use my_super_ledger.Store.Reader.Ready.{leader_ready, check_ready, scan_noops, entry_at_index}
use my_super_ledger.Store.Reader.Caught.{ready-caught_up}

abbrev committed_entry : ℕ → LogEntry
committed_entry i = record {
  term = 1;
  index = i;
  noop = not (i == 2);
  checksum = 0;
  payload = "open";
  secret_key_version = 0;
  special_tag = none;
}

abbrev plain_codec : Codec ℕ String
plain_codec = record {
  crypto = record {
    enabled = false;
    descending_versions = [];
    all_keys = [];
    latest_version = 0;
    sha256 = λ key msg. [];
  };
  decipher = λ key text. none;
  parse = λ text. some (record { command = 2; events = "opened" ∷ [] });
  command_id = λ id. id;
  byte_size = λ e. 10;
}

abbrev replica : Core
replica = record {
  max_batch_size = 2000;
  max_len_in_bytes = 4000000;
  max_decr_step = 2000;
  peers = [];
  self_id = 1;
  leader_id = 1;
  election_time_point = 0;
  commit_index = 3;
  begin_index = 1;
  role = leader;
  log = record {
    entries = committed_entry 1 ∷ committed_entry 2 ∷ committed_entry 3 ∷ [];
    first_index = 1;
    last_index = 3;
    current_term = 1;
    vote_for = 1;
  };
  pending = [];
}

entries-IsReadable : IsReadable plain_codec committed_entry 0
unfolding decrypt_entry open_payload
entries-IsReadable i lo = elim (Bool-cases (i == 2)) [
  | inl second ↦ (record { command = 2; events = "opened" ∷ [] } ∷ [], rw second refl)
  | inr other ↦ ([], rw other refl)
]

abbrev first_command : List (Bundle ℕ String) → ℕ
first_command [] = 0
first_command (b ∷ bs) = b.command

no_bundle : {b : Bundle ℕ String} → [] ≢ b ∷ []
no_bundle e = cc

entries-IsNumbered : IsNumbered plain_codec committed_entry 0
unfolding decrypt_entry open_payload
entries-IsNumbered i b lo h = elim (Bool-cases (i == 2)) [
  | inl second ↦ sym (ap first_command (done-injective (rw second at h))) ∙ sym (==→eq i 2 second)
  | inr other ↦ absurd (no_bundle (done-injective (rw other at h)))
]

replica_committed : (i : ℕ) → 0 < i → i ≤ 3 → view replica.log i ≡ some (committed_entry i)
unfolding view
replica_committed zero lo hi = absurd (omega arith)
replica_committed (suc zero) lo hi = refl
replica_committed (suc (suc zero)) lo hi = refl
replica_committed (suc (suc (suc zero))) lo hi = refl
replica_committed (suc (suc (suc (suc k)))) lo hi = absurd (omega arith)

replica-Serves : Serves committed_entry 0 replica
replica-Serves = record {
  well_formed = record {
    first = omega arith;
    size = refl;
    bound = omega arith;
    numbered = (refl, (refl, (refl, tt)));
  };
  inside = omega arith;
  reaches = omega arith;
  committed = replica_committed;
  small = omega arith;
}

-- A reading before the task is done gives nothing.
abbrev reader_steps : List Action
reader_steps =
    load_entries replica
    ∷ read_next replica
    ∷ take_task
    ∷ end_task 0
    ∷ read_next replica
    ∷ read_next replica
    ∷ []

read_in_order_example :
    (out : List (Bundle ℕ String)) × (r : Reader ℕ String) × (act_all plain_codec reader_steps
        (reader_at true 0)
      ≡ done (out, r))
    × (n : ℕ) × (0 + n + queued_count plain_codec committed_entry r.task_queue ≡ r.loaded_index)
    × (decrypt_entries plain_codec (entries_from committed_entry (0 + 1) n)
        ≡ done (out ++ r.cached_bundles))
read_in_order_example =
    read_in_order plain_codec (λ e. omega arith) committed_entry 0 entries-IsReadable true
      reader_steps
      (replica-Serves, (replica-Serves, (tt, (tt, (replica-Serves, (replica-Serves, tt))))))

abbrev opened : List (Bundle ℕ String)
opened = record { command = 2; events = "opened" ∷ [] } ∷ []

abbrev caught_up : Reader ℕ String
caught_up = record {
  async_load = true;
  loaded_index = 3;
  applied_index = 2;
  applying_index = 2;
  cached_bundles = [];
  task_queue = [];
}

steps_run : act_all plain_codec reader_steps (reader_at true 0) ≡ done (opened, caught_up)
unfolding act_all act load_task committed_entries get_entries batch_loop load_next fill_cache claim
    finish decrypt_entries decrypt_entry open_payload
steps_run = refl

steps_ready : check_ready 1 replica caught_up ≡ done (leader_ready 3)
unfolding check_ready scan_noops entry_at_index get_entry
steps_ready = refl

ready-caught_up_example :
    (replica.log.current_term ≡ 1)
    × (decrypt_entries plain_codec
          (entries_from committed_entry (0 + 1) (replica.log.last_index - 0))
        ≡ done opened)
    × (caught_up.applied_index ≡ last_id plain_codec 0 opened)
ready-caught_up_example =
    ready-caught_up plain_codec (λ e. omega arith) committed_entry 0 entries-IsReadable
      entries-IsNumbered true reader_steps opened caught_up replica 1 3
      (replica-Serves, (replica-Serves, (tt, (tt, (replica-Serves, (replica-Serves, tt))))))
      replica-Serves steps_run steps_ready
