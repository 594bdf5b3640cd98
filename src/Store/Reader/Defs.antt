-- ===== src/Store/Reader/Defs.antt =====
-- ReadonlyRaftCommandEventStore: committed entries are loaded, decrypted and handed over as bundles
-- of a command and its events. The load thread, the decrypt threads and the reader are steps that
-- may be taken in any order. Times and sleeps are left out; so is the change that decryption makes
-- to a task's entries, which nothing reads afterwards.
use my_super_ledger.Prelude.{
  ℕ, zero, suc, String, Bool, not, Option, List, [], ◌∷◌, ◌++◌, Outcome, done, ◌>>=◌, ◌>>◌, assert,
  expect, length, leb, ◌==◌, max, add64, sub64, if◌then◌else◌, lookup, nat_eq,
}
use my_super_ledger.Raft.Log.Defs.{LogEntry, get_entries}
use my_super_ledger.Raft.Core.State.{Core}
use my_super_ledger.Raft.Disk.Crypto.{Crypto}
use my_super_ledger.Raft.Disk.Segment.{last_version}

pub record Bundle (C E : Type 0) : Type 0 where
  pub command : C
  pub events : List E

-- The keys, what OpenSSL deciphers with one, the message of a payload with the decoders, the id of
-- a command, and the size of an entry.
pub record Codec (C E : Type 0) : Type 0 where
  pub crypto : Crypto
  pub decipher : List ℕ → String → Option String
  pub parse : String → Option (Bundle C E)
  pub command_id : C → ℕ
  pub byte_size : LogEntry → ℕ

-- A task's flag is 0 at first, 1 when a thread works on it, 2 when it is done.
pub record Task (C E : Type 0) : Type 0 where
  pub entries : List LogEntry
  pub bundles : List (Bundle C E)
  pub flag : ℕ

pub record Reader (C E : Type 0) : Type 0 where
  pub async_load : Bool
  pub loaded_index : ℕ
  pub applied_index : ℕ
  pub applying_index : ℕ
  pub cached_bundles : List (Bundle C E)
  pub task_queue : List (Task C E)

-- `CryptoUtil::decrypt`: an unknown version exits.
unfoldable pub decrypt : {C E : Type 0} → Codec C E → ℕ → String → Outcome String
decrypt cod version text =
    if not cod.crypto.enabled
    then done text
    else (do key ← expect (lookup version cod.crypto.all_keys); expect (cod.decipher key text))

-- An entry without a key version was encrypted with the oldest key.
unfoldable pub open_payload : {C E : Type 0} → Codec C E → LogEntry → Outcome String
open_payload cod e =
    if not cod.crypto.enabled
    then done e.payload
    else if e.secret_key_version == 0
    then (do
      oldest ← expect (last_version cod.crypto.descending_versions)
      decrypt cod oldest e.payload)
    else decrypt cod e.secret_key_version e.payload

-- A command without events gives no bundle.
abbrev pub with_events : {C E : Type 0} → Bundle C E → List (Bundle C E)
with_events b = if length b.events == 0 then [] else b ∷ []

-- The body of the loop of `decryptEntries`: the bundle of an entry, if it has one.
unfoldable pub decrypt_entry : {C E : Type 0} → Codec C E → LogEntry → Outcome (List (Bundle C E))
decrypt_entry cod e = if e.noop then done [] else (do
  text ← open_payload cod e
  payload ← expect (cod.parse text)
  done (with_events payload))

unfoldable pub decrypt_entries :
    {C E : Type 0} → Codec C E → List LogEntry → Outcome (List (Bundle C E))
decrypt_entries cod [] = done []
decrypt_entries cod (e ∷ es) =
    decrypt_entry cod e >>= λ b. decrypt_entries cod es >>= λ bs. done (b ++ bs)

-- `RaftCore::getEntries`
unfoldable pub committed_entries :
    {C E : Type 0} → Codec C E → ℕ → ℕ → Core → Outcome (List LogEntry)
committed_entries cod start size s = do
  assert (leb (sub64 (add64 start size) 1) s.commit_index)
  get_entries cod.byte_size start s.max_len_in_bytes size s.log

abbrev pub max_queue_size : ℕ
max_queue_size = 30

-- A round of `loadEntriesThreadMain`.
unfoldable pub load_task : {C E : Type 0} → Codec C E → Core → Reader C E → Outcome (Reader C E)
load_task cod s r =
    if leb max_queue_size (length r.task_queue)
    then done r
    else if leb s.commit_index r.loaded_index
    then done r
    else (committed_entries cod (add64 r.loaded_index 1) (sub64 s.commit_index r.loaded_index) s
        >>= λ es. done (record r {
          loaded_index = add64 r.loaded_index (length es);
          task_queue = r.task_queue ++ record { entries = es; bundles = []; flag = 0 } ∷ [];
        }))

-- A decrypt thread takes the first task that no thread has taken.
unfoldable pub claim : {C E : Type 0} → List (Task C E) → List (Task C E)
claim [] = []
claim (t ∷ ts) = let rest = claim ts in if t.flag == 0 then record t { flag = 1 } ∷ ts else t ∷ rest

abbrev pub decrypted : {C E : Type 0} → Codec C E → Task C E → Outcome (Task C E)
decrypted cod t =
    if t.flag == 1
    then (decrypt_entries cod t.entries >>= λ bs. done (record t { bundles = bs; flag = 2 }))
    else done t

-- The thread that has taken the task at position `k` ends its work on it.
unfoldable pub finish : {C E : Type 0} → Codec C E → ℕ → List (Task C E) → Outcome (List (Task C E))
finish cod k [] = done []
finish cod zero (t ∷ ts) = decrypted cod t >>= λ t'. done (t' ∷ ts)
finish cod (suc k) (t ∷ ts) = finish cod k ts >>= λ ts'. done (t ∷ ts')

-- `tryAsyncLoadBundles`, with the queue it finds
abbrev pub take_front : {C E : Type 0} → List (Task C E) → Reader C E → Reader C E
take_front [] r = r
take_front (t ∷ ts) r =
    if t.flag == 2 then record r { cached_bundles = t.bundles; task_queue = ts } else r

-- `trySyncLoadBundles`
unfoldable pub sync_load : {C E : Type 0} → Codec C E → Core → Reader C E → Outcome (Reader C E)
sync_load cod s r =
    if leb s.commit_index r.loaded_index
    then done r
    else (committed_entries cod (add64 r.loaded_index 1) (sub64 s.commit_index r.loaded_index) s
        >>= λ es. decrypt_entries cod es >>= λ bs.
            done
              (record r { loaded_index = add64 r.loaded_index (length es); cached_bundles = bs }))

-- `tryLoadBundles`, if there is nothing in the cache
unfoldable pub fill_cache : {C E : Type 0} → Codec C E → Core → Reader C E → Outcome (Reader C E)
fill_cache cod s r = elim r.cached_bundles [
  | b ∷ bs ↦ done r
  | [] ↦ if r.async_load then done (take_front r.task_queue r) else sync_load cod s r
]

abbrev pub pop_bundle :
    {C E : Type 0} → Codec C E → List (Bundle C E) → Reader C E → List (Bundle C E) × Reader C E
pop_bundle cod [] r = ([], r)
pop_bundle cod (b ∷ bs) r =
    (b ∷ [], record r { cached_bundles = bs; applying_index = cod.command_id b.command })

-- `loadNextCommandEvents`: one bundle or none
unfoldable pub load_next :
    {C E : Type 0} → Codec C E → Core → Reader C E → Outcome (List (Bundle C E) × Reader C E)
load_next cod s r =
    fill_cache cod s (record r { applied_index = max r.applied_index r.applying_index }) >>= λ r'.
    done (pop_bundle cod r'.cached_bundles r')

-- What the threads do: each step that looks at the replica has its state at that moment.
pub data Action : Type 0 where
  load_entries : Core → Action
  take_task : Action
  end_task : ℕ → Action
  read_next : Core → Action

unfoldable pub act :
    {C E : Type 0} → Codec C E → Action → Reader C E → Outcome (List (Bundle C E) × Reader C E)
act cod (load_entries s) r =
    if r.async_load then (load_task cod s r >>= λ r'. done ([], r')) else done ([], r)
act cod take_task r = done ([], record r { task_queue = claim r.task_queue })
act cod (end_task k) r = finish cod k r.task_queue >>= λ ts. done ([], record r { task_queue = ts })
act cod (read_next s) r = load_next cod s r

-- The bundles that the reader is given along a run.
unfoldable pub act_all :
    {C E : Type 0} → Codec C E → List Action → Reader C E → Outcome (List (Bundle C E) × Reader C E)
act_all cod [] r = done ([], r)
act_all cod (a ∷ rest) r = act cod a r >>= λ p. act_all cod rest p.1 >>= λ q. done (p.0 ++ q.0, q.1)

-- `setCurrentOffset` of a new reader, or of one after `teardown`
abbrev pub reader_at : {C E : Type 0} → Bool → ℕ → Reader C E
reader_at async offset = record {
  async_load = async;
  loaded_index = offset;
  applied_index = offset;
  applying_index = 0;
  cached_bundles = [];
  task_queue = [];
}
