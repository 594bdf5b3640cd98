-- ===== src/Raft/Core/Client.antt =====
-- `handleClientRequests`, `handleSyncRequest` and `truncatePrefix`.
use my_super_ledger.Prelude.{
  ℕ, not, ◌&&◌, Option, none, some, List, [], ◌∷◌, ◌++◌, Outcome, done, ◌>>=◌, ◌>>◌, assert, expect,
  ◌==◌, leb, add64, if◌then◌else◌,
}
use my_super_ledger.Raft.Log.Defs as Log
use my_super_ledger.Raft.Log.Defs.{LogEntry, append_entries, set_current_term}
use my_super_ledger.Raft.Core.State.{leader, follower, syncer, role_code, Core, Reply, reply_all}

-- The entry is filled with the index and the term that the client expects.
pub record ClientRequest : Type 0 where
  pub entry : LogEntry
  pub handle : Option ℕ

abbrev pub request_handles : List ClientRequest → List (ℕ × Option ℕ)
request_handles [] = []
request_handles (c ∷ cs) = (c.entry.index, c.handle) ∷ request_handles cs

-- The loop that validates the requests: it gives the entries to write and the pending requests.
unfoldable pub select_requests : ℕ → ℕ → List ClientRequest → List LogEntry × List (ℕ × Option ℕ)
select_requests term last [] = ([], [])
select_requests term last (c ∷ cs) =
    let fits = c.entry.term == term && c.entry.index == add64 last 1 in
    let (entries, pending) = select_requests term (if fits then add64 last 1 else last) cs in
    if fits then (c.entry ∷ entries, (c.entry.index, c.handle) ∷ pending) else (entries, pending)

-- The result of `mLog->appendEntries` is not looked at.
unfoldable pub handle_client_requests : List ClientRequest → Core → Core × List Reply
unfolding select_requests append_entries reply_all
handle_client_requests cs s =
    if not (role_code s.role == role_code leader)
    then (s, reply_all 301 "NotLeaderAnyMore" s.leader_id (request_handles cs))
    else (let (entries, pending) = select_requests s.log.current_term s.log.last_index cs in
        (record s { log = (append_entries entries s.log).1; pending = s.pending ++ pending }, []))

pub record SyncRequest : Type 0 where
  pub entries : List LogEntry
  pub start_index : ℕ
  pub end_index : ℕ
  pub finish_begin_index : Option ℕ

-- `mEntries.back()`
abbrev pub back : List LogEntry → Option LogEntry
back [] = none
back (e ∷ []) = some e
back (e ∷ f ∷ es) = back (f ∷ es)

unfoldable pub sync_entries : SyncRequest → Core → Outcome Core
unfolding append_entries set_current_term
sync_entries req s = do
  assert (req.start_index == add64 s.log.last_index 1)
  last ← expect (back req.entries)
  let (appended, l) = append_entries req.entries s.log
  assert appended
  assert (l.last_index == req.end_index)
  done (record s { log = set_current_term last.term l; commit_index = l.last_index })

unfoldable pub handle_sync_request : SyncRequest → Core → Outcome Core
unfolding sync_entries
handle_sync_request req s =
    if not (role_code s.role == role_code syncer) then done s else elim req.finish_begin_index [
      | some begin ↦ done (record s { role = follower; begin_index = begin })
      | none ↦ sync_entries req s
    ]

-- `RaftCore::truncatePrefix`, which the administration of the node calls.
unfoldable pub truncate_prefix : ℕ → Core → Outcome Core
truncate_prefix kept s = do
  assert (leb kept s.commit_index)
  done (record s { log = Log.truncate_prefix kept s.log })
