-- ===== src/Store/Reader/Ready.antt =====
-- `waitTillLeaderIsReadyOrStepDown`: a round of its loop, which reads the replica and the reader at
-- one moment.
use my_super_ledger.Prelude.{
  ℕ, zero, suc, ◌+◌, ◌-◌, true, false, not, Outcome, done, ◌>>=◌, ◌>>◌, assert, expect, leb, ◌==◌,
  ◌&&◌, ◌||◌, if◌then◌else◌,
}
use my_super_ledger.Raft.Log.Defs.{LogEntry, get_entry}
use my_super_ledger.Raft.Core.State.{Core, role_code, syncer}
use my_super_ledger.Store.Reader.Defs.{Reader}

pub data Wait : Type 0 where
  keep_waiting stepped_down : Wait
  leader_ready : ℕ → Wait

-- `RaftCore::getEntry`
unfoldable pub entry_at_index : ℕ → Core → Outcome LogEntry
entry_at_index i s = do
  assert (role_code s.role == role_code syncer || leb i s.commit_index)
  expect (get_entry i s.log)

-- Steps 3 and 4: the entries from `i` on, `n` of them. Only no-ops may be left to apply, and the
-- last one is the leader's of the expected term.
unfoldable pub scan_noops : ℕ → Core → ℕ → ℕ → Outcome Wait
scan_noops expected s zero i = done keep_waiting
scan_noops expected s (suc n) i = entry_at_index i s >>= λ e. elim e.noop [
  | false ↦ done keep_waiting
  | true ↦ elim (i == s.log.last_index && e.term == expected) [
    | true ↦ done (leader_ready s.log.last_index)
    | false ↦ scan_noops expected s n (i + 1)
  ]
]

unfoldable pub check_ready : {C E : Type 0} → ℕ → Core → Reader C E → Outcome Wait
check_ready expected s r =
    if not (s.log.current_term == expected)
    then done stepped_down
    else if not (r.loaded_index == s.commit_index) || not (s.commit_index == s.log.last_index)
    then done keep_waiting
    else scan_noops expected s (s.log.last_index - r.applied_index) (r.applied_index + 1)
