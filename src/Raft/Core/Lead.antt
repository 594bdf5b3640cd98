-- ===== src/Raft/Core/Lead.antt =====
-- What a leader does on its own: `advanceCommitIndex` and `leadershipTimeout`. `std::sort` by
-- descending order is an insertion sort; any sort gives the same list of numbers.
use my_super_ledger.Prelude.{
  ℕ, ◌+◌, ◌*◌, ◌/◌, not, Option, List, [], ◌∷◌, Outcome, done, ◌>>=◌, ◌>>◌, assert, expect,
  get_elem?, length, Map, ltb, leb, ◌==◌, sub64, add64, if◌then◌else◌,
}
use my_super_ledger.Raft.Core.State.{
  leader, role_code, Peer, Core, Readings, Reply, reply_all, term_of_log_entry_at, step_down,
  max_election_timeout_in_millis,
}

unfoldable pub insert_desc : ℕ → List ℕ → List ℕ
insert_desc x [] = x ∷ []
insert_desc x (y ∷ ys) = if leb y x then x ∷ y ∷ ys else y ∷ insert_desc x ys

unfoldable pub sort_desc : List ℕ → List ℕ
unfolding insert_desc
sort_desc [] = []
sort_desc (x ∷ xs) = insert_desc x (sort_desc xs)

abbrev pub match_indices : Map ℕ Peer → List ℕ
match_indices [] = []
match_indices ((_, p) ∷ rest) = p.match_index ∷ match_indices rest

-- `indices[indices.size() >> 1]` after the sort
unfoldable pub majority_value : List ℕ → Outcome ℕ
unfolding sort_desc
majority_value xs = expect (get_elem? (sort_desc xs) (length xs / 2))

-- The loop that takes the committed requests off the list, and the replies to them.
unfoldable pub drop_committed : ℕ → List (ℕ × Option ℕ) → List (ℕ × Option ℕ)
drop_committed commit [] = []
drop_committed commit ((index, handle) ∷ rest) =
    let others = drop_committed commit rest in
    if ltb commit index then (index, handle) ∷ rest else others

unfoldable pub take_committed : ℕ → List (ℕ × Option ℕ) → List (ℕ × Option ℕ)
take_committed commit [] = []
take_committed commit ((index, handle) ∷ rest) =
    let others = take_committed commit rest in
    if ltb commit index then [] else (index, handle) ∷ others

-- From the new commit index on.
unfoldable pub commit_to : ℕ → Core → Outcome (Core × List Reply)
unfolding drop_committed take_committed reply_all
commit_to index s = do
  assert (leb index s.log.last_index)
  done (
    record s { commit_index = index; pending = drop_committed index s.pending },
    reply_all 200 "Success" s.leader_id (take_committed index s.pending),
  )

unfoldable pub advance_commit_index : Core → Outcome (Core × List Reply)
unfolding majority_value commit_to term_of_log_entry_at
advance_commit_index s = if not (role_code s.role == role_code leader) then done (s, []) else (do
  index ← majority_value (s.log.last_index ∷ match_indices s.peers)
  if leb index s.commit_index then done (s, []) else (do
    term ← term_of_log_entry_at index s.log
    if not (term == s.log.current_term) then done (s, []) else commit_to index s))

abbrev pub response_times : Map ℕ Peer → List ℕ
response_times [] = []
response_times ((_, p) ∷ rest) = p.last_response_time ∷ response_times rest

-- The elapsed time is compared in milliseconds as a double in the source; here the bound is taken
-- to nanoseconds instead.
unfoldable pub leadership_timeout : Readings → Core → Outcome (Core × List Reply)
unfolding majority_value
leadership_timeout r s = if not (role_code s.role == role_code leader) then done (s, []) else (do
  heard ← majority_value (r.now 0 ∷ response_times s.peers)
  if ltb (sub64 (r.now 0) heard) (max_election_timeout_in_millis * 1000000)
      then done (s, [])
      else step_down (record { now = λ n. r.now (n + 1); rand = r.rand })
          (add64 s.log.current_term 1) s)
