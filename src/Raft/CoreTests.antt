-- ===== src/Raft/CoreTests.antt =====
-- A node of a group of three, with a log of three entries.
use my_super_ledger.Prelude.{ℕ, ◌≤◌, ◌<◌, true, false, List, [], ◌∷◌, ◌≡◌, refl, done, arith}
use my_super_ledger.Raft.Log.Defs.{Log, get_term}
use my_super_ledger.Raft.Core.State.{
  RaftRole, leader, follower, step_down, Core, Peer, Readings, Reply, new_peer,
}
use my_super_ledger.Raft.Core.Replicate.{
  AppendRequest, AppendResponse, Handled, ok, back_off, handle_append_entries_request,
  handle_append_entries_response, peer_at,
}
use my_super_ledger.Raft.Core.Vote.{
  VoteRequest, VoteResponse, handle_request_vote_request, vote_response, decide_vote,
  majority_number,
}
use my_super_ledger.Raft.Core.Lead.{majority_value, advance_commit_index}
use my_super_ledger.Raft.Safety.Votes.{VoteKept}
use my_super_ledger.Raft.Safety.Steps.{
  Step, append_request_in, vote_request_in, prefix_truncated, here,
}
use my_super_ledger.Raft.Safety.Life.{at_start, then_event, Life-VoteKept}
use my_super_ledger.Raft.Safety.Cut.{KeptFrom}
use my_super_ledger.Raft.Safety.History.{Life-KeptFrom}
use my_super_ledger.Raft.Core.Client.{truncate_prefix}
use my_super_ledger.Raft.Log.Defs as Log
use my_super_ledger.Raft.Safety.Grants.{one_vote_per_term}
use my_super_ledger.Raft.Safety.Election.{
  VotedFor, then_second, grant-VotedFor, election_safety, count_true,
}
use my_super_ledger.Raft.Safety.Quorum.{count_reached, majority_value_lem}
use my_super_ledger.Raft.Safety.Commit.{Committed, Leads, advance_lem, advance_total}
use my_super_ledger.Raft.Safety.Settle.{Settled, SettledKept, append_request-SettledKept}
use my_super_ledger.Raft.Safety.Match.{Holds}
use my_super_ledger.Raft.Safety.Accepted.{accepted_entries-Holds}
use my_super_ledger.Raft.Safety.Peers.{IsTracked, Tracked, back_off_lem, append_response-Tracked}
use my_super_ledger.Raft.Tests.{entry_at, three, three-IsWellFormed}

-- Node 1 follows node 2, with a log of three entries, of which two are committed.
abbrev node : RaftRole → Log → Core
node role l = record {
  max_batch_size = 10;
  max_len_in_bytes = 100;
  max_decr_step = 5;
  peers =
      (2, record new_peer { id = 2; match_index = 3; next_index = 4; have_vote = true })
      ∷ (3, record new_peer { id = 3; match_index = 0; next_index = 4 })
      ∷ [];
  self_id = 1;
  leader_id = 0;
  election_time_point = 0;
  commit_index = 2;
  begin_index = 1;
  role = role;
  log = l;
  pending = [];
}

abbrev clock : Readings
clock = record { now = λ n. 5; rand = λ n. 0 }

abbrev plea : VoteRequest
plea = record { term = 3; candidate_id = 2; last_log_index = 3; last_log_term = 2 }

abbrev granted : Handled VoteResponse
granted = record {
  core = record (node follower (record three { current_term = 3; vote_for = 2 })) {
    election_time_point = 1000000005;
  };
  replies = [];
  status = ok;
  response = vote_response plea 3 true (node follower three);
}

granted_run : handle_request_vote_request clock plea (node follower three) ≡ done granted
unfolding handle_request_vote_request step_down decide_vote get_term
granted_run = refl

-- The same candidate asks once more.
granted_again : handle_request_vote_request clock plea granted.core ≡ done granted
unfolding handle_request_vote_request step_down decide_vote get_term
granted_again = refl

Life-VoteKept_example : VoteKept three granted.core.log
Life-VoteKept_example =
    Life-VoteKept
      (then_event at_start (vote_request_in clock plea (node follower three) granted granted_run))
      refl

one_vote_per_term_example : plea.candidate_id ≡ plea.candidate_id
one_vote_per_term_example =
    one_vote_per_term clock clock plea plea (node follower three) granted.core granted granted
      granted_run refl here granted_again refl refl (ground arith)

majority_read : majority_value (3 ∷ 3 ∷ 0 ∷ []) ≡ done 3
unfolding majority_value
majority_read = refl

majority_value_lem_example :
    (majority_number 3 ≤ count_reached 3 (3 ∷ 3 ∷ 0 ∷ []))
    × ((w : ℕ) → 3 < w → count_reached w (3 ∷ 3 ∷ 0 ∷ []) < majority_number 3)
majority_value_lem_example = majority_value_lem (3 ∷ 3 ∷ 0 ∷ []) 3 majority_read

advanced :
    advance_commit_index (node leader three)
    ≡ done (record (node leader three) { commit_index = 3 }, [])
unfolding advance_commit_index get_term
advanced = refl

advance_lem_example :
    Committed (node leader three) (record (node leader three) { commit_index = 3 })
advance_lem_example =
    advance_lem (node leader three) (record (node leader three) { commit_index = 3 }) [] advanced
      (ground arith)

node-Leads : Leads (node leader three)
node-Leads = record {
  log = three-IsWellFormed;
  above = omega arith;
  followers = (omega arith, (omega arith, tt));
}

advance_total_example :
    (out : Core × List Reply) × (advance_commit_index (node leader three) ≡ done out)
advance_total_example = advance_total (node leader three) node-Leads

-- The leader of term 3 has another entry at index 3, and one more.
abbrev replacement : AppendRequest
replacement = record {
  term = 3;
  leader_id = 2;
  prev_log_index = 2;
  prev_log_term = 1;
  entries = entry_at 3 3 ∷ entry_at 3 4 ∷ [];
  commit_index = 3;
}

abbrev replaced : Handled AppendResponse
replaced = record {
  core =
      record (node follower (record {
        entries = entry_at 1 1 ∷ entry_at 1 2 ∷ entry_at 3 3 ∷ entry_at 3 4 ∷ [];
        first_index = 1;
        last_index = 4;
        current_term = 3;
        vote_for = 0;
      })) { leader_id = 2; election_time_point = 1000000005; commit_index = 3 };
  replies = [];
  status = ok;
  response = record {
    term = 3;
    success = true;
    id = 1;
    saved_term = 3;
    saved_prev_log_index = 2;
    last_log_index = 4;
    match_index = 4;
  };
}

replaced_run : handle_append_entries_request clock replacement (node follower three) ≡ done replaced
unfolding handle_append_entries_request get_term
replaced_run = refl

node-Settled : Settled (node follower three)
node-Settled = record { log = three-IsWellFormed; commit = omega arith }

append_request-SettledKept_example : SettledKept (node follower three) replaced.core
append_request-SettledKept_example =
    append_request-SettledKept clock replacement (node follower three) replaced node-Settled
      (omega arith) replaced_run

accepted_entries-Holds_example : Holds replaced.core.log (entry_at 3 3)
accepted_entries-Holds_example =
    accepted_entries-Holds clock replacement (node follower three) replaced 0 (entry_at 3 3)
      node-Settled (omega arith) (omega arith) replaced_run refl refl (omega arith)

-- A follower whose log ends at 1 refuses entries after 3.
abbrev refused : AppendResponse
refused = record {
  term = 2;
  success = false;
  id = 3;
  saved_term = 2;
  saved_prev_log_index = 3;
  last_log_index = 1;
  match_index = 0;
}

abbrev behind : Peer
behind = record new_peer { id = 3; match_index = 0; next_index = 4 }

backed_off : back_off 5 refused behind ≡ done (record behind { next_index = 2 })
unfolding back_off
backed_off = refl

back_off_lem_example :
    (behind.match_index ≡ behind.match_index) × (behind.match_index < 2) × (2 < behind.next_index)
back_off_lem_example =
    back_off_lem 5 refused behind (record behind { next_index = 2 }) (omega arith) (omega arith)
      (omega arith) backed_off

abbrev backed_node : Core
backed_node = record (node leader three) {
  peers =
      (2, record new_peer { id = 2; match_index = 3; next_index = 4; have_vote = true })
      ∷ (3, record behind { next_index = 2 })
      ∷ [];
}

refused_run :
    handle_append_entries_response clock refused (node leader three) ≡ done (backed_node, [])
unfolding handle_append_entries_response
refused_run = refl

node-IsTracked : (id : ℕ) → IsTracked (peer_at id (node leader three).peers)
unfolding peer_at
node-IsTracked id = record { below = ground arith; fits = ground arith }

append_response-Tracked_example : Tracked (node leader three) backed_node
append_response-Tracked_example =
    append_response-Tracked clock refused (node leader three) backed_node [] node-IsTracked
      (omega arith) (omega arith) (omega arith) refused_run

-- Node 1 voted for node 2 in term 3, and so did node 2; the second majority is of the nodes 1 and 3.
granted_vote : VotedFor 3 2 granted.core
granted_vote = grant-VotedFor clock plea (node follower three) granted granted_run refl

enough : majority_number 3 ≤ count_true (true ∷ true ∷ false ∷ [])
unfolding majority_number
enough = omega arith

enough' : majority_number 3 ≤ count_true (false ∷ true ∷ true ∷ [])
unfolding majority_number
enough' = omega arith

election_safety_example : plea.candidate_id ≡ plea.candidate_id
election_safety_example =
    election_safety 3 2 2 (true ∷ true ∷ false ∷ []) (false ∷ true ∷ true ∷ []) (ground arith)
      (ground arith) refl enough enough'
      (λ i first second. (granted.core, granted.core, then_second here, granted_vote, granted_vote))

-- A run in which the node takes the replacement.
abbrev replacing : Step (node follower three) replaced.core
replacing = append_request_in clock replacement (node follower three) replaced replaced_run

-- The request, and then a cut of the first entry.
abbrev shortened : Core
shortened = record replaced.core {
  log = record replaced.core.log {
    entries = entry_at 1 2 ∷ entry_at 3 3 ∷ entry_at 3 4 ∷ [];
    first_index = 2;
  };
}

shortening : truncate_prefix 2 replaced.core ≡ done shortened
unfolding truncate_prefix Log.truncate_prefix
shortening = refl

Life-KeptFrom_example : KeptFrom 2 (node follower three) shortened
Life-KeptFrom_example =
    Life-KeptFrom
      (then_event (then_event at_start replacing)
        (prefix_truncated 2 replaced.core shortened shortening))
      ((tt, omega arith), omega arith) node-Settled
