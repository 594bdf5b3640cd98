-- ===== src/Raft/Core/Vote.antt =====
-- RequestVote on both sides, and the election: `requestVote`, `handleRequestVoteRequest`,
-- `handleRequestVoteResponse`, `electionTimeout` and `becomeLeader`.
use my_super_ledger.Prelude.{
  ℕ, ◌+◌, ◌/◌, Bool, true, false, not, ◌&&◌, ◌||◌, none, List, [], ◌∷◌, Outcome, done, ◌>>=◌, ◌>>◌,
  assert, Map, insert, nat_eq, ltb, leb, ◌==◌, add64, length, if◌then◌else◌,
}
use my_super_ledger.Raft.Log.Defs.{LogEntry, append_entry, set_current_term, set_vote_for}
use my_super_ledger.Raft.Core.State.{
  leader, candidate, syncer, role_code, Peer, Core, Readings, Reply, update_election_time_point,
  term_of_log_entry_at, step_down,
}
use my_super_ledger.Raft.Core.Replicate.{ok, cancelled, Handled, peer_at}

-- RequestVote::Request and Response of raft.proto, without the creation times.
pub record VoteRequest : Type 0 where
  pub term : ℕ
  pub candidate_id : ℕ
  pub last_log_index : ℕ
  pub last_log_term : ℕ

pub record VoteResponse : Type 0 where
  pub term : ℕ
  pub vote_granted : Bool
  pub id : ℕ
  pub saved_term : ℕ

abbrev pub vote_response : VoteRequest → ℕ → Bool → Core → VoteResponse
vote_response req term granted s = record {
  term = term;
  vote_granted = granted;
  id = s.self_id;
  saved_term = req.term;
}

-- `logIsOk` of `handleRequestVoteRequest`: the candidate's log is at least as new as this one.
unfoldable pub up_to_date : VoteRequest → ℕ → ℕ → Bool
up_to_date req last_index last_term =
    ltb last_term req.last_log_term
    || (req.last_log_term == last_term && leb last_index req.last_log_index)

-- From the reading of the last entry on; the response carries the request's term by then.
unfoldable pub decide_vote :
    Readings → VoteRequest → List Reply → Core → Outcome (Handled VoteResponse)
unfolding up_to_date term_of_log_entry_at set_vote_for update_election_time_point
decide_vote r req replies s = do
  last_term ← term_of_log_entry_at s.log.last_index s.log
  if up_to_date req s.log.last_index last_term
        && (s.log.vote_for == 0 || s.log.vote_for == req.candidate_id)
      then done (record {
        core =
            update_election_time_point r 1 1
              (record s { log = set_vote_for req.candidate_id s.log });
        replies = replies;
        status = ok;
        response = vote_response req req.term true s;
      })
      else done (record {
        core = s;
        replies = replies;
        status = ok;
        response = vote_response req req.term false s;
      })

unfoldable pub handle_request_vote_request :
    Readings → VoteRequest → Core → Outcome (Handled VoteResponse)
handle_request_vote_request r req s =
    if role_code s.role == role_code syncer
    then done (record {
      core = s;
      replies = [];
      status = cancelled;
      response = vote_response req s.log.current_term false s;
    })
    else if ltb req.term s.log.current_term
    then done (record {
      core = s;
      replies = [];
      status = ok;
      response = vote_response req s.log.current_term false s;
    })
    else if ltb s.log.current_term req.term
    then (do (s', replies) ← step_down r req.term s; decide_vote r req replies s')
    else decide_vote r req [] s

unfoldable pub handle_request_vote_response :
    Readings → VoteResponse → Core → Outcome (Core × List Reply)
unfolding peer_at insert
handle_request_vote_response r resp s =
    if not (s.log.current_term == resp.saved_term) || not (role_code s.role == role_code candidate)
    then done (s, [])
    else if ltb s.log.current_term resp.term
    then step_down r resp.term s
    else (let p = peer_at resp.id s.peers in
        done (
          record s {
            peers =
                insert resp.id
                  (record p {
                    request_vote_done = true;
                    have_vote = if resp.vote_granted then true else p.have_vote;
                  })
                  s.peers;
          },
          [],
        ))

-- The loop that schedules a round of RV_req; the clock is read once for each peer, from `n` on.
unfoldable pub reset_votes : Readings → ℕ → Map ℕ Peer → Map ℕ Peer
reset_votes r n [] = []
reset_votes r n ((id, p) ∷ rest) =
    (id, record p { request_vote_done = false; have_vote = false; next_request_time = r.now n })
    ∷ reset_votes r (n + 1) rest

unfoldable pub election_timeout : Readings → Core → Core
unfolding set_current_term set_vote_for update_election_time_point reset_votes
election_timeout r s =
    if role_code s.role == role_code leader || role_code s.role == role_code syncer
    then s
    else if ltb (r.now 0) s.election_time_point
    then s
    else (let s' = update_election_time_point r 0 1 (record s {
      role = candidate;
      log = set_vote_for s.self_id (set_current_term (add64 s.log.current_term 1) s.log);
      leader_id = 0;
    }) in
        record s' { peers = reset_votes r 2 s.peers })

-- `getMajorityNumber`
unfoldable pub majority_number : ℕ → ℕ
majority_number total = total / 2 + 1

-- The loop of `becomeLeader` that counts votes.
unfoldable pub count_votes : Map ℕ Peer → ℕ
count_votes [] = 0
count_votes ((_, p) ∷ rest) = (if p.have_vote then 1 else 0) + count_votes rest

-- The loop that schedules a round of AE_req.
unfoldable pub reset_progress : Readings → ℕ → ℕ → Map ℕ Peer → Map ℕ Peer
reset_progress r n last [] = []
reset_progress r n last ((id, p) ∷ rest) =
    (
      id,
      record p {
        next_index = add64 last 1;
        match_index = 0;
        suppress_bulk_data = true;
        next_request_time = r.now n;
      },
    )
    ∷ reset_progress r (n + 1) last rest

abbrev pub noop_entry : Readings → Core → LogEntry
noop_entry r s = record {
  term = s.log.current_term;
  index = add64 s.log.last_index 1;
  noop = true;
  checksum = r.now (length s.peers);
  payload = "";
  secret_key_version = 0;
  special_tag = none;
}

unfoldable pub become_leader : Readings → Core → Outcome Core
unfolding count_votes majority_number reset_progress append_entry
become_leader r s =
    if not (role_code s.role == role_code candidate)
    then done s
    else if ltb (1 + count_votes s.peers) (majority_number (length s.peers + 1))
    then done s
    else (let (appended, l) = append_entry (noop_entry r s) s.log in
        do
          assert appended
          done (record s {
            role = leader;
            peers = reset_progress r 0 s.log.last_index s.peers;
            log = l;
          }))
