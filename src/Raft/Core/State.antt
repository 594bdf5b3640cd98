-- ===== src/Raft/Core/State.antt =====
-- The state of RaftCore, its messages, and `stepDown`. Configuration, metrics and log lines that do
-- not steer the code are left out. A call reads the clock and `rand` through `Readings`: each place
-- that reads has a number of its own, in the order of the code. Readings that only fill metrics are
-- not counted.
use my_super_ledger.Prelude.{
  ℕ, ◌+◌, ◌-◌, ◌*◌, ◌%◌, String, Bool, true, false, Option, none, some, List, [], ◌∷◌, Outcome,
  done, ◌>>=◌, ◌>>◌, assert, expect, Map, ltb, leb, ◌==◌, add64, if◌then◌else◌,
}
use my_super_ledger.Raft.Log.Defs.{Log, get_term}

pub data RaftRole : Type 0 where
  leader follower candidate syncer : RaftRole

abbrev pub role_code : RaftRole → ℕ
role_code leader = 0
role_code follower = 1
role_code candidate = 2
role_code syncer = 3

pub record Peer : Type 0 where
  pub id : ℕ
  pub request_vote_done : Bool
  pub have_vote : Bool
  pub match_index : ℕ
  pub next_index : ℕ
  pub suppress_bulk_data : Bool
  pub last_request_time : ℕ
  pub next_request_time : ℕ
  pub last_response_time : ℕ

-- Peer()
abbrev pub new_peer : Peer
new_peer = record {
  id = 0;
  request_vote_done = false;
  have_vote = false;
  match_index = 0;
  next_index = 1;
  suppress_bulk_data = true;
  last_request_time = 0;
  next_request_time = 0;
  last_response_time = 0;
}

pub record Core : Type 0 where
  pub max_batch_size : ℕ
  pub max_len_in_bytes : ℕ
  pub max_decr_step : ℕ
  pub peers : Map ℕ Peer
  pub self_id : ℕ
  pub leader_id : ℕ
  pub election_time_point : ℕ
  pub commit_index : ℕ
  pub begin_index : ℕ
  pub role : RaftRole
  pub log : Log
  pub pending : List (ℕ × Option ℕ)

pub record Readings : Type 0 where
  pub now : ℕ → ℕ
  pub rand : ℕ → ℕ

-- `fillResultAndReply` on a client's handle.
pub record Reply : Type 0 where
  pub handle : ℕ
  pub code : ℕ
  pub message : String
  pub leader_hint : ℕ

-- `RandomUtil::randomRange`, at what `rand` returned.
abbrev pub random_range : ℕ → ℕ → ℕ → ℕ
random_range from to r = from + r % (to - from + 1)

abbrev pub min_election_timeout_in_millis : ℕ
min_election_timeout_in_millis = 1000

abbrev pub max_election_timeout_in_millis : ℕ
max_election_timeout_in_millis = 2000

abbrev pub heart_beat_interval_in_millis : ℕ
heart_beat_interval_in_millis = 20

-- The n-th call of `updateElectionTimePoint`, at its clock reading `t`.
unfoldable pub update_election_time_point : Readings → ℕ → ℕ → Core → Core
update_election_time_point r n t s = record s {
  election_time_point = add64 (r.now t) (
      random_range (min_election_timeout_in_millis * 1000000)
        (max_election_timeout_in_millis * 1000000) (r.rand n));
}

-- `termOfLogEntryAt`
unfoldable pub term_of_log_entry_at : ℕ → Log → Outcome ℕ
term_of_log_entry_at i l = expect (get_term i l)

-- The replies to the pending requests that have a handle.
unfoldable pub reply_all : ℕ → String → ℕ → List (ℕ × Option ℕ) → List Reply
reply_all code message hint [] = []
reply_all code message hint ((_, none) ∷ rest) = reply_all code message hint rest
reply_all code message hint ((_, some handle) ∷ rest) =
    record { handle = handle; code = code; message = message; leader_hint = hint }
    ∷ reply_all code message hint rest

-- The part of `stepDown` that sets the role and the term.
unfoldable pub lower_to_follower : ℕ → Core → Outcome Core
lower_to_follower new_term s =
    if ltb s.log.current_term new_term
    then done (record s {
      role = follower;
      log = record s.log { current_term = new_term; vote_for = 0 };
      leader_id = 0;
    })
    else (do assert (role_code s.role == role_code candidate); done (record s { role = follower }))

-- The rest, for a node that was the leader.
unfoldable pub retire : Readings → RaftRole → Core → Core × List Reply
unfolding update_election_time_point reply_all
retire r leader s = (
  update_election_time_point r 0 0 (record s { pending = [] }),
  reply_all 301 "LeaderStepDown" s.leader_id s.pending,
)
retire r follower s = (s, [])
retire r candidate s = (s, [])
retire r syncer s = (s, [])

unfoldable pub step_down : Readings → ℕ → Core → Outcome (Core × List Reply)
unfolding lower_to_follower retire
step_down r new_term s = do
  assert (leb s.log.current_term new_term)
  s' ← lower_to_follower new_term s
  done (retire r s.role s')
