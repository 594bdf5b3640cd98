-- ===== src/Store/Defs.antt =====
-- RaftLogStore and RaftCommandEventStore: the term and the role that they go by, and what they hand
-- on. `refresh` reads term and role until the term stands still; that reading is an argument. The
-- queues are lists, the reply loop's tasks among them. Encoding and encryption of a payload come
-- later, in `dequeue`, and are not modelled.
use my_super_ledger.Prelude.{
  ℕ, String, Bool, false, not, ◌&&◌, Option, List, [], ◌∷◌, ◌++◌, Outcome, done, ◌>>=◌, ◌>>◌,
  assert, ltb, ◌==◌, add64, if◌then◌else◌,
}
use my_super_ledger.Raft.Log.Defs.{LogEntry, SpecialTag}
use my_super_ledger.Raft.Core.State.{RaftRole, leader, role_code}

abbrev pub leads : RaftRole → Bool
leads role = role_code role == role_code leader

-- An event with its id and its command's.
pub record StoredEvent (E : Type 0) : Type 0 where
  pub id : ℕ
  pub command_id : ℕ
  pub event : E

-- An element of `mPersistQueue`.
pub record PersistEntry (C E : Type 0) : Type 0 where
  pub command : C
  pub events : List (StoredEvent E)
  pub entry : LogEntry

-- A task of the reply loop.
pub record ReplyTask : Type 0 where
  pub index : ℕ
  pub term : ℕ
  pub handle : Option ℕ
  pub code : ℕ
  pub message : String

pub record EventStore (C E : Type 0) : Type 0 where
  pub log_term : ℕ
  pub log_role : RaftRole
  pub checked_term : ℕ
  pub checked_role : RaftRole
  pub queue : List (PersistEntry C E)
  pub tasks : List ReplyTask

-- `RaftLogStore::refresh`, at the reading of term and role.
unfoldable pub refresh : {C E : Type 0} → ℕ → RaftRole → EventStore C E → EventStore C E
refresh term role st =
    if st.log_term == term && leads st.log_role && not (leads role)
    then st
    else record st { log_term = term; log_role = role }

pub data Transition : Type 0 where
  same_leader old_leader_to_new_leader leader_to_follower follower_to_leader same_follower
        old_follower_to_new_follower :
      Transition

-- The detection logic of `detectTransition`, by the two terms and roles.
unfoldable pub classify : ℕ → RaftRole → ℕ → RaftRole → Outcome Transition
classify last_term last_role term role =
    if not (last_term == term)
    then (do
      assert (ltb last_term term)
      done (
          if leads last_role
          then (if leads role then old_leader_to_new_leader else leader_to_follower)
          else (if leads role then follower_to_leader else old_follower_to_new_follower)))
    else if leads last_role
    then (do assert (leads role); done same_leader)
    else done (if leads role then follower_to_leader else same_follower)

unfoldable pub detect_transition :
    {C E : Type 0} → ℕ → RaftRole → EventStore C E → Outcome (Transition × EventStore C E)
unfolding refresh classify
detect_transition term role st =
    let now = refresh term role st in
    do
      transition ← classify now.checked_term now.checked_role now.log_term now.log_role
      done (transition, record now { checked_term = now.log_term; checked_role = now.log_role })

-- The detections of a run of the command loop.
unfoldable pub detect_all :
    {C E : Type 0}
    → List (ℕ × RaftRole)
    → EventStore C E
    → Outcome (List Transition × EventStore C E)
unfolding detect_transition
detect_all [] st = done ([], st)
detect_all ((term, role) ∷ rest) st = do
  (transition, st') ← detect_transition term role st
  (others, st'') ← detect_all rest st'
  done (transition ∷ others, st'')

-- The loop that numbers the events.
abbrev pub number_events : {E : Type 0} → ℕ → ℕ → List E → List (StoredEvent E)
number_events command_id next [] = []
number_events command_id next (e ∷ es) =
    record { id = next; command_id = command_id; event = e }
    ∷ number_events command_id (add64 next 1) es

-- `RaftLogStore::persistAsync`, at the latest secret key version.
abbrev pub log_entry : ℕ → Option SpecialTag → ℕ → ℕ → LogEntry
log_entry key tag term index = record {
  term = term;
  index = index;
  noop = false;
  checksum = 0;
  payload = "";
  secret_key_version = key;
  special_tag = tag;
}

-- `RaftCommandEventStore::persistAsync`: a command without events is answered and not stored.
unfoldable pub persist_async :
    {C E : Type 0}
    → (C → Option SpecialTag)
    → ℕ
    → ℕ
    → C
    → Option ℕ
    → List E
    → ℕ
    → String
    → EventStore C E
    → EventStore C E
persist_async tag key id c handle [] code message st = record st {
  tasks =
      st.tasks
      ++ record {
        index = id;
        term = st.checked_term;
        handle = handle;
        code = code;
        message = message;
      }
        ∷ [];
}
persist_async tag key id c handle (e ∷ es) code message st = record st {
  tasks =
      st.tasks
      ++ record {
        index = id;
        term = st.checked_term;
        handle = handle;
        code = code;
        message = message;
      }
        ∷ [];
  queue =
      st.queue
      ++ record {
        command = c;
        events = number_events id 0 (e ∷ es);
        entry = log_entry key (tag c) st.log_term id;
      }
        ∷ [];
}
