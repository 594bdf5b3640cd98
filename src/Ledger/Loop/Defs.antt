-- ===== src/Ledger/Loop/Defs.antt =====
-- `CommandProcessLoop::processCommand`: it applies a command's events to the state machine and
-- hands the command and the events to the event store. Metrics and log lines are left out.
use my_super_ledger.Prelude.{ℕ, String, Bool, List, [], ◌∷◌, ◌++◌, Outcome, done, ◌>>=◌, add64}
use my_super_ledger.Ledger.Machine.Defs.{AppState, ProcessHint, Event, Command, process_and_apply}

-- One call of `persistAsync`, with the command's id at that time.
pub record Persisted : Type 0 where
  pub id : ℕ
  pub command : Command
  pub events : List Event
  pub hint : ProcessHint

pub record LoopState : Type 0 where
  pub last_command_id : ℕ
  pub app : AppState
  pub store : List Persisted

-- The branches on `events.empty()`: without events the command keeps the last id.
unfoldable pub persist : Command → ProcessHint → List Event → AppState → LoopState → LoopState
persist c hint [] app st = record {
  last_command_id = st.last_command_id;
  app = app;
  store =
      st.store ++ record { id = st.last_command_id; command = c; events = []; hint = hint } ∷ [];
}
persist c hint (e ∷ es) app st = record {
  last_command_id = add64 st.last_command_id 1;
  app = app;
  store =
      st.store
      ++ record { id = add64 st.last_command_id 1; command = c; events = e ∷ es; hint = hint } ∷ [];
}

unfoldable pub process_one : (String → Bool) → ℕ → Command → LoopState → Outcome LoopState
unfolding process_and_apply persist
process_one persisted now c st = do
  (hint, es, app) ← process_and_apply persisted now c st.app
  done (persist c hint es app st)

-- The loop over the commands that the queue gives, each with the clock's reading.
unfoldable pub process_all : (String → Bool) → List (ℕ × Command) → LoopState → Outcome LoopState
unfolding process_one
process_all persisted [] st = done st
process_all persisted ((now, c) ∷ rest) st =
    process_one persisted now c st >>= process_all persisted rest
