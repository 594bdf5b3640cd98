-- ===== src/Store/Tests.antt =====
-- A node that is elected, leads, and steps down in the next term.
use my_super_ledger.Prelude.{Option, none, some, ℕ, String, List, [], ◌∷◌, done, ◌≡◌, refl, arith}
use my_super_ledger.Raft.Core.State.{leader, follower}
use my_super_ledger.Store.Defs.{EventStore, Transition, detect_transition}
use my_super_ledger.Raft.Log.Defs.{SpecialTag}
use my_super_ledger.Raft.Log.View.{Numbered}
use my_super_ledger.Store.Persist.{queued_entries, persist_all, persist_all-Numbered}
use my_super_ledger.Store.Transitions.{InStep, Detected, detect_total}

abbrev fresh : EventStore String String
fresh = record {
  log_term = 1;
  log_role = follower;
  checked_term = 1;
  checked_role = follower;
  queue = [];
  tasks = [];
}

fresh-InStep : InStep fresh
fresh-InStep = record { term = refl; role = refl }

detect_total_example :
    (t : Transition) × (st' : EventStore String String) × (detect_transition 2 leader fresh
      ≡ done (t, st'))
    × Detected 2 leader t fresh st'
detect_total_example = detect_total 2 leader fresh fresh-InStep (omega arith)

abbrev no_tag : String → Option SpecialTag
no_tag _ = none

-- The second of three commands is rejected.
abbrev calls : List (String × Option ℕ × List String × ℕ × String)
calls =
    ("open", some 1, "opened" ∷ [], 200, "Success")
    ∷ ("again", some 2, [], 1003, "no")
    ∷ ("sell", none, "sold" ∷ "paid" ∷ [], 200, "Success")
    ∷ []

persist_all-Numbered_example :
    Numbered 5 (queued_entries (persist_all no_tag 0 4 calls fresh).queue)
persist_all-Numbered_example =
    persist_all-Numbered no_tag 0 5 4 calls fresh (omega arith) tt (omega arith)
