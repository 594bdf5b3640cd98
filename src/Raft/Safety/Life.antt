-- ===== src/Raft/Safety/Life.antt =====
-- All that may happen to a node, from before it takes part in its group on.
use my_super_ledger.Prelude.{◌≡◌, done}
use my_super_ledger.Raft.Core.State.{Core}
use my_super_ledger.Raft.Core.Client.{SyncRequest, handle_sync_request}
use my_super_ledger.Raft.Safety.Votes.{VoteKept}
use my_super_ledger.Raft.Safety.Steps.{
  Step, Steps, here, then_step, sync_request_in, Steps-VoteKept,
}
use my_super_ledger.Raft.Safety.Voting.{TakesPart, Step-TakesPart}

-- The events of Step, and sync requests at any time.
pub data Life : Core → Core → Type 0 where
  at_start : {s : Core} → Life s s
  then_event : {s t u : Core} → Life s t → Step t u → Life s u
  then_sync :
      {s t u : Core} (req : SyncRequest) → Life s t → handle_sync_request req t ≡ done u → Life s u

-- From a node that takes part on, all that happens are steps.
Life-Steps : {s t : Core} → Life s t → TakesPart s → Steps s t × TakesPart t
Life-Steps at_start p = (here, p)
Life-Steps (then_event life step) p =
    let (run, q) = Life-Steps life p in (then_step run step, Step-TakesPart step q)
Life-Steps (then_sync {s} {t} {u} req life e) p =
    let (run, q) = Life-Steps life p in
    let step = sync_request_in req t u q e in (then_step run step, Step-TakesPart step q)

-- From any moment at which a node is no Syncer on, whatever messages, sync requests and timeouts
-- come and whatever is cut off the prefix of its log, the term never falls, and a vote given in a
-- term stays while the term does; the node stands for election only at a term below 2^64 - 1.
pub Life-VoteKept : {s t : Core} → Life s t → TakesPart s → VoteKept s.log t.log
Life-VoteKept life p = Steps-VoteKept (Life-Steps life p).0
