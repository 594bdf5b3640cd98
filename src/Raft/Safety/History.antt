-- ===== src/Raft/Safety/History.antt =====
-- What is committed stays, along all that may happen to a node, from the highest index on that a cut
-- of the prefix was told to keep.
use my_super_ledger.Prelude.{ℕ, ◌+◌, ◌<◌, max, ◌^◌, ◌≡◌, refl, length, arith}
use mathlib.Core.Path.{subst}
use my_super_ledger.Raft.Core.State.{Core}
use my_super_ledger.Raft.Safety.Settle.{Settled, append_request-SettledKept}
use my_super_ledger.Raft.Safety.Keeps.{
  SameEntries-refl, append_response-SameEntries, vote_response-SameEntries,
  vote_request-SameEntries, election-SameEntries, leadership-SameEntries,
}
use my_super_ledger.Raft.Safety.Steps.{
  Step, append_request_in, append_response_in, vote_request_in, vote_response_in,
  client_requests_in, election_due, leadership_due, votes_counted, commit_advanced, appends_sent,
  votes_requested, sync_request_in, peers_noted, prefix_truncated, sync_ignored,
}
use my_super_ledger.Raft.Safety.Life.{Life, at_start, then_event, then_sync}
use my_super_ledger.Raft.Safety.Settling.{
  client-SettledKept, become_leader-SettledKept, advance-SettledKept, append_round-SameEntries,
  vote_round-SameEntries,
}
use my_super_ledger.Raft.Safety.Cut.{
  KeptFrom, SettledKept-KeptFrom, untouched, KeptFrom-trans, truncate_prefix-KeptFrom,
  sync_request-SettledKept,
}

-- How many entries a step may add.
abbrev pub growth : {s t : Core} → Step s t → ℕ
growth (append_request_in r req s h e) = length req.entries
growth (append_response_in r resp s s' replies e) = 0
growth (vote_request_in r req s h e) = 0
growth (vote_response_in r resp s s' replies e) = 0
growth (client_requests_in cs s) = length cs
growth (election_due r s b) = 0
growth (leadership_due r s s' replies e) = 0
growth (votes_counted r s s' e) = 1
growth (commit_advanced s s' replies e) = 0
growth (appends_sent byte_size r s s' outputs e) = 0
growth (votes_requested r s s' outputs e) = 0
growth (sync_request_in req s s' voting e) = 0
growth (peers_noted peers s) = 0
growth (prefix_truncated kept s s' e) = 0

-- The indices of a life stay below 2^64 - 1.
abbrev pub Bounded : {s t : Core} → Life s t → Type 0
Bounded at_start = Unit {0}
Bounded (then_event {s} {t} {u} life step) =
    Bounded life × (t.log.last_index + growth step + 1 < 2 ^ 64)
Bounded (then_sync {s} {t} {u} req life e) =
    Bounded life × (t.log.last_index + length req.entries + 1 < 2 ^ 64)

-- The first index that a step was told to keep; 0: it cuts nothing off the prefix.
abbrev pub cut_at : {s t : Core} → Step s t → ℕ
cut_at (append_request_in r req s h e) = 0
cut_at (append_response_in r resp s s' replies e) = 0
cut_at (vote_request_in r req s h e) = 0
cut_at (vote_response_in r resp s s' replies e) = 0
cut_at (client_requests_in cs s) = 0
cut_at (election_due r s b) = 0
cut_at (leadership_due r s s' replies e) = 0
cut_at (votes_counted r s s' e) = 0
cut_at (commit_advanced s s' replies e) = 0
cut_at (appends_sent byte_size r s s' outputs e) = 0
cut_at (votes_requested r s s' outputs e) = 0
cut_at (sync_request_in req s s' voting e) = 0
cut_at (peers_noted peers s) = 0
cut_at (prefix_truncated kept s s' e) = kept

-- The highest of them along a life.
abbrev pub highest_cut : {s t : Core} → Life s t → ℕ
highest_cut at_start = 0
highest_cut (then_event life step) = max (highest_cut life) (cut_at step)
highest_cut (then_sync req life e) = highest_cut life

Step-KeptFrom :
    {s t : Core} (step : Step s t)
    → Settled s
    → s.log.last_index + growth step + 1 < 2 ^ 64
    → KeptFrom (cut_at step) s t
Step-KeptFrom (append_request_in r req s h e) w b =
    SettledKept-KeptFrom 0 (append_request-SettledKept r req s h w b e)
Step-KeptFrom (append_response_in r resp s s' replies e) w b =
    untouched (append_response-SameEntries r resp s s' replies e) w
Step-KeptFrom (vote_request_in r req s h e) w b = untouched (vote_request-SameEntries r req s h e) w
Step-KeptFrom (vote_response_in r resp s s' replies e) w b =
    untouched (vote_response-SameEntries r resp s s' replies e) w
Step-KeptFrom (client_requests_in cs s) w b = SettledKept-KeptFrom 0 (client-SettledKept cs s w b)
Step-KeptFrom (election_due r s _) w b = untouched (election-SameEntries r s) w
Step-KeptFrom (leadership_due r s s' replies e) w b =
    untouched (leadership-SameEntries r s s' replies e) w
Step-KeptFrom (votes_counted r s s' e) w b =
    SettledKept-KeptFrom 0 (become_leader-SettledKept r s s' w b e)
Step-KeptFrom (commit_advanced s s' replies e) w b =
    SettledKept-KeptFrom 0 (advance-SettledKept s s' replies w e)
Step-KeptFrom (appends_sent byte_size r s s' outputs e) w b =
    untouched (append_round-SameEntries byte_size r s s' outputs e) w
Step-KeptFrom (votes_requested r s s' outputs e) w b =
    untouched (vote_round-SameEntries r s s' outputs e) w
Step-KeptFrom (sync_request_in req s s' voting e) w b =
    subst (KeptFrom 0 s) (sync_ignored req s s' voting e) (untouched (SameEntries-refl s) w)
Step-KeptFrom (peers_noted peers s) w b =
    untouched (record { entries = refl; first = refl; last = refl; commit = refl }) w
Step-KeptFrom (prefix_truncated kept s s' e) w b = truncate_prefix-KeptFrom kept s s' w e

-- Whatever happens to a settled node, a Syncer or not, with indices below 2^64 - 1 and elections
-- only at a term below 2^64 - 1: every entry up to the commit index stays as it is from the
-- highest index on that `truncatePrefix` was told to keep, all of them if it was not called; the
-- commit index never falls, and the node stays settled: the log in order and the commit index
-- inside it.
pub Life-KeptFrom :
    {s t : Core} (life : Life s t) → Bounded life → Settled s → KeptFrom (highest_cut life) s t
Life-KeptFrom (at_start {s}) b w = untouched (SameEntries-refl s) w
Life-KeptFrom (then_event life step) b w =
    let p = Life-KeptFrom life b.0 w in
    KeptFrom-trans (highest_cut life) (cut_at step) p (Step-KeptFrom step p.settled b.1)
Life-KeptFrom (then_sync {s} {t} {u} req life e) b w =
    let p = Life-KeptFrom life b.0 w in
    let q = SettledKept-KeptFrom 0 (sync_request-SettledKept req t u p.settled b.1 e) in
    let whole : max (highest_cut life) 0 ≡ highest_cut life = omega arith in
    subst (λ n. KeptFrom n s u) whole (KeptFrom-trans (highest_cut life) 0 p q)
