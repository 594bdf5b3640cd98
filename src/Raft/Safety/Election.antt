-- ===== src/Raft/Safety/Election.antt =====
-- Two candidates that a majority votes for in one term are the same.
use my_super_ledger.Prelude.{
  ℕ, suc, ◌+◌, ◌≤◌, ◌<◌, ◌^◌, Bool, true, false, ◌≡◌, ◌≢◌, refl, sym, ◌∙◌, some, List, [], ◌∷◌,
  get_elem?, length, done, arith, ◌==◌, ltb, ◌||◌, if◌then◌else◌,
}
use my_super_ledger.Raft.Core.State.{Core, Readings, role_code}
use my_super_ledger.Raft.Core.Replicate.{Handled}
use my_super_ledger.Raft.Core.Vote.{
  VoteRequest, VoteResponse, handle_request_vote_request, election_timeout, majority_number,
}
use my_super_ledger.Raft.Safety.Steps.{Steps, Steps-VoteKept}
use my_super_ledger.Raft.Safety.Grants.{grant_lem}

-- The node is in the term and has the candidate down.
pub record VotedFor (t c : ℕ) (s : Core) : Type 0 where
  pub term : s.log.current_term ≡ t
  pub vote : s.log.vote_for ≡ c

-- Two moments of one node.
pub data SameNode : Core → Core → Type 0 where
  then_second : {s s' : Core} → Steps s s' → SameNode s s'
  then_first : {s s' : Core} → Steps s' s → SameNode s s'

-- A granted request and an election of its own are votes.
pub grant-VotedFor :
    (r : Readings) (req : VoteRequest) (s : Core) (h : Handled VoteResponse)
    → handle_request_vote_request r req s ≡ done h
    → h.response.vote_granted ≡ true
    → VotedFor req.term req.candidate_id h.core
grant-VotedFor r req s h e g =
    let (term, vote) = grant_lem r req s h e g in record { term = term; vote = vote }

stays_voted :
    {s s' : Core} (t a b : ℕ) → Steps s s' → a ≢ 0 → VotedFor t a s → VotedFor t b s' → b ≡ a
stays_voted t a b run real first second =
    let kept = Steps-VoteKept run in
    sym second.vote
    ∙ kept.vote (second.term ∙ sym first.term) (λ z. real (sym first.vote ∙ z))
    ∙ first.vote

abbrev pub count_true : List Bool → ℕ
count_true [] = 0
count_true (b ∷ bs) = (if b then 1 else 0) + count_true bs

-- Two majorities of one group have a member in common.
majorities_meet :
    (as' bs : List Bool)
    → length as' ≡ length bs
    → length as' < count_true as' + count_true bs
    → (i : ℕ) × (get_elem? as' i ≡ some true) × (get_elem? bs i ≡ some true)
majorities_meet [] [] l h = absurd (omega arith)
majorities_meet [] (b ∷ bs) l h = absurd (omega arith)
majorities_meet (a ∷ as') [] l h = absurd (omega arith)
majorities_meet (true ∷ as') (true ∷ bs) l h = (0, refl, refl)
majorities_meet (true ∷ as') (false ∷ bs) l h =
    let (i, first, second) = majorities_meet as' bs (omega arith) (omega arith) in
    (suc i, first, second)
majorities_meet (false ∷ as') (b ∷ bs) l h =
    let (i, first, second) = majorities_meet as' bs (omega arith) (ground arith) in
    (suc i, first, second)

-- Where a majority of the group voted for `a` in a term and a majority voted for `b` in that term,
-- at whatever moments of their runs, and neither id is 0, `a` and `b` are the same node. In a run
-- a node stands for election only at a term below 2^64 - 1.
pub election_safety :
    (t a b : ℕ) (as' bs : List Bool)
    → a ≢ 0
    → b ≢ 0
    → length as' ≡ length bs
    → majority_number (length as') ≤ count_true as'
    → majority_number (length bs) ≤ count_true bs
    → ((i : ℕ)
        → get_elem? as' i ≡ some true
        → get_elem? bs i ≡ some true
        → (s : Core) × (s' : Core) × SameNode s s' × VotedFor t a s × VotedFor t b s')
    → a ≡ b
unfolding majority_number
election_safety t a b as' bs real real' same many many' voters =
    let (i, first, second) = majorities_meet as' bs same (omega arith) in
    let (s, s', node, voted, voted') = voters i first second in meet s s' node voted voted'
  where
    meet : (s s' : Core) → SameNode s s' → VotedFor t a s → VotedFor t b s' → a ≡ b
    meet s s' (then_second run) voted voted' = sym (stays_voted t a b run real voted voted')
    meet s s' (then_first run) voted voted' = stays_voted t b a run real' voted' voted

-- A node that starts an election votes for itself, in the next term.
pub election-VotedFor :
    (r : Readings) (s : Core)
    → (role_code s.role == 0 || role_code s.role == 3) ≡ false
    → ltb (r.now 0) s.election_time_point ≡ false
    → s.log.current_term + 1 < 2 ^ 64
    → VotedFor (s.log.current_term + 1) s.self_id (election_timeout r s)
unfolding election_timeout
election-VotedFor r s voting due b = record { term = ground arith; vote = ground arith }
