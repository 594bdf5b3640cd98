-- ===== src/Raft/Safety/Votes.antt =====
-- Each handler keeps the term and the vote in order: the term never falls, and within a term a vote
-- that was given stays.
use mathlib.Core.Path.{subst}
use my_super_ledger.Prelude.{
  ℕ, ◌≤◌, Bool, true, false, ◌≡◌, ◌≢◌, refl, sym, ◌∙◌, ap, List, [], ◌∷◌, done, >>=-eq-done,
  done-injective, arith, Bool-cases, inl, inr, ltb, leb, assert,
}
use my_super_ledger.Raft.Log.Defs.{
  LogEntry, Log, append_entry, append_entries, proceed, truncate_suffix,
}
use my_super_ledger.Raft.Core.State.{
  RaftRole, leader, Core, Readings, Reply, step_down, lower_to_follower, retire,
}

-- The log's term and vote, compared before and after.
pub record VoteKept (l l' : Log) : Type 0 where
  pub term : l.current_term ≤ l'.current_term
  pub vote : l'.current_term ≡ l.current_term → l.vote_for ≢ 0 → l'.vote_for ≡ l.vote_for

pub VoteKept-refl : (l : Log) → VoteKept l l
VoteKept-refl l = record { term = omega arith; vote = λ _ _. refl }

pub VoteKept-trans : {l m n : Log} → VoteKept l m → VoteKept m n → VoteKept l n
VoteKept-trans {l} {m} {n} p q = record {
  term = omega (arith, p.term, q.term);
  vote = λ same voted.
      let first : m.current_term ≡ l.current_term = omega (arith, p.term, q.term) in
      let second : n.current_term ≡ m.current_term = omega (arith, p.term, q.term) in
      let kept = p.vote first voted in q.vote second (λ e. voted (sym kept ∙ e)) ∙ kept;
}

-- The term and the vote are the same.
pub record SameVote (l l' : Log) : Type 0 where
  pub term : l'.current_term ≡ l.current_term
  pub vote : l'.vote_for ≡ l.vote_for

pub SameVote-VoteKept : {l l' : Log} → SameVote l l' → VoteKept l l'
SameVote-VoteKept p = record { term = omega (arith, p.term); vote = λ _ _. p.vote }

pub SameVote-refl : (l : Log) → SameVote l l
SameVote-refl l = record { term = refl; vote = refl }

pub SameVote-trans : {l m n : Log} → SameVote l m → SameVote m n → SameVote l n
SameVote-trans p q = record { term = q.term ∙ p.term; vote = q.vote ∙ p.vote }

pub append_entry-SameVote : (e : LogEntry) (l : Log) → SameVote l (append_entry e l).1
unfolding append_entry
append_entry-SameVote e l = record { term = ground arith; vote = ground arith }

pub append_entries-SameVote : (es : List LogEntry) (l : Log) → SameVote l (append_entries es l).1
unfolding append_entries
append_entries-SameVote [] l = SameVote-refl l
append_entries-SameVote (e ∷ es) l =
    go (append_entry e l).0 (append_entry e l).1 (append_entry-SameVote e l)
      (append_entries-SameVote es (append_entry e l).1)
  where
    go :
        (appended : Bool) (m : Log)
        → SameVote l m
        → SameVote m (append_entries es m).1
        → SameVote l (proceed (append_entries es) (appended, m)).1
    go true m p q = SameVote-trans p q
    go false m p q = p

pub truncate_suffix-SameVote : (k : ℕ) (l : Log) → SameVote l (truncate_suffix k l)
unfolding truncate_suffix
truncate_suffix-SameVote k l = record { term = ground arith; vote = ground arith }

retire-log : (r : Readings) (role : RaftRole) (s : Core) → (retire r role s).0.log ≡ s.log
unfolding retire
retire-log r leader s = refl
retire-log r _ s = refl

lower_to_follower-VoteKept :
    (t : ℕ) (s s' : Core) → lower_to_follower t s ≡ done s' → VoteKept s.log s'.log
unfolding lower_to_follower
lower_to_follower-VoteKept t s s' h = elim (Bool-cases (ltb s.log.current_term t)) [
  | inl more ↦ record { term = ground arith; vote = λ same voted. absurd (ground arith) }
  | inr same ↦ record { term = ground arith; vote = λ _ _. ground arith }
]

-- The replies of `step_down` do not matter here.
pub step_down-VoteKept :
    (r : Readings) (t : ℕ) (s s' : Core) (replies : List Reply)
    → step_down r t s ≡ done (s', replies)
    → VoteKept s.log s'.log
unfolding step_down
step_down-VoteKept r t s s' replies h =
    let (_, asserted, h₁) = >>=-eq-done (assert (leb s.log.current_term t)) _ h in
    let (n, lowered, h₂) = >>=-eq-done (lower_to_follower t s) _ h₁ in
    let same : (retire r s.role n).0 ≡ s' =
      ap (λ (x : Core × List Reply). x.0) (done-injective h₂) in
    subst (λ (x : Core). VoteKept s.log x.log) same
      (subst (VoteKept s.log) (sym (retire-log r s.role n))
        (lower_to_follower-VoteKept t s n lowered))
