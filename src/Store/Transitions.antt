-- ===== src/Store/Transitions.antt =====
-- What `detectTransition` promises to the command loop.
use my_super_ledger.Prelude.{
  >>=-eq-done, done-injective, ℕ, ◌≤◌, Bool, true, false, not, ◌&&◌, ◌||◌, List, [], ◌∷◌, done, ◌≡◌,
  refl, sym, ◌∙◌, ap, arith, ◌==◌, Bool-cases, inl, inr,
}
use my_super_ledger.Raft.Core.State.{RaftRole}
use my_super_ledger.Store.Defs.{
  leads, EventStore, refresh, Transition, same_leader, old_leader_to_new_leader, leader_to_follower,
  follower_to_leader, same_follower, old_follower_to_new_follower, classify, detect_transition,
  detect_all,
}

-- The transitions after which commands are accepted.
abbrev pub accepts : Transition → Bool
accepts same_leader = true
accepts old_leader_to_new_leader = true
accepts leader_to_follower = false
accepts follower_to_leader = true
accepts same_follower = false
accepts old_follower_to_new_follower = false

-- What was checked last is what the log store goes by.
pub record InStep {C E : Type 0} (st : EventStore C E) : Type 0 where
  pub term : st.checked_term ≡ st.log_term
  pub role : st.checked_role ≡ st.log_role

-- What a detection at a reading of term and role has found. A leader that the reading shows as
-- none, in the term in which it led, still counts as leader.
pub record Detected {C E : Type 0} (term : ℕ) (role : RaftRole) (transition : Transition)
    (st st' : EventStore C E) : Type 0 where
  pub in_step : InStep st'
  pub now : st'.checked_term ≡ term
  pub leads_now :
      leads st'.checked_role ≡ (leads role || ((st.log_term == term) && leads st.log_role))
  pub onward : st.checked_term ≤ st'.checked_term
  pub accepted : accepts transition ≡ leads st'.checked_role
  pub loyal :
      (leads st.checked_role
        && (st'.checked_term == st.checked_term)
        && not (leads st'.checked_role))
      ≡ false

classify_lem :
    (last_term : ℕ) (last_role : RaftRole) (term : ℕ) (role : RaftRole)
    → last_term ≤ term
    → ((last_term == term) && leads last_role && not (leads role)) ≡ false
    → (t : Transition) × (classify last_term last_role term role ≡ done t)
      × (accepts t ≡ leads role)
unfolding classify
classify_lem last_term last_role term role onward loyal = elim (Bool-cases (last_term == term)) [
  | inr later ↦ elim (Bool-cases (leads last_role)) [
    | inl led ↦ elim (Bool-cases (leads role)) [
      | inl lead ↦ (old_leader_to_new_leader, ground arith, ground arith)
      | inr follow ↦ (leader_to_follower, ground arith, ground arith)
    ]
    | inr followed ↦ elim (Bool-cases (leads role)) [
      | inl lead ↦ (follower_to_leader, ground arith, ground arith)
      | inr follow ↦ (old_follower_to_new_follower, ground arith, ground arith)
    ]
  ]
  | inl same ↦ elim (Bool-cases (leads last_role)) [
    | inl led ↦ (same_leader, ground arith, ground arith)
    | inr followed ↦ elim (Bool-cases (leads role)) [
      | inl lead ↦ (follower_to_leader, ground arith, ground arith)
      | inr follow ↦ (same_follower, ground arith, ground arith)
    ]
  ]
]

-- At a reading of term and role whose term is not older than the last, where what was checked is
-- what the log store goes by, the detection does not fail: the two agree afterwards, the checked
-- term is the one read, and commands are accepted exactly if the node leads by the reading, or led
-- in that same term by the last one; the term does not fall, and a leader stays one while its term
-- does.
pub detect_total :
    {C E : Type 0} (term : ℕ) (role : RaftRole) (st : EventStore C E)
    → InStep st
    → st.log_term ≤ term
    → (t : Transition) × (st' : EventStore C E) × (detect_transition term role st ≡ done (t, st'))
      × Detected term role t st st'
unfolding detect_transition refresh
detect_total term role st w onward =
    elim (Bool-cases (st.log_term == term && leads st.log_role && not (leads role))) [
      | inl skipped ↦
          let (t, found, same) =
            classify_lem st.checked_term st.checked_role st.log_term st.log_role
              (omega (arith, w.term)) (ground (arith, w.role)) in
          (
            t,
            record st { checked_term = st.log_term; checked_role = st.log_role },
            rw (skipped, found) refl,
            record {
              in_step = record { term = refl; role = refl };
              now = ground arith;
              leads_now = ground arith;
              onward = omega (arith, w.term);
              accepted = same;
              loyal = ground (arith, w.role);
            },
          )
      | inr taken ↦
          let (t, found, same) =
            classify_lem st.checked_term st.checked_role term role (omega (arith, w.term))
              (rw (w.term, w.role) taken) in
          (
            t,
            record st {
              log_term = term;
              log_role = role;
              checked_term = term;
              checked_role = role;
            },
            rw (taken, found) refl,
            record {
              in_step = record { term = refl; role = refl };
              now = refl;
              leads_now = ground arith;
              onward = omega (arith, w.term);
              accepted = same;
              loyal = kept taken;
            },
          )
    ]
  where
    kept :
        (st.log_term == term && leads st.log_role && not (leads role)) ≡ false
        → (leads st.checked_role && (term == st.checked_term) && not (leads role)) ≡ false
    kept taken = rw (w.term, w.role) (ground arith)

-- The readings of the term do not fall, from `t` on.
abbrev pub Ascending : ℕ → List (ℕ × RaftRole) → Type 0
Ascending t [] = Unit {0}
Ascending t ((term, role) ∷ rest) = (t ≤ term) × Ascending term rest

Ascending-refresh :
    {C E : Type 0} (term : ℕ) (role : RaftRole) (st : EventStore C E)
    → st.log_term ≤ term
    → (refresh term role st).log_term ≡ term
unfolding refresh
Ascending-refresh term role st onward = ground arith

detected_term :
    {C E : Type 0} (term : ℕ) (role : RaftRole) (st st' : EventStore C E) (t : Transition)
    → detect_transition term role st ≡ done (t, st')
    → st'.log_term ≡ (refresh term role st).log_term
unfolding detect_transition
detected_term term role st st' t h =
    let now = refresh term role st in
    let (_, found, h₁) =
      >>=-eq-done (classify now.checked_term now.checked_role now.log_term now.log_role) _ h in
    ap (λ x. x.1.log_term) (sym (done-injective h₁))

-- Along any run of readings whose term does not fall, no detection fails.
pub detect_all_total :
    {C E : Type 0} (readings : List (ℕ × RaftRole)) (st : EventStore C E)
    → InStep st
    → Ascending st.log_term readings
    → (ts : List Transition) × (st' : EventStore C E) × (detect_all readings st ≡ done (ts, st'))
      × InStep st'
unfolding detect_all
detect_all_total [] st w up = ([], st, refl, w)
detect_all_total ((term, role) ∷ rest) st w up =
    let (t, n, found, d) = detect_total term role st w up.0 in
    let at : n.log_term ≡ term =
      detected_term term role st n t found ∙ Ascending-refresh term role st up.0 in
    let (ts, st', others, w') = detect_all_total rest n d.in_step (rw at up.1) in
    (t ∷ ts, st', rw (found, others) refl, w')
