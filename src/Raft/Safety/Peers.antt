-- ===== src/Raft/Safety/Peers.antt =====
-- What a leader knows of its followers: `handleAppendEntriesResponse`.
use mathlib.Core.Path.{subst}
use my_super_ledger.Prelude.{
  ℕ, ◌+◌, ◌-◌, ◌/◌, ◌≤◌, ◌<◌, ◌^◌, true, false, not, ◌≡◌, refl, sym, ◌∙◌, ap, List, [], Outcome,
  done, leb, ltb, ◌==◌, ==→eq, arith, Bool-cases, inl, inr, if◌then◌else◌, ◌>>=◌, >>=-eq-done,
  done-injective, assert, Map, add64, sub64, insert, lookup-insert, nat_eq, min,
}
use my_super_ledger.Raft.Core.State.{
  leader, role_code, Core, Peer, Reply, Readings, step_down, lower_to_follower, retire,
  update_election_time_point,
}
use my_super_ledger.Raft.Core.Replicate.{
  AppendResponse, peer_at, advance_peer, back_off, handle_append_entries_response,
}

-- With a step of at least one allowed and indices below 2^64 - 1, a mismatch moves a follower's
-- next index down, by at least one, and not to or below its match index, which stays.
pub back_off_lem :
    (max_decr : ℕ) (resp : AppendResponse) (p p' : Peer)
    → 1 ≤ max_decr
    → p.next_index < 2 ^ 64
    → resp.last_log_index + 1 < 2 ^ 64
    → back_off max_decr resp p ≡ done p'
    → (p'.match_index ≡ p.match_index)
      × (p.match_index < p'.next_index)
      × (p'.next_index < p.next_index)
unfolding back_off
back_off_lem max_decr resp p p' m n l h =
    let (_, asserted, h₁) = >>=-eq-done (assert (leb p.match_index resp.last_log_index)) _ h in
    let (_, asserted₂, h₂) = >>=-eq-done (assert (ltb (add64 p.match_index 1) p.next_index)) _ h₁ in
    let behind : p.match_index ≤ resp.last_log_index = ground arith in
    let apart : add64 p.match_index 1 < p.next_index = ground arith in
    let bump : add64 p.match_index 1 ≡ p.match_index + 1 = omega arith in
    elim (Bool-cases (ltb (add64 resp.last_log_index 1) p.next_index)) [
      | inl short ↦ (ground arith, ground arith, ground arith)
      | inr long ↦
          let half : sub64 p.next_index p.match_index ≡ p.next_index - p.match_index =
            omega arith in
          let step = min ((p.next_index - p.match_index) / 2) max_decr in
          let some_step : 1 ≤ step = omega arith in
          let small : step < p.next_index - p.match_index = omega arith in
          let down : sub64 p.next_index step ≡ p.next_index - step = omega arith in
          let new : p'.next_index ≡ p.next_index - step =
            sym (ap (λ (x : Peer). x.next_index) (done-injective (rw (long, half, down) at h₂))) in
          (ground arith, omega (arith, new), omega (arith, new))
    ]

-- The match index of a peer is below its next index.
pub record IsTracked (p : Peer) : Type 0 where
  pub below : p.match_index < p.next_index
  pub fits : p.next_index < 2 ^ 64

advance_peer_lem :
    (resp : AppendResponse) (p p' : Peer)
    → resp.match_index + 1 < 2 ^ 64
    → advance_peer resp p ≡ done p'
    → (p.match_index ≤ p'.match_index) × IsTracked p'
unfolding advance_peer
advance_peer_lem resp p p' b h =
    (ground arith, record { below = ground arith; fits = ground arith })

insert-peer_at :
    (id j : ℕ) (p : Peer) (peers : Map ℕ Peer)
    → peer_at j (insert id p peers) ≡ (if id == j then p else peer_at j peers)
unfolding peer_at
insert-peer_at id j p peers = ground (arith, lookup-insert id j p peers)

-- What a response may not break: each follower is tracked, and none is known to have less than before.
pub record Tracked (s s' : Core) : Type 0 where
  pub tracked : (id : ℕ) → IsTracked (peer_at id s'.peers)
  pub onward : (id : ℕ) → (peer_at id s.peers).match_index ≤ (peer_at id s'.peers).match_index

peer_at-here :
    (id j : ℕ) (p : Peer) (peers : Map ℕ Peer) → id == j ≡ true → peer_at j (insert id p peers) ≡ p
peer_at-here id j p peers same = insert-peer_at id j p peers ∙ rw same refl

peer_at-there :
    (id j : ℕ) (p : Peer) (peers : Map ℕ Peer)
    → id == j ≡ false
    → peer_at j (insert id p peers) ≡ peer_at j peers
peer_at-there id j p peers other = insert-peer_at id j p peers ∙ rw other refl

with_peer :
    (s : Core) (id : ℕ) (p : Peer)
    → ((j : ℕ) → IsTracked (peer_at j s.peers))
    → (peer_at id s.peers).match_index ≤ p.match_index
    → IsTracked p
    → Tracked s (record s { peers = insert id p s.peers })
with_peer s id p all more tracked = record {
  tracked = λ j. elim (Bool-cases (id == j)) [
    | inl here ↦ subst IsTracked (sym (peer_at-here id j p s.peers here)) tracked
    | inr there ↦ subst IsTracked (sym (peer_at-there id j p s.peers there)) (all j)
  ];
  onward = λ j. elim (Bool-cases (id == j)) [
    | inl here ↦
        let same : id ≡ j = ==→eq id j here in
        rw (peer_at-here id j p s.peers here)
          (subst (λ i. (peer_at i s.peers).match_index ≤ p.match_index) same more)
    | inr there ↦ rw (peer_at-there id j p s.peers there) (omega arith)
  ];
}

Tracked-refl :
    (s s' : Core) → ((j : ℕ) → IsTracked (peer_at j s.peers)) → s'.peers ≡ s.peers → Tracked s s'
Tracked-refl s s' all same = record {
  tracked = λ j. rw same (all j);
  onward = λ j. rw same (omega arith);
}

step_down-peers :
    (r : Readings) (t : ℕ) (s s' : Core) (replies : List Reply)
    → step_down r t s ≡ done (s', replies)
    → s'.peers ≡ s.peers
unfolding step_down lower_to_follower retire update_election_time_point
step_down-peers r t s s' replies h = ground arith

-- Where each follower's match index is below its next index, the step back may be at least one,
-- and indices are below 2^64 - 1, a response keeps each match index below its next index and
-- lowers no match index.
pub append_response-Tracked :
    (r : Readings) (resp : AppendResponse) (s s' : Core) (replies : List Reply)
    → ((id : ℕ) → IsTracked (peer_at id s.peers))
    → 1 ≤ s.max_decr_step
    → resp.match_index + 1 < 2 ^ 64
    → resp.last_log_index + 1 < 2 ^ 64
    → handle_append_entries_response r resp s ≡ done (s', replies)
    → Tracked s s'
unfolding handle_append_entries_response
append_response-Tracked r resp s s' replies all m b l h =
    elim (Bool-cases (s.log.current_term == resp.saved_term)) [
      | inr other ↦ Tracked-refl s s' all (ground arith)
      | inl mine ↦ elim (Bool-cases (role_code s.role == role_code leader)) [
        | inr no_leader ↦ absurd (ground arith)
        | inl leading ↦ elim (Bool-cases (ltb s.log.current_term resp.term)) [
          | inl older ↦
              Tracked-refl s s' all
                (step_down-peers r resp.term s s' replies (rw (mine, leading, older) at h))
          | inr newest ↦ known (rw (mine, leading, newest) at h)
        ]
      ]
    ]
  where
    p : Peer
    p = peer_at resp.id s.peers

    with_q : Peer → Outcome (Core × List Reply)
    with_q q = done (record s { peers = insert resp.id q s.peers }, [])

    at_end :
        (q : Peer)
        → with_q q ≡ done (s', replies)
        → p.match_index ≤ q.match_index
        → IsTracked q
        → Tracked s s'
    at_end q e more tracked =
        subst (Tracked s) (ap (λ (x : Core × List Reply). x.0) (done-injective e))
          (with_peer s resp.id q all more tracked)

    rest : Outcome (Core × List Reply)
    rest =
        if not (resp.saved_prev_log_index == sub64 p.next_index 1)
        then done (record s { peers = insert resp.id p s.peers }, [])
        else (do
          p' ← (if resp.success then advance_peer resp p else back_off s.max_decr_step resp p)
          done (record s { peers = insert resp.id p' s.peers }, []))

    known : rest ≡ done (s', replies) → Tracked s s'
    known e = elim (Bool-cases (resp.saved_prev_log_index == sub64 p.next_index 1)) [
      | inr passed ↦ at_end p (rw passed at e) (omega arith) (all resp.id)
      | inl current ↦
          let (q, moved, e₁) =
            >>=-eq-done
              (if resp.success then advance_peer resp p else back_off s.max_decr_step resp p) _
              (rw current at e) in
          elim (Bool-cases resp.success) [
            | inl good ↦
                let (more, tracked) = advance_peer_lem resp p q b (rw good at moved) in
                at_end q e₁ more tracked
            | inr bad ↦
                let (same, low, high) =
                  back_off_lem s.max_decr_step resp p q m (all resp.id).fits l (rw bad at moved) in
                at_end q e₁ (omega (arith, same)) (record {
                  below = omega (arith, same, low);
                  fits = omega (arith, high, (all resp.id).fits);
                })
          ]
    ]
