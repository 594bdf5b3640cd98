-- ===== src/Raft/Safety/Accepted.antt =====
-- The entries of an accepted AppendEntries are in the log afterwards.
use mathlib.Core.Path.{subst}
use my_super_ledger.Prelude.{
  ℕ, zero, suc, ◌+◌, ◌≤◌, ◌<◌, ◌^◌, Bool, true, false, ◌≡◌, refl, sym, ◌∙◌, ap, some, List, [], ◌∷◌,
  done, get_elem?, length, leb, ltb, ◌==◌, arith, Bool-cases, inl, inr, >>=-eq-done, done-injective,
  assert,
}
use my_super_ledger.Raft.Log.Defs.{Log, LogEntry, append_entries}
use my_super_ledger.Raft.Log.View.{IsWellFormed, view, view_above, Numbered-get}
use my_super_ledger.Raft.Log.Append.{appended, append_entries_lem}
use my_super_ledger.Raft.Core.State.{
  syncer, role_code, Core, Reply, Readings, update_election_time_point,
}
use my_super_ledger.Raft.Core.Replicate.{
  AppendRequest, AppendResponse, Handled, append_all, store_entries, answer_leader,
  handle_append_entries_request,
}
use my_super_ledger.Raft.Safety.Store.{store_entries_inv}
use my_super_ledger.Raft.Safety.Follow.{follow_leader_inv}
use my_super_ledger.Raft.Safety.Prefix.{
  accept_entries-PrefixKept, append_entries-Numbered, asserted_lem,
}
use my_super_ledger.Raft.Safety.Settle.{Settled, Followed-SameEntries, SameEntries-SettledKept}
use my_super_ledger.Raft.Safety.Match.{Holds, Fate, accept_entries_lem, dropped, held, gathered}

get_elem?-length {ℓ} :
    {A : Type ℓ} (xs : List A) (i : ℕ) {x : A} → get_elem? xs i ≡ some x → i < length xs
get_elem?-length [] i h = absurd (ground arith)
get_elem?-length (y ∷ ys) zero h = omega arith
get_elem?-length (y ∷ ys) (suc i) h = omega (arith, get_elem?-length ys i h)

-- The entries gathered are in the log after `append_all`.
append_all-Holds :
    (es : List LogEntry) (l l' : Log) (j : ℕ) (e : LogEntry)
    → IsWellFormed l
    → l.last_index + length es + 1 < 2 ^ 64
    → append_all es l ≡ done l'
    → get_elem? es j ≡ some e
    → Holds l' e
unfolding append_all
append_all-Holds es l l' j e w room h g =
    let (_, asserted, h₁) = >>=-eq-done (assert (append_entries es l).0) _ h in
    let taken : append_entries es l ≡ (true, l') =
      λ i. (asserted_lem (append_entries es l).0 asserted i, done-injective h₁ i) in
    let numbered = append_entries-Numbered es l l' w room taken in
    let (m, added, x) = append_entries_lem es l w numbered room in
    let same : m ≡ l' = ap (λ (x : Bool × Log). x.1) (sym added ∙ taken) in
    let at : e.index ≡ l.last_index + 1 + j = Numbered-get (l.last_index + 1) es j numbered g in
    let new : view m (l.last_index + 1 + j) ≡ some e = x.new j (get_elem?-length es j g) ∙ g in
    record {
      entry = e;
      found = ap (view l') at ∙ ap (λ x. view x (l.last_index + 1 + j)) (sym same) ∙ new;
      same_term = refl;
    }

append_all-old :
    (es : List LogEntry) (l l' : Log)
    → IsWellFormed l
    → l.last_index + length es + 1 < 2 ^ 64
    → append_all es l ≡ done l'
    → (l'.first_index ≡ l.first_index) × ((i : ℕ) → i ≤ l.last_index → view l' i ≡ view l i)
unfolding append_all
append_all-old es l l' w room h =
    let (_, asserted, h₁) = >>=-eq-done (assert (append_entries es l).0) _ h in
    let taken : append_entries es l ≡ (true, l') =
      λ i. (asserted_lem (append_entries es l).0 asserted i, done-injective h₁ i) in
    let (m, added, x) =
      append_entries_lem es l w (append_entries-Numbered es l l' w room taken) room in
    let same : m ≡ l' = ap (λ (x : Bool × Log). x.1) (sym added ∙ taken) in
    subst
      (λ (n : Log).
        (n.first_index ≡ l.first_index) × ((i : ℕ) → i ≤ l.last_index → view n i ≡ view l i))
      same (x.first, x.old)

view_within :
    (l : Log) → IsWellFormed l → (i : ℕ) {x : LogEntry} → view l i ≡ some x → i ≤ l.last_index
view_within l w i found = elim (Bool-cases (leb i l.last_index)) [
  | inl inside ↦ ground arith
  | inr above ↦ absurd (ground (arith, view_above l w i))
]

store_entries-Holds :
    (req : AppendRequest) (s s' : Core) (k : ℕ) (e : LogEntry)
    → Settled s
    → s.log.last_index + length req.entries + 1 < 2 ^ 64
    → req.prev_log_index + length req.entries < 2 ^ 64
    → store_entries req s ≡ done s'
    → get_elem? req.entries k ≡ some e
    → s.log.first_index ≤ e.index
    → Holds s'.log e
store_entries-Holds req s s' k e w room small h g lo =
    let (m, kept, accepted, appended) = store_entries_inv req s s' h in
    let (cut, short) =
      accept_entries-PrefixKept s.commit_index req.prev_log_index req.entries s.log m kept w.log
        w.commit accepted in
    let p =
      accept_entries_lem s.commit_index req.prev_log_index req.entries s.log m kept w.log small
        accepted in
    let room' : m.last_index + length kept + 1 < 2 ^ 64 = omega (arith, cut.room_left, short) in
    stays m kept p.first (p.fate k e g) cut.well_formed room' appended
  where
    stays :
        (m : Log) (kept : List LogEntry)
        → m.first_index ≡ s.log.first_index
        → Fate m kept e
        → IsWellFormed m
        → m.last_index + length kept + 1 < 2 ^ 64
        → append_all kept m ≡ done s'.log
        → Holds s'.log e
    stays m kept first (dropped b) w' room' h' = absurd (omega arith)
    stays m kept first (held p) w' room' h' =
        let (f, old) = append_all-old kept m s'.log w' room' h' in
        record {
          entry = p.entry;
          found = old e.index (view_within m w' e.index p.found) ∙ p.found;
          same_term = p.same_term;
        }
    stays m kept first (gathered j g') w' room' h' =
        append_all-Holds kept m s'.log j e w' room' h' g'

Holds-log : {l m : Log} {e : LogEntry} → l ≡ m → Holds l e → Holds m e
Holds-log {l} {m} {e} same p = subst (λ x. Holds x e) same p

answered-Holds :
    (r : Readings) (req : AppendRequest) (s : Core) (h : Handled AppendResponse) (k : ℕ)
    (e : LogEntry) (replies : List Reply) (n : Core) (fits : Bool)
    → req.prev_log_index + length req.entries < 2 ^ 64
    → h.response.success ≡ true
    → get_elem? req.entries k ≡ some e
    → Settled n
    → n.log.last_index + length req.entries + 1 < 2 ^ 64
    → n.log.first_index ≤ e.index
    → answer_leader r req replies s n fits ≡ done h
    → Holds h.core.log e
unfolding answer_leader update_election_time_point
answered-Holds r req s h k e replies n false small ok g w room lo h' = absurd (ground arith)
answered-Holds r req s h k e replies n true small ok g w room lo h' =
    let (n', stored, e₁) = >>=-eq-done (store_entries req n) _ h' in
    let p = store_entries-Holds req n n' k e w room small stored g lo in
    Holds-log (ap (λ (x : Handled AppendResponse). x.core.log) (done-injective e₁)) p

-- After an AppendEntries request that a settled node answers with success, with indices below 2^64
-- - 1, each entry of the request at or above the first index of the log stands in the log at its
-- index with its term.
pub accepted_entries-Holds :
    (r : Readings) (req : AppendRequest) (s : Core) (h : Handled AppendResponse) (k : ℕ)
    (e : LogEntry)
    → Settled s
    → s.log.last_index + length req.entries + 1 < 2 ^ 64
    → req.prev_log_index + length req.entries < 2 ^ 64
    → handle_append_entries_request r req s ≡ done h
    → h.response.success ≡ true
    → get_elem? req.entries k ≡ some e
    → s.log.first_index ≤ e.index
    → Holds h.core.log e
unfolding handle_append_entries_request
accepted_entries-Holds r req s h k e w room small run ok g lo =
    elim (Bool-cases (ltb req.term s.log.current_term)) [
      | inl stale ↦ absurd (ground arith)
      | inr current ↦ elim (Bool-cases (role_code s.role == role_code syncer)) [
        | inl syncing ↦ absurd (ground arith)
        | inr following ↦
            let f = follow_leader_inv r req s h (rw (current, following) at run) in
            let same = Followed-SameEntries r req s h f in
            let p = SameEntries-SettledKept same w in
            answered-Holds r req s h k e f.replies f.hailed f.fits small ok g p.settled
              (omega (arith, same.last)) (omega (arith, same.first)) f.answer_step
      ]
    ]
