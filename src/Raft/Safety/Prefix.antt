-- ===== src/Raft/Safety/Prefix.antt =====
-- `handleAppendEntriesRequest` and the entries that are committed already.
use mathlib.Core.Path.{subst}
use my_super_ledger.Prelude.{
  ℕ, ◌+◌, ◌-◌, ◌≤◌, ◌<◌, ◌^◌, Bool, true, false, ◌≡◌, refl, sym, ◌∙◌, ap, List, [], ◌∷◌, done,
  length, leb, ltb, ◌==◌, ==→eq, arith, Bool-cases, inl, inr, >>=-eq-done, done-injective, assert,
  add64, sub64,
}
use my_super_ledger.Raft.Log.Defs.{Log, LogEntry, append_entries}
use my_super_ledger.Raft.Log.View.{IsWellFormed, view, Numbered}
use my_super_ledger.Raft.Log.Append.{
  appended, append_entry_lem, appended-IsWellFormed, appends_next, append_entries_lem,
}
use my_super_ledger.Raft.Log.Truncate.{
  truncate_suffix-IsWellFormed, view-truncate_suffix, last-truncate_suffix,
}
use my_super_ledger.Raft.Core.State.{Core, term_of_log_entry_at}
use my_super_ledger.Raft.Core.Replicate.{
  AppendRequest, Verdict, skip, keep, accept_next, judge, accept_entries, append_all, store_entries,
}

-- From `l` to `l'` nothing at or below `commit` is lost, and at most `room` entries are added.
pub record PrefixKept (commit room : ℕ) (l l' : Log) : Type 0 where
  pub well_formed : IsWellFormed l'
  pub last : commit ≤ l'.last_index
  pub room_left : l'.last_index ≤ l.last_index + room
  pub kept : (i : ℕ) → i ≤ commit → view l' i ≡ view l i

PrefixKept-refl :
    (commit : ℕ) (l : Log) → IsWellFormed l → commit ≤ l.last_index → PrefixKept commit 0 l l
PrefixKept-refl commit l w b = record {
  well_formed = w;
  last = b;
  room_left = omega arith;
  kept = λ i h. refl;
}

pub PrefixKept-trans :
    {commit a b : ℕ} {l m n : Log}
    → PrefixKept commit a l m
    → PrefixKept commit b m n
    → PrefixKept commit (a + b) l n
PrefixKept-trans p q = record {
  well_formed = q.well_formed;
  last = q.last;
  room_left = omega (arith, p.room_left, q.room_left);
  kept = λ i h. q.kept i h ∙ p.kept i h;
}

-- A cut above the committed entries.
judge-PrefixKept :
    (commit : ℕ) (e : LogEntry) (l l' : Log)
    → IsWellFormed l
    → commit ≤ l.last_index
    → judge commit e l ≡ done (keep l')
    → PrefixKept commit 0 l l'
unfolding judge
judge-PrefixKept commit e l l' w b h = elim (Bool-cases (ltb e.index l.first_index)) [
  | inl below ↦ absurd (ground arith)
  | inr inside ↦ elim (Bool-cases (leb e.index l.last_index)) [
    | inr beyond ↦ subst (PrefixKept commit 0 l) (ground arith) (PrefixKept-refl commit l w b)
    | inl within ↦
        let (t, read, h₁) =
          >>=-eq-done (term_of_log_entry_at e.index l) _ (rw (inside, within) at h) in
        elim (Bool-cases (e.term == t)) [
          | inl agrees ↦ absurd (ground arith)
          | inr conflict ↦
              let (_, asserted, h₂) =
                >>=-eq-done (assert (ltb commit e.index)) _ (rw conflict at h₁) in
              let fits : sub64 e.index 1 + 1 < 2 ^ 64 = ground (arith, w.bound) in
              let cut : sub64 e.index 1 ≡ e.index - 1 = ground (arith, w.bound) in
              let above : commit < e.index = ground arith in
              subst (PrefixKept commit 0 l) (ground arith) (record {
                well_formed = truncate_suffix-IsWellFormed l w (sub64 e.index 1) fits;
                last = ground (arith, last-truncate_suffix l w (sub64 e.index 1) fits);
                room_left = ground (arith, last-truncate_suffix l w (sub64 e.index 1) fits);
                kept = λ i h. ground (arith, view-truncate_suffix l w (sub64 e.index 1) fits i);
              })
        ]
  ]
]

pub accept_entries-PrefixKept :
    (commit index : ℕ) (es : List LogEntry) (l l' : Log) (kept : List LogEntry)
    → IsWellFormed l
    → commit ≤ l.last_index
    → accept_entries commit index es l ≡ done (l', kept)
    → PrefixKept commit 0 l l' × (length kept ≤ length es)
unfolding accept_entries
accept_entries-PrefixKept commit index [] l l' kept w b h =
    (subst (PrefixKept commit 0 l) (ground arith) (PrefixKept-refl commit l w b), ground arith)
accept_entries-PrefixKept commit index (e ∷ es) l l' kept w b h =
    let (_, asserted, h₁) = >>=-eq-done (assert (e.index == add64 index 1)) _ h in
    let (v, judged, h₂) = >>=-eq-done (judge commit e l) _ h₁ in
    go v judged h₂
      (λ m n w' b' others. accept_entries-PrefixKept commit (add64 index 1) es m l' n w' b' others)
  where
    go :
        (v : Verdict)
        → judge commit e l ≡ done v
        → accept_next e l (accept_entries commit (add64 index 1) es) v ≡ done (l', kept)
        → ((m : Log) (n : List LogEntry)
            → IsWellFormed m
            → commit ≤ m.last_index
            → accept_entries commit (add64 index 1) es m ≡ done (l', n)
            → PrefixKept commit 0 m l' × (length n ≤ length es))
        → PrefixKept commit 0 l l' × (length kept ≤ length (e ∷ es))
    go skip judged rest ih = let (p, short) = ih l kept w b rest in (p, omega (arith, short))
    go (keep m) judged rest ih =
        let ((m', n), others, h₃) =
          >>=-eq-done (accept_entries commit (add64 index 1) es m) _ rest in
        let same : m' ≡ l' = ap (λ (x : Log × List LogEntry). x.0) (done-injective h₃) in
        let grown : e ∷ n ≡ kept = ap (λ (x : Log × List LogEntry). x.1) (done-injective h₃) in
        let cut = judge-PrefixKept commit e l m w b judged in
        let (p, short) =
          ih m n cut.well_formed cut.last
            (subst (λ x. accept_entries commit (add64 index 1) es m ≡ done (x, n)) same others) in
        (
          PrefixKept-trans cut p,
          subst (λ x. length x ≤ length (e ∷ es)) grown (omega (arith, short)),
        )

-- Entries that `appendEntries` takes are numbered on from the last one.
pub append_entries-Numbered :
    (es : List LogEntry) (l l' : Log)
    → IsWellFormed l
    → l.last_index + length es + 1 < 2 ^ 64
    → append_entries es l ≡ (true, l')
    → Numbered (l.last_index + 1) es
unfolding append_entries
append_entries-Numbered [] l l' w b h = tt
append_entries-Numbered (e ∷ es) l l' w b h = elim (Bool-cases (e.index == l.last_index + 1)) [
  | inl next ↦
      let n = ==→eq e.index (l.last_index + 1) next in
      let bump : add64 l.last_index 1 ≡ l.last_index + 1 = omega arith in
      (
        n,
        subst (λ k. Numbered (k + 1) es) bump
            (append_entries-Numbered es (appended e l) l'
              (appended-IsWellFormed l w e n (omega arith)) (omega arith)
              (rw (appends_next l w e n) at h)),
      )
  | inr other ↦ absurd (ground (arith, append_entry_lem l w e))
]

pub asserted_lem : (b : Bool) {x : Unit {0}} → assert b ≡ done x → b ≡ true
asserted_lem true h = refl
asserted_lem false h = absurd (ground arith)

pub append_all-PrefixKept :
    (commit : ℕ) (es : List LogEntry) (l l' : Log)
    → IsWellFormed l
    → commit ≤ l.last_index
    → l.last_index + length es + 1 < 2 ^ 64
    → append_all es l ≡ done l'
    → PrefixKept commit (length es) l l'
unfolding append_all
append_all-PrefixKept commit es l l' w b room h =
    let (_, asserted, h₁) = >>=-eq-done (assert (append_entries es l).0) _ h in
    let taken : append_entries es l ≡ (true, l') =
      λ i. (asserted_lem (append_entries es l).0 asserted i, done-injective h₁ i) in
    let (m, appended, x) =
      append_entries_lem es l w (append_entries-Numbered es l l' w room taken) room in
    let same : m ≡ l' = ap (λ (x : Bool × Log). x.1) (sym appended ∙ taken) in
    subst (PrefixKept commit (length es) l) same (record {
      well_formed = x.well_formed;
      last = omega (arith, x.last);
      room_left = omega (arith, x.last);
      kept = λ i h. x.old i (omega arith);
    })

pub store_entries_commit :
    (req : AppendRequest) (s s' : Core)
    → store_entries req s ≡ done s'
    → (s.commit_index ≤ s'.commit_index)
      × (s.commit_index ≤ s'.log.last_index → s'.commit_index ≤ s'.log.last_index)
unfolding store_entries
store_entries_commit req s s' h =
    let ((m, kept), accepted, h₁) =
      >>=-eq-done (accept_entries s.commit_index req.prev_log_index req.entries s.log) _ h in
    let (l', appended, h₂) = >>=-eq-done (append_all kept m) _ h₁ in
    elim (Bool-cases (ltb s.commit_index req.commit_index)) [
      | inr old ↦ (ground arith, λ b. ground arith)
      | inl new ↦
          let (_, asserted, h₃) =
            >>=-eq-done (assert (leb req.commit_index l'.last_index)) _ (rw new at h₂) in
          (ground arith, λ b. ground arith)
    ]
