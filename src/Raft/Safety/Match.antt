-- ===== src/Raft/Safety/Match.antt =====
-- What an accepted AppendEntries leaves in the log.
use mathlib.Core.Path.{subst}
use my_super_ledger.Prelude.{
  ℕ, zero, suc, ◌+◌, ◌-◌, ◌≤◌, ◌<◌, ◌^◌, ◌≡◌, refl, sym, ◌∙◌, ap, some, List, [], ◌∷◌, done,
  get_elem?, length, leb, ltb, ◌==◌, arith, Bool-cases, inl, inr, some_injective, expect-eq-done,
  >>=-eq-done, done-injective, assert, add64, sub64,
}
use my_super_ledger.Raft.Log.Defs.{Log, LogEntry, get_term, truncate_suffix}
use my_super_ledger.Raft.Log.View.{IsWellFormed, view, get_term-eq-view, view_inside}
use my_super_ledger.Raft.Log.Truncate.{truncate_suffix-IsWellFormed, view-truncate_suffix}
use my_super_ledger.Raft.Core.State.{term_of_log_entry_at}
use my_super_ledger.Raft.Core.Replicate.{Verdict, skip, keep, accept_next, judge, accept_entries}

-- The log has an entry of the same index and term.
pub record Holds (l : Log) (e : LogEntry) : Type 0 where
  pub entry : LogEntry
  pub found : view l e.index ≡ some entry
  pub same_term : entry.term ≡ e.term

-- What the loop does with one entry of the request.
pub data Fate (l : Log) (kept : List LogEntry) (e : LogEntry) : Type 0 where
  dropped : e.index < l.first_index → Fate l kept e
  held : Holds l e → Fate l kept e
  gathered : (j : ℕ) → get_elem? kept j ≡ some e → Fate l kept e

pub record SortedOut (index : ℕ) (es : List LogEntry) (l l' : Log) (kept : List LogEntry)
    : Type 0 where
  pub first : l'.first_index ≡ l.first_index
  pub old : (i : ℕ) → i ≤ index → view l' i ≡ view l i
  pub fate : (k : ℕ) (e : LogEntry) → get_elem? es k ≡ some e → Fate l' kept e

term_of_view :
    (i t : ℕ) (l : Log) (x : LogEntry)
    → IsWellFormed l
    → l.first_index ≤ i
    → term_of_log_entry_at i l ≡ done t
    → view l i ≡ some x
    → x.term ≡ t
unfolding term_of_log_entry_at
term_of_view i t l x w lo read found =
    let got : some t ≡ some x.term =
      sym (expect-eq-done (get_term i l) read)
      ∙ get_term-eq-view l w i
      ∙ ground (arith, found, w.first) in
    sym (some_injective got)

first-truncate_suffix :
    (i : ℕ) (l : Log)
    → IsWellFormed l
    → l.first_index ≤ i
    → i ≤ l.last_index
    → (truncate_suffix (sub64 i 1) l).first_index ≡ l.first_index
unfolding truncate_suffix
first-truncate_suffix i l w lo hi =
    let below : sub64 i 1 ≡ i - 1 = omega (arith, w.first, w.bound) in
    ground (arith, w.first, w.bound)

judge_skip :
    (commit : ℕ) (e : LogEntry) (l : Log)
    → IsWellFormed l
    → judge commit e l ≡ done skip
    → Fate l [] e
unfolding judge
judge_skip commit e l w h = elim (Bool-cases (ltb e.index l.first_index)) [
  | inl below ↦ dropped (ground arith)
  | inr inside ↦ elim (Bool-cases (leb e.index l.last_index)) [
    | inr beyond ↦ absurd (ground arith)
    | inl within ↦
        let (t, read, h₁) =
          >>=-eq-done (term_of_log_entry_at e.index l) _ (rw (inside, within) at h) in
        let (x, found) = view_inside l w e.index (ground arith) (ground arith) in
        elim (Bool-cases (e.term == t)) [
          | inl agrees ↦ held (record {
            entry = x;
            found = found;
            same_term = term_of_view e.index t l x w (ground arith) read found ∙ ground arith;
          })
          | inr conflict ↦ absurd (ground arith)
        ]
  ]
]

judge_keep :
    (commit : ℕ) (e : LogEntry) (l m : Log)
    → IsWellFormed l
    → judge commit e l ≡ done (keep m)
    → IsWellFormed m
      × (m.first_index ≡ l.first_index)
      × ((i : ℕ) → i < e.index → view m i ≡ view l i)
unfolding judge
judge_keep commit e l m w h = elim (Bool-cases (ltb e.index l.first_index)) [
  | inl below ↦ absurd (ground arith)
  | inr inside ↦ elim (Bool-cases (leb e.index l.last_index)) [
    | inr beyond ↦ at_log l (w, refl, λ i b. refl) (ground arith)
    | inl within ↦
        let (t, read, h₁) =
          >>=-eq-done (term_of_log_entry_at e.index l) _ (rw (inside, within) at h) in
        elim (Bool-cases (e.term == t)) [
          | inl agrees ↦ absurd (ground arith)
          | inr conflict ↦
              let fits : sub64 e.index 1 + 1 < 2 ^ 64 = ground (arith, w.bound) in
              let cut : sub64 e.index 1 ≡ e.index - 1 = ground (arith, w.bound) in
              let lo : l.first_index ≤ e.index = ground arith in
              at_log (truncate_suffix (sub64 e.index 1) l)
                (
                  truncate_suffix-IsWellFormed l w (sub64 e.index 1) fits,
                  first-truncate_suffix e.index l w lo (ground arith),
                  λ i b. ground (arith, view-truncate_suffix l w (sub64 e.index 1) fits i),
                )
                (ground arith)
        ]
  ]
]
  where
    at_log :
        (n : Log)
        → IsWellFormed n
          × (n.first_index ≡ l.first_index)
          × ((i : ℕ) → i < e.index → view n i ≡ view l i)
        → n ≡ m
        → IsWellFormed m
          × (m.first_index ≡ l.first_index)
          × ((i : ℕ) → i < e.index → view m i ≡ view l i)
    at_log n p same =
        subst
          (λ x.
            IsWellFormed x
            × (x.first_index ≡ l.first_index)
            × ((i : ℕ) → i < e.index → view x i ≡ view l i))
          same p

later-Fate :
    (l m : Log) (kept : List LogEntry) (e : LogEntry)
    → m.first_index ≡ l.first_index
    → view m e.index ≡ view l e.index
    → Fate l [] e
    → Fate m kept e
later-Fate l m kept e first same (dropped b) = dropped (omega arith)
later-Fate l m kept e first same (held p) =
    held (record { entry = p.entry; found = same ∙ p.found; same_term = p.same_term })
later-Fate l m kept e first same (gathered j g) = absurd (ground arith)

more-Fate : (l : Log) (kept : List LogEntry) (f e : LogEntry) → Fate l kept e → Fate l (f ∷ kept) e
more-Fate l kept f e (dropped b) = dropped b
more-Fate l kept f e (held p) = held p
more-Fate l kept f e (gathered j g) = gathered (suc j) g

Fate-cons :
    {l : Log} {kept : List LogEntry} (es : List LogEntry) {e : LogEntry}
    → Fate l kept e
    → ((k : ℕ) (f : LogEntry) → get_elem? es k ≡ some f → Fate l kept f)
    → (k : ℕ) (f : LogEntry) → get_elem? (e ∷ es) k ≡ some f
    → Fate l kept f
Fate-cons {l} {kept} es first rest zero f g = subst (Fate l kept) (some_injective g) first
Fate-cons es first rest (suc k) f g = rest k f g

pub accept_entries_lem :
    (commit index : ℕ) (es : List LogEntry) (l l' : Log) (kept : List LogEntry)
    → IsWellFormed l
    → index + length es < 2 ^ 64
    → accept_entries commit index es l ≡ done (l', kept)
    → SortedOut index es l l' kept
unfolding accept_entries
accept_entries_lem commit index [] l l' kept w b h =
    let same : l ≡ l' = ap (λ (x : Log × List LogEntry). x.0) (done-injective h) in
    record {
      first = ap (λ (x : Log). x.first_index) (sym same);
      old = λ i u. ap (λ x. view x i) (sym same);
      fate = λ k e g. absurd (ground arith);
    }
accept_entries_lem commit index (e ∷ es) l l' kept w b h =
    let (_, asserted, h₁) = >>=-eq-done (assert (e.index == add64 index 1)) _ h in
    let (v, judged, h₂) = >>=-eq-done (judge commit e l) _ h₁ in
    let next : add64 index 1 ≡ index + 1 = omega arith in
    let numbered : e.index ≡ index + 1 = ground arith in
    go v numbered judged h₂
      (λ m n w' others. accept_entries_lem commit (add64 index 1) es m l' n w' (omega arith) others)
  where
    go :
        (v : Verdict)
        → e.index ≡ index + 1
        → judge commit e l ≡ done v
        → accept_next e l (accept_entries commit (add64 index 1) es) v ≡ done (l', kept)
        → ((m : Log) (n : List LogEntry)
            → IsWellFormed m
            → accept_entries commit (add64 index 1) es m ≡ done (l', n)
            → SortedOut (add64 index 1) es m l' n)
        → SortedOut index (e ∷ es) l l' kept
    go skip at judged rest ih =
        let p = ih l kept w rest in
        let next : add64 index 1 ≡ index + 1 = omega arith in
        record {
          first = p.first;
          old = λ i u. p.old i (omega arith);
          fate =
              Fate-cons es
                (later-Fate l l' kept e p.first (p.old e.index (omega arith))
                  (judge_skip commit e l w judged))
                p.fate;
        }
    go (keep m) at judged rest ih =
        let ((m', n), others, h₃) =
          >>=-eq-done (accept_entries commit (add64 index 1) es m) _ rest in
        let same : m' ≡ l' = ap (λ (x : Log × List LogEntry). x.0) (done-injective h₃) in
        let grown : e ∷ n ≡ kept = ap (λ (x : Log × List LogEntry). x.1) (done-injective h₃) in
        let (w', first, old) = judge_keep commit e l m w judged in
        let p =
          ih m n w'
            (subst (λ x. accept_entries commit (add64 index 1) es m ≡ done (x, n)) same others) in
        let next : add64 index 1 ≡ index + 1 = omega arith in
        subst (SortedOut index (e ∷ es) l l') grown (record {
          first = p.first ∙ first;
          old = λ i u. p.old i (omega arith) ∙ old i (omega arith);
          fate = Fate-cons es (gathered 0 refl) (λ k f g. more-Fate l' n e f (p.fate k f g));
        })
