-- ===== src/Raft/Log/Append.antt =====
-- Appending to the log.
use mathlib.Core.Path.{subst}
use my_super_ledger.Prelude.{
  ℕ, zero, suc, ◌+◌, ◌-◌, ◌≤◌, ◌<◌, ◌^◌, true, false, ◌≡◌, refl, sym, ap, ◌∙◌, some, List, [], ◌∷◌,
  ◌++◌, get_elem?, length, length-append, ◌==◌, arith, if◌then◌else◌, add64,
}
use my_super_ledger.Raft.Log.Defs.{LogEntry, Log, append_entry, append_entries, proceed}
use my_super_ledger.Raft.Log.View.{Numbered, IsWellFormed, view}

pub Numbered-append :
    (n : ℕ) (es : List LogEntry) (e : LogEntry)
    → Numbered n es
    → e.index ≡ n + length es
    → Numbered n (es ++ e ∷ [])
Numbered-append n [] e h i = ground arith
Numbered-append n (x ∷ es) e h i = (h.0, Numbered-append (n + 1) es e h.1 (omega arith))

get_elem?-snoc {ℓ} :
    {A : Type ℓ} (xs : List A) (x : A) (i : ℕ)
    → get_elem? (xs ++ x ∷ []) i ≡ (if i == length xs then some x else get_elem? xs i)
get_elem?-snoc [] x zero = ground arith
get_elem?-snoc [] x (suc i) = ground arith
get_elem?-snoc (y ∷ xs) x zero = ground arith
get_elem?-snoc (y ∷ xs) x (suc i) = ground (arith, get_elem?-snoc xs x i)

-- The log with one more entry.
abbrev pub appended : LogEntry → Log → Log
appended e l = record l { entries = l.entries ++ e ∷ []; last_index = add64 l.last_index 1 }

module _ (l : Log) (w : IsWellFormed l) (e : LogEntry) where
  -- An entry is appended exactly if it carries the index after the last one.
  pub append_entry_lem :
      append_entry e l ≡ (if e.index == l.last_index + 1 then (true, appended e l) else (false, l))
  unfolding append_entry
  append_entry_lem = ground (arith, w.bound)

  pub appends_next : e.index ≡ l.last_index + 1 → append_entry e l ≡ (true, appended e l)
  appends_next h = append_entry_lem ∙ ground arith

  pub appended-IsWellFormed :
      e.index ≡ l.last_index + 1 → l.last_index + 2 < 2 ^ 64 → IsWellFormed (appended e l)
  appended-IsWellFormed h b = record {
    first = w.first;
    size = omega (arith, length-append l.entries (e ∷ []), w.size);
    bound = omega arith;
    numbered = Numbered-append l.first_index l.entries e w.numbered (omega (arith, w.size));
  }

  pub view-appended :
      (i : ℕ)
      → e.index ≡ l.last_index + 1
      → view (appended e l) i ≡ (if i == l.last_index + 1 then some e else view l i)
  unfolding view
  view-appended i h = ground (arith, w.size, get_elem?-snoc l.entries e (i - l.first_index))

-- The log has been extended by the entries.
pub record Extends (l l' : Log) (es : List LogEntry) : Type 0 where
  pub well_formed : IsWellFormed l'
  pub last : l'.last_index ≡ l.last_index + length es
  pub first : l'.first_index ≡ l.first_index
  pub term : l'.current_term ≡ l.current_term
  pub vote : l'.vote_for ≡ l.vote_for
  pub old : (i : ℕ) → i ≤ l.last_index → view l' i ≡ view l i
  pub new : (k : ℕ) → k < length es → view l' (l.last_index + 1 + k) ≡ get_elem? es k

Extends-cons :
    (l l' : Log)
    → IsWellFormed l
    → (e : LogEntry) (es : List LogEntry) → e.index ≡ l.last_index + 1
    → l.last_index + 2 < 2 ^ 64
    → Extends (appended e l) l' es
    → Extends l l' (e ∷ es)
Extends-cons l l' w e es n b x =
    let bump : add64 l.last_index 1 ≡ l.last_index + 1 = omega arith in
    record {
      well_formed = x.well_formed;
      last = omega (arith, x.last);
      first = x.first;
      term = x.term;
      vote = x.vote;
      old = λ i h. x.old i (omega arith) ∙ (rw (view-appended l w e i n) (ground arith));
      new = new_entry;
    }
  where
    new_entry :
        (k : ℕ) → k < length (e ∷ es) → view l' (l.last_index + 1 + k) ≡ get_elem? (e ∷ es) k
    new_entry zero h =
        x.old (l.last_index + 1 + zero) (omega arith)
        ∙ view-appended l w e (l.last_index + 1 + zero) n
        ∙ ground arith
    new_entry (suc k) h =
        let bump : add64 l.last_index 1 + 1 + k ≡ l.last_index + 1 + suc k = omega arith in
        subst (λ j. view l' j ≡ get_elem? es k) bump (x.new k (omega arith))

-- `appendEntries` of entries that continue a log in order, up to an index below 2^64 - 1,
-- succeeds: it adds them all, keeps what was there, and keeps the term and the vote.
pub append_entries_lem :
    (es : List LogEntry) (l : Log)
    → IsWellFormed l
    → Numbered (l.last_index + 1) es
    → l.last_index + length es + 1 < 2 ^ 64
    → (l' : Log) × (append_entries es l ≡ (true, l')) × Extends l l' es
unfolding append_entries
append_entries_lem [] l w n b = (
  l,
  refl,
  record {
    well_formed = w;
    last = omega arith;
    first = refl;
    term = refl;
    vote = refl;
    old = λ i h. refl;
    new = λ k h. absurd (omega arith);
  },
)
append_entries_lem (e ∷ es) l w n b =
    let bump : add64 l.last_index 1 ≡ l.last_index + 1 = omega (arith, w.bound) in
    let (l', rest, x) =
      append_entries_lem es (appended e l) (appended-IsWellFormed l w e n.0 (omega arith))
        (subst (λ k. Numbered (k + 1) es) (sym bump) n.1) (omega arith) in
    (
      l',
      ap (proceed (append_entries es)) (appends_next l w e n.0) ∙ rest,
      Extends-cons l l' w e es n.0 (omega arith) x,
    )
