-- ===== src/Ledger/Machine/Total.antt =====
-- The state machine never aborts: from a valid state a well-formed command is processed, and the
-- events that it gives are applied, to the end.
use mathlib.Core.Path.{subst}
use my_super_ledger.Prelude.{
  ℕ, String, Bool, ◌≡◌, ◌≢◌, refl, inl, inr, Option, none, some, List, [], ◌∷◌, done, nat_eq,
  string_eq, Map, lookup, insert, contains, lookup-insert, arith, Bool-cases, ◌==◌, ==_iff,
  some_injective, Outcome-cases, ◌||◌,
}
use my_super_ledger.Ledger.Domain.Kind.{
  unknown, untyped, debit, credit, account_type_eq, TransactionType,
}
use my_super_ledger.Ledger.Domain.Money.{Amount}
use my_super_ledger.Ledger.Domain.Account.{Account, AccountMetadata}
use my_super_ledger.Ledger.Domain.Journal.{JournalLine, JournalEntry}
use my_super_ledger.Ledger.Machine.Defs.{
  AppState, ProcessHint, Event, Command, configure_account_metadata, create_account,
  record_journal_entry, journal_entry_recorded, Processed, Scan, reject, totals, Totals, no_totals,
  count_line, check_line, scan_lines, conclude, process_journal, process_create, process_configure,
  process_command, apply_events, process_and_apply, apply_configured, range_overlaps,
  uncovered_account,
}
use my_super_ledger.Ledger.Machine.Accept.{
  Reduced, count_line_ok, check_line-Counts, Acceptable, accept_sound,
}
use my_super_ledger.Ledger.Machine.Frame.{
  KnownAccounts, KnownAccounts-SameAccounts, apply_lines_ok, apply_lines-SameAccounts,
}

-- Every account stands under its own code and has a type.
pub record IsValid (s : AppState) : Type 0 where
  pub known : KnownAccounts s.coa

abbrev pub Versioned : List JournalLine → Type 0
Versioned [] = Unit {0}
Versioned (l ∷ ls) = (l.amount.version ≡ 1) × Versioned ls

-- An account that is created has a type; a journal command holds an entry, with amounts of
-- version 1.
abbrev pub WellFormed : Command → Type 0
WellFormed (configure_account_metadata m) = Unit {0}
WellFormed (create_account none) = Unit {0}
WellFormed (create_account (some a)) = a.account_type ≢ unknown
WellFormed (record_journal_entry none) = ⊥
WellFormed (record_journal_entry (some e)) = Versioned e.journal_lines

count_line_total :
    (type : TransactionType) (x : Amount) (t : Totals)
    → x.version ≡ 1
    → Reduced t
    → (r : Scan) × (count_line type x t ≡ done r)
unfolding count_line
count_line_total untyped x t v r = (_, refl)
count_line_total debit x t v r = (_, count_line_ok debit x t (λ e. cc e) v r)
count_line_total credit x t v r = (_, count_line_ok credit x t (λ e. cc e) v r)

check_line_total :
    (o : Option Account) (l : JournalLine) (t : Totals)
    → l.amount.version ≡ 1
    → Reduced t
    → (r : Scan) × (check_line o l t ≡ done r)
unfolding check_line
check_line_total none l t v r = (_, refl)
check_line_total (some a) l t v r =
    elim (Bool-cases (a.iso4217_currency_code == l.iso4217_currency_code)) [
      | inl same ↦
          let (scan, e) = count_line_total l.transaction_type l.amount t v r in (scan, rw same e)
      | inr other ↦ elim (Outcome-cases (check_line (some a) l t)) [
        | inl aborted ↦ absurd (ground arith)
        | inr result ↦ result
      ]
    ]

scan_lines_total :
    (coa : Map ℕ Account) (ls : List JournalLine) (t : Totals)
    → Versioned ls
    → Reduced t
    → (scan : Scan) × (scan_lines coa ls t ≡ done scan)
unfolding scan_lines
scan_lines_total coa [] t v r = (_, refl)
scan_lines_total coa (l ∷ ls) t v r =
    let (first, e) = check_line_total (lookup l.nominal_code coa) l t v.0 r in
    go first e (λ n rn. scan_lines_total coa ls n v.1 rn)
  where
    go :
        (first : Scan)
        → check_line (lookup l.nominal_code coa) l t ≡ done first
        → ((n : Totals) → Reduced n → (scan : Scan) × (scan_lines coa ls n ≡ done scan))
        → (scan : Scan) × (scan_lines coa (l ∷ ls) t ≡ done scan)
    go (reject hint) e others = (reject hint, rw e)
    go (totals n) e others =
        let (scan, e') = others n (check_line-Counts (lookup l.nominal_code coa) l t n e r).0 in
        (scan, rw e e')

process_journal_total :
    (persisted : String → Bool) (now : ℕ) (entry : JournalEntry) (s : AppState)
    → Versioned entry.journal_lines
    → (p : Processed) × (process_journal persisted now (some entry) s ≡ done p)
unfolding process_journal
process_journal_total persisted now entry s v =
    elim (Bool-cases (contains entry.id s.done_map || persisted entry.id)) [
      | inl old ↦ elim (Outcome-cases (process_journal persisted now (some entry) s)) [
        | inl aborted ↦ absurd (ground arith)
        | inr result ↦ result
      ]
      | inr new ↦
          let (scan, e) = scan_lines_total s.coa entry.journal_lines no_totals v (omega arith) in
          (conclude now entry scan, rw (new, e))
    ]

-- What a processed command comes to once its events are applied.
abbrev Applies : List Event → AppState → Type 0
Applies es s = (s' : AppState) × (apply_events es s ≡ done s') × IsValid s'

journal-Applies :
    (persisted : String → Bool) (now : ℕ) (entry : JournalEntry) (s : AppState)
    → IsValid s
    → Acceptable persisted s entry
    → Applies (journal_entry_recorded now entry ∷ []) s
unfolding apply_events
journal-Applies persisted now entry s valid a =
    let (coa, applied) = apply_lines_ok entry.journal_lines s.coa a.lines valid.known in
    (
      record s { done_map = insert entry.id entry.valid_time s.done_map; coa = coa },
      rw (a.fresh, applied),
      record {
        known =
            KnownAccounts-SameAccounts
              (apply_lines-SameAccounts entry.journal_lines s.coa coa applied) valid.known;
      },
    )

process_create-Applies :
    (now : ℕ) (o : Option Account) (s : AppState)
    → IsValid s
    → WellFormed (create_account o)
    → Applies (process_create now o s).1 s
unfolding process_create apply_events
process_create-Applies now none s valid w = (s, refl, valid)
process_create-Applies now (some a) s valid w = elim (Bool-cases (contains a.nominal_code s.coa)) [
  | inl old ↦ (s, rw old, valid)
  | inr new ↦ (
    record s { coa = insert a.nominal_code a s.coa },
    rw new (rw new),
    record {
      known = λ k b h. elim (Bool-cases (a.nominal_code == k)) [
        | inl same ↦
            let e : a.nominal_code ≡ k = (==_iff a.nominal_code k).0 same in
            let written : a ≡ b = some_injective (rw (lookup-insert, same) at h) in
            subst (λ c. (c.nominal_code ≡ k) × (c.account_type ≢ unknown)) written (e, w)
        | inr other ↦ valid.known k b (rw (lookup-insert, other) at h)
      ];
    },
  )
]

process_configure-Applies :
    (now : ℕ) (o : Option AccountMetadata) (s : AppState)
    → IsValid s
    → Applies (process_configure now o s).1 s
unfolding process_configure apply_events
process_configure-Applies now none s valid = (s, refl, valid)
process_configure-Applies now (some m) s valid =
    elim (Bool-cases (range_overlaps m s.account_metadata)) [
      | inl bad ↦ (s, rw bad, valid)
      | inr fine ↦ elim (Bool-cases (uncovered_account m s.coa)) [
        | inl bad ↦ (s, rw (fine, bad), valid)
        | inr covered ↦ (apply_configured m s, rw (fine, covered), record { known = valid.known })
      ]
    ]

command-Applies :
    (persisted : String → Bool) (now : ℕ) (c : Command) (s : AppState)
    → IsValid s
    → WellFormed c
    → (p : Processed) × (process_command persisted now c s ≡ done p) × Applies p.1 s
unfolding process_command
command-Applies persisted now (configure_account_metadata m) s valid w =
    (process_configure now m s, refl, process_configure-Applies now m s valid)
command-Applies persisted now (create_account a) s valid w =
    (process_create now a s, refl, process_create-Applies now a s valid w)
command-Applies persisted now (record_journal_entry none) s valid w = absurd w
command-Applies persisted now (record_journal_entry (some entry)) s valid w =
    let ((hint, es), e) = process_journal_total persisted now entry s w in
    ((hint, es), e, go hint es e)
  where
    go :
        (hint : ProcessHint) (es : List Event)
        → process_journal persisted now (some entry) s ≡ done (hint, es)
        → Applies es s
    go hint [] e = (s, unfold apply_events in refl, valid)
    go hint (event ∷ es) e =
        let (a, _, same) = accept_sound persisted now entry s hint event es e in
        rw same (journal-Applies persisted now entry s valid a)

-- From a valid state a well-formed command is processed and its events are applied, with no failed
-- assertion, missing account or exit on the way, and the state that results is valid.
pub machine_total :
    (persisted : String → Bool) (now : ℕ) (c : Command) (s : AppState)
    → IsValid s
    → WellFormed c
    → (hint : ProcessHint) × (es : List Event) × (s' : AppState) × (process_and_apply persisted now
          c s
        ≡ done (hint, es, s'))
      × IsValid s'
unfolding process_and_apply
machine_total persisted now c s valid w =
    let ((hint, es), processed, (s', applied, valid')) =
      command-Applies persisted now c s valid w in
    (hint, es, s', rw (processed, applied), valid')
