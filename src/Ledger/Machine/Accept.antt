-- ===== src/Ledger/Machine/Accept.antt =====
-- When `process(RecordJournalEntryCommand)` accepts an entry, stated over the entry and the chart
-- of accounts alone.
use my_super_ledger.Prelude.{
  ℕ, ◌+◌, ◌%◌, ◌^◌, ◌<◌, String, Bool, false, ◌≡◌, ◌≢◌, refl, inl, inr, Option, none, some, List,
  [], ◌∷◌, done, >>=-eq-done, nat_eq, string_eq, Map, lookup, contains, arith, Bool-cases,
  Option-cases, add64, ap,
}
use my_super_ledger.Ledger.Domain.Kind.{TransactionType, untyped, debit, credit}
use my_super_ledger.Ledger.Domain.Money.{Amount}
use my_super_ledger.Ledger.Domain.Account.{Account}
use my_super_ledger.Ledger.Domain.Journal.{JournalLine, JournalEntry}
use my_super_ledger.Ledger.Machine.Defs.{
  AppState, ProcessHint, success, Event, journal_entry_recorded, Totals, no_totals, Scan, reject,
  totals, count_line, check_line, scan_lines, conclude, process_journal,
}
use my_super_ledger.Ledger.Machine.Trial.{debits, credits, scan_lines_inv, scan_lines-Sums}

abbrev pub debit_count : List JournalLine → ℕ
debit_count [] = 0
debit_count (l ∷ rest) = elim l.transaction_type [ debit ↦ 1 | _ ↦ 0 ] + debit_count rest

abbrev pub credit_count : List JournalLine → ℕ
credit_count [] = 0
credit_count (l ∷ rest) = elim l.transaction_type [ credit ↦ 1 | _ ↦ 0 ] + credit_count rest

-- A line whose account exists with the line's currency, and that is a debit or a credit.
pub record LineFits (coa : Map ℕ Account) (l : JournalLine) : Type 0 where
  pub account : Account
  pub found : lookup l.nominal_code coa ≡ some account
  pub currency : account.iso4217_currency_code ≡ l.iso4217_currency_code
  pub typed : l.transaction_type ≢ untyped
  pub version : l.amount.version ≡ 1

abbrev pub LinesFit : Map ℕ Account → List JournalLine → Type 0
LinesFit coa [] = Unit {0}
LinesFit coa (l ∷ ls) = LineFits coa l × LinesFit coa ls

-- The entry is new, its lines fit, and it has a debit, a credit and equal sums, where counts are
-- taken modulo 2^32 and sums modulo 2^64.
pub record Acceptable (persisted : String → Bool) (s : AppState) (entry : JournalEntry)
    : Type 0 where
  pub fresh : contains entry.id s.done_map ≡ false
  pub not_persisted : persisted entry.id ≡ false
  pub lines : LinesFit s.coa entry.journal_lines
  pub some_debit : debit_count entry.journal_lines % 2 ^ 32 ≢ 0
  pub some_credit : credit_count entry.journal_lines % 2 ^ 32 ≢ 0
  pub balanced : debits entry.journal_lines % 2 ^ 64 ≡ credits entry.journal_lines % 2 ^ 64

-- The totals hold reduced numbers and amounts of version 1.
abbrev pub Reduced : Totals → Type 0
Reduced t =
    (t.debit_cnt < 2 ^ 32)
    × (t.credit_cnt < 2 ^ 32)
    × (t.debit_sum.value < 2 ^ 64)
    × (t.credit_sum.value < 2 ^ 64)
    × (t.debit_sum.version ≡ 1)
    × (t.credit_sum.version ≡ 1)

abbrev pub Counts : Totals → Totals → ℕ → ℕ → Type 0
Counts t t' d c =
    (t'.debit_cnt % 2 ^ 32 ≡ (t.debit_cnt + d) % 2 ^ 32)
    × (t'.credit_cnt % 2 ^ 32 ≡ (t.credit_cnt + c) % 2 ^ 32)

pub check_line-Counts :
    (o : Option Account) (l : JournalLine) (t n : Totals)
    → check_line o l t ≡ done (totals n)
    → Reduced t
    → Reduced n × Counts t n (debit_count (l ∷ [])) (credit_count (l ∷ []))
unfolding check_line
check_line-Counts none l t n h r = cc
check_line-Counts (some a) l t n h r = ground arith

check_line_fits :
    (coa : Map ℕ Account) (l : JournalLine) (t n : Totals)
    → check_line (lookup l.nominal_code coa) l t ≡ done (totals n)
    → Reduced t
    → LineFits coa l
check_line_fits coa l t n h r = elim (Option-cases (lookup l.nominal_code coa)) [
  | inl e ↦ absurd (unfold check_line in ground arith)
  | inr (a, e) ↦ record {
    account = a;
    found = e;
    currency = unfold check_line in ground arith;
    typed = unfold check_line in ground arith;
    version = unfold check_line in ground arith;
  }
]

scan_lines-Counts :
    (coa : Map ℕ Account) (ls : List JournalLine) (t t' : Totals)
    → scan_lines coa ls t ≡ done (totals t')
    → Reduced t
    → Reduced t' × Counts t t' (debit_count ls) (credit_count ls) × LinesFit coa ls
unfolding scan_lines
scan_lines-Counts coa [] t t' h r = ground arith
scan_lines-Counts coa (l ∷ ls) t t' h r =
    let (n, first, rest) = scan_lines_inv coa l ls t t' h in
    let (rn, cn) = check_line-Counts (lookup l.nominal_code coa) l t n first r in
    let (rt, ct, fits) = scan_lines-Counts coa ls n t' rest rn in
    (rt, (omega arith, omega arith), (check_line_fits coa l t n first r, fits))

-- The totals after a line that fits.
abbrev pub counted : TransactionType → Amount → Totals → Totals
counted untyped x t = t
counted debit x t = record t {
  debit_cnt = (t.debit_cnt + 1) % 2 ^ 32;
  debit_sum = record t.debit_sum { value = add64 t.debit_sum.value x.value };
}
counted credit x t = record t {
  credit_cnt = (t.credit_cnt + 1) % 2 ^ 32;
  credit_sum = record t.credit_sum { value = add64 t.credit_sum.value x.value };
}

pub count_line_ok :
    (type : TransactionType) (x : Amount) (t : Totals)
    → type ≢ untyped
    → x.version ≡ 1
    → Reduced t
    → count_line type x t ≡ done (totals (counted type x t))
unfolding count_line
count_line_ok untyped x t h v r = absurd (h refl)
count_line_ok debit x t h v r = ground arith
count_line_ok credit x t h v r = ground arith

check_line_ok :
    (coa : Map ℕ Account) (l : JournalLine) (t : Totals)
    → LineFits coa l
    → Reduced t
    → check_line (lookup l.nominal_code coa) l t
      ≡ done (totals (counted l.transaction_type l.amount t))
unfolding check_line
check_line_ok coa l t f r =
    rw f.found
      (ground (arith, f.currency, count_line_ok l.transaction_type l.amount t f.typed f.version r))

scan_lines_ok :
    (coa : Map ℕ Account) (ls : List JournalLine) (t : Totals)
    → LinesFit coa ls
    → Reduced t
    → (t' : Totals) × (scan_lines coa ls t ≡ done (totals t'))
unfolding scan_lines
scan_lines_ok coa [] t f r = (t, refl)
scan_lines_ok coa (l ∷ ls) t f r =
    let n = counted l.transaction_type l.amount t in
    let first = check_line_ok coa l t f.0 r in
    let (t', rest) =
      scan_lines_ok coa ls n f.1 (check_line-Counts (lookup l.nominal_code coa) l t n first r).0 in
    (t', rw first rest)

conclude_accepts :
    (now : ℕ) (entry : JournalEntry) (t : Totals)
    → t.debit_cnt ≢ 0
    → t.credit_cnt ≢ 0
    → t.debit_sum.value ≡ t.credit_sum.value
    → Reduced t
    → conclude now entry (totals t) ≡ (success, journal_entry_recorded now entry ∷ [])
unfolding conclude
conclude_accepts now entry t d c b r = ground arith

conclude_accepted :
    (now : ℕ) (entry : JournalEntry) (scan : Scan) (hint : ProcessHint) (e : Event)
    (es : List Event)
    → conclude now entry scan ≡ (hint, e ∷ es)
    → (t : Totals) × (scan ≡ totals t)
      × (t.debit_cnt ≢ 0)
      × (t.credit_cnt ≢ 0)
      × (t.debit_sum.value ≡ t.credit_sum.value)
      × (hint ≡ success)
      × (e ∷ es ≡ journal_entry_recorded now entry ∷ [])
unfolding conclude
conclude_accepted now entry (reject r) hint e es h = absurd (ground arith)
conclude_accepted now entry (totals t) hint e es h =
    (t, refl, ground arith, ground arith, ground arith, ground arith, ground arith)

-- What an accepted entry went through.
pub accepted_inv :
    (persisted : String → Bool) (now : ℕ) (entry : JournalEntry) (s : AppState) (hint : ProcessHint)
    (e : Event) (es : List Event)
    → process_journal persisted now (some entry) s ≡ done (hint, e ∷ es)
    → (contains entry.id s.done_map ≡ false)
      × (persisted entry.id ≡ false)
      × ((scan : Scan) × (scan_lines s.coa entry.journal_lines no_totals ≡ done scan)
          × (conclude now entry scan ≡ (hint, e ∷ es)))
unfolding process_journal
accepted_inv persisted now entry s hint e es h = elim (Bool-cases (contains entry.id s.done_map)) [
  | inl old ↦ absurd (ground arith)
  | inr new ↦ elim (Bool-cases (persisted entry.id)) [
    | inl old ↦ absurd (ground arith)
    | inr unseen ↦
        let h' = rw (new, unseen) at h in
        let (scan, scanned, concluded) =
          >>=-eq-done (scan_lines s.coa entry.journal_lines no_totals) _ h' in
        (new, unseen, (scan, scanned, cc))
  ]
]

-- An entry that `process` accepts is acceptable, and gives success and the one event.
pub accept_sound :
    (persisted : String → Bool) (now : ℕ) (entry : JournalEntry) (s : AppState) (hint : ProcessHint)
    (e : Event) (es : List Event)
    → process_journal persisted now (some entry) s ≡ done (hint, e ∷ es)
    → Acceptable persisted s entry
      × (hint ≡ success)
      × (e ∷ es ≡ journal_entry_recorded now entry ∷ [])
accept_sound persisted now entry s hint e es h =
    let (new, unseen, (scan, scanned, concluded)) =
      accepted_inv persisted now entry s hint e es h in
    let (t, ended, d, c, b, same_hint, same_events) =
      conclude_accepted now entry scan hint e es concluded in
    let scanned' = rw ended at scanned in
    let (r, counts, fits) =
      scan_lines-Counts s.coa entry.journal_lines no_totals t scanned' (omega arith) in
    let sums = scan_lines-Sums s.coa entry.journal_lines no_totals t scanned' in
    (
      record {
        fresh = new;
        not_persisted = unseen;
        lines = fits;
        some_debit = omega arith;
        some_credit = omega arith;
        balanced = omega arith;
      },
      same_hint,
      same_events,
    )

-- `process` accepts every acceptable entry, with success and the one event.
pub accept_complete :
    (persisted : String → Bool) (now : ℕ) (entry : JournalEntry) (s : AppState)
    → Acceptable persisted s entry
    → process_journal persisted now (some entry) s
      ≡ done (success, journal_entry_recorded now entry ∷ [])
unfolding process_journal
accept_complete persisted now entry s a =
    let (t, scanned) = scan_lines_ok s.coa entry.journal_lines no_totals a.lines (omega arith) in
    let (r, c, _) = scan_lines-Counts s.coa entry.journal_lines no_totals t scanned (omega arith) in
    let sums = scan_lines-Sums s.coa entry.journal_lines no_totals t scanned in
    rw (a.fresh, a.not_persisted, scanned)
      (ap done (conclude_accepts now entry t (omega arith) (omega arith) (omega arith) r))
