-- ===== src/Ledger/Machine/Defs.antt =====
-- The state, the commands, the events and the handlers of v2::AppStateMachine. What RocksDB holds
-- for a journal entry's id is the argument `persisted`; `now` is the reading of the clock.
use my_super_ledger.Prelude.{
  ℕ, String, Bool, true, false, Option, none, some, List, [], ◌∷◌, Outcome, done, abort, ◌>>=◌,
  ◌>>◌, assert, expect, nat_eq, string_eq, Map, lookup, contains, insert, ltb, ◌==◌, ◌||◌, ◌+◌, ◌%◌,
  ◌^◌, not, if◌then◌else◌,
}
use my_super_ledger.Ledger.Domain.Kind.{
  AccountType, account_type_code, account_type_eq, TransactionType, untyped, debit, credit,
}
use my_super_ledger.Ledger.Domain.Money.{Amount, no_amount, add_amount, amount_eq}
use my_super_ledger.Ledger.Domain.Account.{Account, AccountMetadata, apply_credit, apply_debit}
use my_super_ledger.Ledger.Domain.Journal.{JournalLine, JournalEntry}

-- A message is a text, or a format string with its arguments.
pub data Message : Type 0 where
  text : String → Message
  format : String → List ℕ → Message

pub record ProcessHint : Type 0 where
  pub code : ℕ
  pub message : Message

abbrev pub success : ProcessHint
success = record { code = 200; message = text "Success" }

pub data Event : Type 0 where
  account_metadata_configured : ℕ → AccountMetadata → Event
  account_created : ℕ → Account → Event
  journal_entry_recorded : ℕ → JournalEntry → Event

-- A command holds what its constructor decoded from the request, if the request was valid.
pub data Command : Type 0 where
  configure_account_metadata : Option AccountMetadata → Command
  create_account : Option Account → Command
  record_journal_entry : Option JournalEntry → Command

pub record AppState : Type 0 where
  pub done_map : Map String ℕ
  pub coa : Map ℕ Account
  pub account_metadata : Map AccountType AccountMetadata

abbrev pub Processed : Type 0
Processed = ProcessHint × List Event

-- Rule 1's loop of `process(ConfigureAccountMetadataCommand)`.
unfoldable pub range_overlaps : AccountMetadata → Map AccountType AccountMetadata → Bool
range_overlaps new [] = false
range_overlaps new ((type, metadata) ∷ rest) =
    let others = range_overlaps new rest in
    if account_type_code new.account_type == account_type_code type
    then others
    else if not (
        ltb metadata.high_inclusive new.low_inclusive
        || ltb new.high_inclusive metadata.low_inclusive)
    then true
    else others

-- Rule 2's loop.
unfoldable pub uncovered_account : AccountMetadata → Map ℕ Account → Bool
uncovered_account new [] = false
uncovered_account new ((nominal_code, account) ∷ rest) =
    let others = uncovered_account new rest in
    if not (account_type_code new.account_type == account_type_code account.account_type)
    then others
    else if ltb nominal_code new.low_inclusive || ltb new.high_inclusive nominal_code
    then true
    else others

unfoldable pub process_configure : ℕ → Option AccountMetadata → AppState → Processed
unfolding range_overlaps uncovered_account
process_configure now none s = (success, [])
process_configure now (some metadata) s =
    if range_overlaps metadata s.account_metadata
    then (record { code = 1001; message = text "range overlaps with other account metadata" }, [])
    else if uncovered_account metadata s.coa
    then (
      record {
        code = 1002;
        message = text "new range cannot cover existing account's nominal code";
      },
      [],
    )
    else (success, account_metadata_configured now metadata ∷ [])

unfoldable pub process_create : ℕ → Option Account → AppState → Processed
process_create now none s =
    (record { code = 400; message = text "Invalid command as no account passed" }, [])
process_create now (some account) s =
    if contains account.nominal_code s.coa
    then (record { code = 1000; message = text "Account already exists" }, [])
    else (success, account_created now account ∷ [])

-- The counters and sums of the loop over the journal lines; the counters are `uint32_t`.
pub record Totals : Type 0 where
  pub debit_cnt : ℕ
  pub credit_cnt : ℕ
  pub debit_sum : Amount
  pub credit_sum : Amount

abbrev pub no_totals : Totals
no_totals = record { debit_cnt = 0; credit_cnt = 0; debit_sum = no_amount; credit_sum = no_amount }

-- The loop returns a hint from its middle, or ends with its totals.
pub data Scan : Type 0 where
  reject : ProcessHint → Scan
  totals : Totals → Scan

unfoldable pub count_line : TransactionType → Amount → Totals → Outcome Scan
unfolding add_amount
count_line untyped x t = done (
    reject (record {
      code = 1008;
      message = format "transaction type should be either debit or credit" [];
    }))
count_line debit x t = do
  sum ← add_amount t.debit_sum x
  done (totals (record t { debit_cnt = (t.debit_cnt + 1) % 2 ^ 32; debit_sum = sum }))
count_line credit x t = do
  sum ← add_amount t.credit_sum x
  done (totals (record t { credit_cnt = (t.credit_cnt + 1) % 2 ^ 32; credit_sum = sum }))

-- The body of the loop, at the account that `mCoA.find` gives.
unfoldable pub check_line : Option Account → JournalLine → Totals → Outcome Scan
unfolding count_line
check_line none line t = done (
    reject (record {
      code = 1004;
      message = format "account %u does not exist" (line.nominal_code ∷ []);
    }))
check_line (some account) line t =
    if not (account.iso4217_currency_code == line.iso4217_currency_code)
    then done (
        reject (record {
          code = 1009;
          message =
              format
                "the iso-4217 currency code: %u in journal line doesn't match the code in account: %u"
                (line.iso4217_currency_code ∷ account.iso4217_currency_code ∷ []);
        }))
    else count_line line.transaction_type line.amount t

unfoldable pub scan_lines : Map ℕ Account → List JournalLine → Totals → Outcome Scan
unfolding check_line lookup
scan_lines coa [] t = done (totals t)
scan_lines coa (line ∷ rest) t = do
  r ← check_line (lookup line.nominal_code coa) line t
  elim r [ reject hint ↦ done (reject hint) | totals t' ↦ scan_lines coa rest t' ]

-- The checks after the loop.
unfoldable pub conclude : ℕ → JournalEntry → Scan → Processed
unfolding amount_eq
conclude now entry (reject hint) = (hint, [])
conclude now entry (totals t) =
    if t.debit_cnt == 0
    then (record { code = 1005; message = format "no debit in journal entry" [] }, [])
    else if t.credit_cnt == 0
    then (record { code = 1006; message = format "no credit in journal entry" [] }, [])
    else if not (amount_eq t.debit_sum t.credit_sum)
    then (record { code = 1007; message = format "credit amount not equal to debit amount" [] }, [])
    else (success, journal_entry_recorded now entry ∷ [])

-- `process(RecordJournalEntryCommand)`; it asserts that the command holds an entry.
unfoldable pub process_journal :
    (String → Bool) → ℕ → Option JournalEntry → AppState → Outcome Processed
unfolding scan_lines conclude
process_journal persisted now none s = abort
process_journal persisted now (some entry) s =
    if contains entry.id s.done_map || persisted entry.id
    then done
        (record { code = 1003; message = text "journal entry has already been processed" }, [])
    else do scan ← scan_lines s.coa entry.journal_lines no_totals; done (conclude now entry scan)

-- `processCommand`: the registered processor of the command's type.
unfoldable pub process_command : (String → Bool) → ℕ → Command → AppState → Outcome Processed
unfolding process_configure process_create process_journal
process_command persisted now (configure_account_metadata m) s = done (process_configure now m s)
process_command persisted now (create_account a) s = done (process_create now a s)
process_command persisted now (record_journal_entry e) s = process_journal persisted now e s

-- The body of the loop over the lines in `apply(JournalEntryRecordedEvent)`.
unfoldable pub apply_typed : TransactionType → Account → Amount → Outcome Account
unfolding apply_debit apply_credit
apply_typed untyped account x = abort
apply_typed debit account x = apply_debit account x
apply_typed credit account x = apply_credit account x

unfoldable pub apply_line : JournalLine → Map ℕ Account → Outcome (Map ℕ Account)
unfolding apply_typed lookup insert
apply_line line coa = do
  account ← expect (lookup line.nominal_code coa)
  account' ← apply_typed line.transaction_type account line.amount
  done (insert line.nominal_code account' coa)

unfoldable pub apply_lines : List JournalLine → Map ℕ Account → Outcome (Map ℕ Account)
unfolding apply_line
apply_lines [] coa = done coa
apply_lines (line ∷ rest) coa = apply_line line coa >>= apply_lines rest

unfoldable pub apply_journal : JournalEntry → AppState → Outcome AppState
unfolding apply_lines
apply_journal entry s = do
  assert (not (contains entry.id s.done_map))
  coa ← apply_lines entry.journal_lines s.coa
  done (record s { done_map = insert entry.id entry.valid_time s.done_map; coa = coa })

unfoldable pub apply_created : Account → AppState → Outcome AppState
apply_created account s = do
  assert (not (contains account.nominal_code s.coa))
  done (record s { coa = insert account.nominal_code account s.coa })

unfoldable pub apply_configured : AccountMetadata → AppState → AppState
apply_configured metadata s = record s {
  account_metadata = insert metadata.account_type metadata s.account_metadata;
}

-- `applyEvent`: the registered applier of the event's type.
unfoldable pub apply_event : Event → AppState → Outcome AppState
unfolding apply_configured apply_created apply_journal
apply_event (account_metadata_configured _ m) s = done (apply_configured m s)
apply_event (account_created _ a) s = apply_created a s
apply_event (journal_entry_recorded _ e) s = apply_journal e s

unfoldable pub apply_events : List Event → AppState → Outcome AppState
unfolding apply_event
apply_events [] s = done s
apply_events (e ∷ es) s = apply_event e s >>= apply_events es

-- `processCommandAndApply`, with the state that it leaves.
unfoldable pub process_and_apply :
    (String → Bool) → ℕ → Command → AppState → Outcome (ProcessHint × List Event × AppState)
unfolding process_command apply_events
process_and_apply persisted now command s = do
  processed ← process_command persisted now command s
  s' ← apply_events processed.1 s
  done (processed.0, processed.1, s')

unfoldable pub clear_state : AppState → AppState
clear_state s = record { done_map = []; coa = []; account_metadata = [] }
