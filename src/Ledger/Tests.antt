-- ===== src/Ledger/Tests.antt =====
-- The ledger at a small shop: a sale of 5 is recorded as a debit of cash and a credit of sales.
use my_super_ledger.Prelude.{
  ◌+◌, ◌%◌, ◌^◌, String, Bool, false, some, List, [], ◌∷◌, ◌≡◌, refl, done, lookup, contains,
  insert, arith,
}
use my_super_ledger.Ledger.Domain.Kind.{asset, income, debit, credit}
use my_super_ledger.Ledger.Domain.Money.{raise_balance}
use my_super_ledger.Ledger.Domain.Account.{Account, AccountMetadata}
use my_super_ledger.Ledger.Domain.Journal.{JournalEntry}
use my_super_ledger.Ledger.Machine.Defs.{
  AppState, Event, ProcessHint, success, configure_account_metadata, create_account,
  record_journal_entry, account_metadata_configured, account_created, journal_entry_recorded,
  process_journal, process_and_apply, apply_events,
}
use my_super_ledger.Ledger.Machine.Accept.{Acceptable, accept_sound, accept_complete}
use my_super_ledger.Ledger.Machine.Total.{IsValid, machine_total}
use my_super_ledger.Ledger.Machine.Trial.{debit_side, credit_side}
use my_super_ledger.Ledger.Machine.Conserve.{Balanced, journal_conserves, command_Balanced}
use my_super_ledger.Ledger.Machine.Ranges.{RangesApart, command-RangesApart}
use my_super_ledger.Ledger.Machine.Cover.{Covered, configured-Covered, created_uncovered}
use my_super_ledger.Ledger.Loop.Defs.{LoopState, process_all}
use my_super_ledger.Ledger.Loop.Replay.{stored_events, replay_rebuilds}
use my_super_ledger.Ledger.Loop.Runs.{run-Balanced, recorded_once, already_processed}

abbrev cash : Account
cash = record {
  version = 1;
  account_type = asset;
  nominal_code = 1000;
  name = "cash";
  desc = "";
  iso4217_currency_code = 840;
  balance = record { version = 1; value = 0 };
}

abbrev sales : Account
sales = record {
  version = 1;
  account_type = income;
  nominal_code = 4000;
  name = "sales";
  desc = "";
  iso4217_currency_code = 840;
  balance = record { version = 1; value = 0 };
}

abbrev empty : AppState
empty = record { done_map = []; coa = []; account_metadata = [] }

abbrev shop : AppState
shop = record { done_map = []; coa = (1000, cash) ∷ (4000, sales) ∷ []; account_metadata = [] }

abbrev coffee : JournalEntry
coffee = record {
  version = 1;
  id = "sale-1";
  valid_time = 3;
  record_time = 4;
  journal_lines =
      record {
        version = 1;
        nominal_code = 1000;
        transaction_type = debit;
        amount = record { version = 1; value = 5 };
        iso4217_currency_code = 840;
        ref_data = "";
      }
      ∷ record {
        version = 1;
        nominal_code = 4000;
        transaction_type = credit;
        amount = record { version = 1; value = 5 };
        iso4217_currency_code = 840;
        ref_data = "";
      }
      ∷ [];
  purpose = "";
}

abbrev nothing_persisted : String → Bool
nothing_persisted _ = false

-- The shop after the sale.
abbrev sold : AppState
sold = record {
  done_map = ("sale-1", 3) ∷ [];
  coa =
      (1000, record cash { balance = record { version = 1; value = 5 } })
      ∷ (4000, record sales { balance = record { version = 1; value = 5 } })
      ∷ [];
  account_metadata = [];
}

abbrev recorded : List Event
recorded = journal_entry_recorded 7 coffee ∷ []

sale_accepted :
    process_and_apply nothing_persisted 7 (record_journal_entry (some coffee)) shop
    ≡ done (success, recorded, sold)
unfolding process_and_apply contains lookup insert raise_balance
sale_accepted = refl

sale_processed : process_journal nothing_persisted 7 (some coffee) shop ≡ done (success, recorded)
unfolding process_journal contains lookup insert
sale_processed = refl

coffee-Acceptable : Acceptable nothing_persisted shop coffee
coffee-Acceptable =
    (accept_sound nothing_persisted 7 coffee shop success (journal_entry_recorded 7 coffee) []
      sale_processed).0

accept_sound_example :
    Acceptable nothing_persisted shop coffee
    × (success ≡ success)
    × (recorded ≡ journal_entry_recorded 7 coffee ∷ [])
accept_sound_example =
    accept_sound nothing_persisted 7 coffee shop success (journal_entry_recorded 7 coffee) []
      sale_processed

accept_complete_example :
    process_journal nothing_persisted 7 (some coffee) shop ≡ done (success, recorded)
accept_complete_example = accept_complete nothing_persisted 7 coffee shop coffee-Acceptable

empty-IsValid : IsValid empty
unfolding lookup
empty-IsValid = record { known = λ k a found. absurd (ground arith) }

machine_total_example :
    (hint : ProcessHint) × (es : List Event) × (s' : AppState) × (process_and_apply
        nothing_persisted 7
        (create_account (some cash))
        empty
      ≡ done (hint, es, s'))
    × IsValid s'
unfolding lookup
machine_total_example =
    machine_total nothing_persisted 7 (create_account (some cash)) empty empty-IsValid
      (λ e. ground arith)

journal_conserves_example :
    (debit_side sold.coa + credit_side shop.coa) % 2 ^ 64
    ≡ (debit_side shop.coa + credit_side sold.coa) % 2 ^ 64
journal_conserves_example =
    journal_conserves nothing_persisted 7 coffee shop success recorded sold sale_accepted

command_Balanced_example : Balanced sold
command_Balanced_example =
    command_Balanced nothing_persisted 7 (record_journal_entry (some coffee)) shop success recorded
      sold tt refl sale_accepted

abbrev assets : AccountMetadata
assets = record { version = 1; account_type = asset; low_inclusive = 1000; high_inclusive = 1999 }

abbrev ranged : AppState
ranged = record { done_map = []; coa = []; account_metadata = (asset, assets) ∷ [] }

range_accepted :
    process_and_apply nothing_persisted 7 (configure_account_metadata (some assets)) empty
    ≡ done (success, account_metadata_configured 7 assets ∷ [], ranged)
unfolding process_and_apply contains lookup insert
range_accepted = refl

empty-RangesApart : RangesApart []
unfolding lookup
empty-RangesApart = record {
  keyed = λ t a found. absurd (ground arith);
  apart = λ t u a b differ found found'. absurd (ground arith);
}

command-RangesApart_example : RangesApart ranged.account_metadata
command-RangesApart_example =
    command-RangesApart nothing_persisted 7 (configure_account_metadata (some assets)) empty success
      (account_metadata_configured 7 assets ∷ []) ranged empty-RangesApart range_accepted

empty-Covered : Covered empty
unfolding lookup
empty-Covered = λ k a m found range. absurd (ground arith)

configured-Covered_example : Covered ranged
configured-Covered_example =
    configured-Covered nothing_persisted 7 assets empty success
      (account_metadata_configured 7 assets ∷ []) ranged empty-Covered range_accepted

abbrev petty : Account
petty = record cash { nominal_code = 10 }

created_uncovered_example :
    (s' : AppState) × (process_and_apply nothing_persisted 7 (create_account (some petty)) ranged
      ≡ done (success, account_created 7 petty ∷ [], s'))
    × ¬ Covered s'
unfolding contains lookup
created_uncovered_example =
    created_uncovered nothing_persisted 7 petty assets ranged refl refl (omega arith)

-- The loop at the shop before and after the sale.
abbrev opened : LoopState
opened = record { last_command_id = 0; app = shop; store = [] }

abbrev closed : LoopState
closed = record {
  last_command_id = 1;
  app = sold;
  store =
      record {
        id = 1;
        command = record_journal_entry (some coffee);
        events = recorded;
        hint = success;
      }
      ∷ [];
}

sale_run :
    process_all nothing_persisted ((7, record_journal_entry (some coffee)) ∷ []) opened
    ≡ done closed
unfolding process_all contains lookup insert raise_balance
sale_run = refl

replay_rebuilds_example : apply_events (stored_events closed.store) shop ≡ done closed.app
unfolding apply_events
replay_rebuilds_example =
    replay_rebuilds shop nothing_persisted ((7, record_journal_entry (some coffee)) ∷ []) opened
      closed refl sale_run

abbrev start : LoopState
start = record { last_command_id = 0; app = empty; store = [] }

run-Balanced_example :
    (st' : LoopState) × (process_all nothing_persisted ((7, create_account (some cash)) ∷ []) start
      ≡ done st')
    × IsValid st'.app
    × Balanced st'.app
run-Balanced_example =
    run-Balanced nothing_persisted ((7, create_account (some cash)) ∷ []) start empty-IsValid refl
      ((λ e. ground arith), tt) (refl, tt)

recorded_once_example :
    process_and_apply nothing_persisted 9 (record_journal_entry (some coffee)) sold
    ≡ done (already_processed, [], sold)
unfolding process_all
recorded_once_example =
    recorded_once nothing_persisted 7 coffee shop success (journal_entry_recorded 7 coffee) [] []
      closed closed 9 coffee sale_accepted refl refl
