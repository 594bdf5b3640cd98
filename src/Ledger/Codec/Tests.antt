-- ===== src/Ledger/Codec/Tests.antt =====
-- Accounts, entries and ranges written and read back.
use my_super_ledger.Prelude.{ℕ, some, [], done, ◌≡◌, refl}
use my_super_ledger.Ledger.Domain.Kind.{asset}
use my_super_ledger.Ledger.Domain.Account.{Account, AccountMetadata}
use my_super_ledger.Ledger.Domain.Journal.{JournalEntry}
use my_super_ledger.Ledger.Machine.Defs.{configure_account_metadata, create_account}
use my_super_ledger.Ledger.Machine.Total.{WellFormed}
use my_super_ledger.Ledger.Codec.Messages.{
  ValueFields, AccountFields, MetadataFields, LineFields, EntryFields,
}
use my_super_ledger.Ledger.Codec.Defs.{
  account_init, account_encode, metadata_init, metadata_encode, entry_init, entry_encode,
  account_type_of, balance_init, balance_encode, lines_encode,
}
use my_super_ledger.Ledger.Codec.RoundTrip.{account_round}
use my_super_ledger.Ledger.Codec.Commands.{
  event_encode, event_decode, create_command, configure_command,
}
use my_super_ledger.Ledger.Codec.Requests.{
  create_command-WellFormed, created_event_round, recorded_event_loses_id,
}
use my_super_ledger.Ledger.Codec.Samples.{accounts, metadata, no_value, entries, events}

abbrev blank_account : AccountFields ValueFields
blank_account = record {
  version = 0;
  type = 0;
  balance = no_value;
  nominal_code = 0;
  name = "";
  desc = "";
  iso4217_currency_code = 0;
}

abbrev cash_account : Account
cash_account = record {
  version = 1;
  account_type = asset;
  nominal_code = 1000;
  name = "cash";
  desc = "";
  iso4217_currency_code = 840;
  balance = record { version = 1; value = 7 };
}

abbrev cash_fields : ℕ → AccountFields ValueFields
cash_fields type = record {
  version = 1;
  type = type;
  balance = record { version = 1; value = 7 };
  nominal_code = 1000;
  name = "cash";
  desc = "";
  iso4217_currency_code = 840;
}

cash_written : account_encode accounts cash_account blank_account ≡ done (cash_fields 1)
unfolding account_encode balance_encode
cash_written = refl

account_round_example : account_init accounts (cash_fields 1) ≡ done cash_account
account_round_example =
    account_round accounts cash_account blank_account (cash_fields 1) cash_written

cash_event :
    event_encode
      (events (AccountFields ValueFields) blank_account)
      (account_encode accounts)
      1
      cash_account
    ≡ done (1, cash_fields 1)
unfolding event_encode account_encode balance_encode
cash_event = refl

created_event_round_example :
    event_decode
      (events (AccountFields ValueFields) blank_account)
      (account_init accounts)
      (1, cash_fields 1)
    ≡ done cash_account
created_event_round_example =
    created_event_round accounts (events (AccountFields ValueFields) blank_account) cash_account
      (1, cash_fields 1) cash_event

abbrev blank_entry : EntryFields (LineFields ValueFields)
blank_entry = record {
  version = 0;
  id = "";
  valid_time = 0;
  record_time = 0;
  purpose = "";
  journal_lines = [];
}

abbrev rent : JournalEntry
rent = record {
  version = 1;
  id = "rent";
  valid_time = 3;
  record_time = 4;
  journal_lines = [];
  purpose = "";
}

abbrev rent_fields : EntryFields (LineFields ValueFields)
rent_fields = record {
  version = 1;
  id = "";
  valid_time = 3;
  record_time = 4;
  purpose = "";
  journal_lines = [];
}

rent_event :
    event_encode
      (events (EntryFields (LineFields ValueFields)) blank_entry)
      (entry_encode entries)
      1
      rent
    ≡ done (1, rent_fields)
unfolding event_encode entry_encode lines_encode
rent_event = refl

recorded_event_loses_id_example :
    event_decode
      (events (EntryFields (LineFields ValueFields)) blank_entry)
      (entry_init entries)
      (1, rent_fields)
    ≡ done (record rent { id = "" })
recorded_event_loses_id_example =
    recorded_event_loses_id entries (events (EntryFields (LineFields ValueFields)) blank_entry) rent
      (1, rent_fields) refl refl rent_event

cash_command : create_command accounts (cash_fields 1) ≡ done (create_account (some cash_account))
unfolding create_command account_init balance_init account_type_of
cash_command = refl

create_command-WellFormed_example : WellFormed (create_account (some cash_account))
create_command-WellFormed_example =
    create_command-WellFormed accounts (cash_fields 1) asset (create_account (some cash_account))
      refl cash_command

abbrev asset_range : AccountMetadata
asset_range = record {
  version = 1;
  account_type = asset;
  low_inclusive = 1000;
  high_inclusive = 1999;
}

range_command :
    configure_command metadata
      (record { version = 1; type = 1; low_inclusive = 1000; high_inclusive = 1999 })
    ≡ done (configure_account_metadata (some asset_range))
unfolding configure_command metadata_init account_type_of
range_command = refl

range_event :
    event_encode
      (events MetadataFields
        (record { version = 0; type = 0; low_inclusive = 0; high_inclusive = 0 }))
      (metadata_encode metadata)
      1
      asset_range
    ≡ done (1, record { version = 1; type = 1; low_inclusive = 1000; high_inclusive = 1999 })
unfolding event_encode metadata_encode
range_event = refl
