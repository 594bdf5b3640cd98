-- ===== src/Ledger/Codec/Samples.antt =====
-- Messages that are their fields, for the tests.
use my_super_ledger.Prelude.{ℕ, [], ◌∷◌, ◌++◌, ◌≡◌, refl, arith}
use my_super_ledger.Ledger.Domain.Kind.{
  AccountType, account_type_code, account_type_code_injective, TransactionType,
  transaction_type_code,
}
use my_super_ledger.Ledger.Codec.Messages.{
  Codes, ValueMessage, AccountMessage, MetadataMessage, LineMessage, EntryMessage, ValueFields,
  AccountFields, MetadataFields, LineFields, EntryFields,
}
use my_super_ledger.Ledger.Codec.Commands.{EventMessage}

abbrev account_codes : Codes AccountType
account_codes = record { code = account_type_code; distinct = account_type_code_injective }

abbrev values : ValueMessage
values = record {
  Carrier = ValueFields;
  fields = λ m. m;
  set_version = λ v m. record m { version = v };
  set_value = λ v m. record m { value = v };
  on_version = λ v m. refl;
  on_value = λ v m. refl;
}

abbrev pub accounts : AccountMessage
accounts = record {
  types = account_codes;
  balances = values;
  Carrier = AccountFields ValueFields;
  fields = λ m. m;
  set_version = λ v m. record m { version = v };
  set_type = λ v m. record m { type = v };
  set_balance = λ v m. record m { balance = v };
  set_nominal_code = λ v m. record m { nominal_code = v };
  set_name = λ v m. record m { name = v };
  set_desc = λ v m. record m { desc = v };
  set_currency = λ v m. record m { iso4217_currency_code = v };
  on_version = λ v m. refl;
  on_type = λ v m. refl;
  on_balance = λ v m. refl;
  on_nominal_code = λ v m. refl;
  on_name = λ v m. refl;
  on_desc = λ v m. refl;
  on_currency = λ v m. refl;
}

abbrev pub metadata : MetadataMessage
metadata = record {
  types = account_codes;
  Carrier = MetadataFields;
  fields = λ m. m;
  set_version = λ v m. record m { version = v };
  set_type = λ v m. record m { type = v };
  set_low = λ v m. record m { low_inclusive = v };
  set_high = λ v m. record m { high_inclusive = v };
  on_version = λ v m. refl;
  on_type = λ v m. refl;
  on_low = λ v m. refl;
  on_high = λ v m. refl;
}

pub transaction_codes_distinct :
    (a b : TransactionType) → transaction_type_code a ≡ transaction_type_code b → a ≡ b
transaction_codes_distinct a b h = ground arith

abbrev lines : LineMessage
lines = record {
  types = record { code = transaction_type_code; distinct = transaction_codes_distinct };
  amounts = values;
  Carrier = LineFields ValueFields;
  fields = λ m. m;
  set_version = λ v m. record m { version = v };
  set_type = λ v m. record m { transaction_type = v };
  set_nominal_code = λ v m. record m { nominal_code = v };
  set_amount = λ v m. record m { amount = v };
  set_currency = λ v m. record m { iso4217_currency_code = v };
  set_ref_data = λ v m. record m { ref_data = v };
  on_version = λ v m. refl;
  on_type = λ v m. refl;
  on_nominal_code = λ v m. refl;
  on_amount = λ v m. refl;
  on_currency = λ v m. refl;
  on_ref_data = λ v m. refl;
}

abbrev pub no_value : ValueFields
no_value = record { version = 0; value = 0 }

abbrev pub entries : EntryMessage
entries = record {
  lines = lines;
  Carrier = EntryFields (LineFields ValueFields);
  new_line = record {
    version = 0;
    transaction_type = 0;
    nominal_code = 0;
    amount = no_value;
    iso4217_currency_code = 0;
    ref_data = "";
  };
  fields = λ m. m;
  set_version = λ v m. record m { version = v };
  set_id = λ v m. record m { id = v };
  set_valid_time = λ v m. record m { valid_time = v };
  set_record_time = λ v m. record m { record_time = v };
  set_purpose = λ v m. record m { purpose = v };
  add_line = λ l m. record m { journal_lines = m.journal_lines ++ l ∷ [] };
  on_version = λ v m. refl;
  on_id = λ v m. refl;
  on_valid_time = λ v m. refl;
  on_record_time = λ v m. refl;
  on_purpose = λ v m. refl;
  on_line = λ l m. refl;
}

-- An event's message is a version and a payload, and its own serialization.
abbrev pub events : (P : Type 0) → P → EventMessage P
events P p = record {
  Carrier = ℕ × P;
  Bytes = ℕ × P;
  fresh = (0, p);
  version = λ m. m.0;
  payload = λ m. m.1;
  set_version = λ v m. (v, m.1);
  set_payload = λ q m. (m.0, q);
  serialize = λ m. m;
  parse = λ m. m;
  version-set_version = λ v m. refl;
  payload-set_version = λ v m. refl;
  version-set_payload = λ q m. refl;
  payload-set_payload = λ q m. refl;
  version-parse = λ m. refl;
  payload-parse = λ m. refl;
}
