-- ===== src/Ledger/Codec/Messages.antt =====
-- The messages that protobuf generates from the ledger's proto file, which is not in the repository:
-- each is an interface of what its getters read (`fields`) and of its setters, with the documented
-- behaviour that a setter changes its own field and no other.
use my_super_ledger.Prelude.{ℕ, String, List, [], ◌∷◌, ◌++◌, ◌≡◌}
use my_super_ledger.Ledger.Domain.Kind.{AccountType, TransactionType}

-- The numbers of an enumeration's constants, which are different.
pub record Codes (T : Type 0) : Type 0 where
  pub code : T → ℕ
  pub distinct : (a b : T) → code a ≡ code b → a ≡ b

-- protos::Amount and protos::Balance
pub record ValueFields : Type 0 where
  pub version : ℕ
  pub value : ℕ

pub record ValueMessage : Type 1 where
  pub Carrier : Type 0
  pub fields : Carrier → ValueFields
  pub set_version : ℕ → Carrier → Carrier
  pub set_value : ℕ → Carrier → Carrier
  pub on_version :
      (v : ℕ) (m : Carrier) → fields (set_version v m) ≡ record (fields m) { version = v }
  pub on_value : (v : ℕ) (m : Carrier) → fields (set_value v m) ≡ record (fields m) { value = v }

-- protos::Account
pub record AccountFields (B : Type 0) : Type 0 where
  pub version : ℕ
  pub type : ℕ
  pub balance : B
  pub nominal_code : ℕ
  pub name : String
  pub desc : String
  pub iso4217_currency_code : ℕ

pub record AccountMessage : Type 1 where
  pub types : Codes AccountType
  pub balances : ValueMessage
  pub Carrier : Type 0
  pub fields : Carrier → AccountFields balances.Carrier
  pub set_version : ℕ → Carrier → Carrier
  pub set_type : ℕ → Carrier → Carrier
  pub set_balance : balances.Carrier → Carrier → Carrier
  pub set_nominal_code : ℕ → Carrier → Carrier
  pub set_name : String → Carrier → Carrier
  pub set_desc : String → Carrier → Carrier
  pub set_currency : ℕ → Carrier → Carrier
  pub on_version :
      (v : ℕ) (m : Carrier) → fields (set_version v m) ≡ record (fields m) { version = v }
  pub on_type : (v : ℕ) (m : Carrier) → fields (set_type v m) ≡ record (fields m) { type = v }
  pub on_balance :
      (v : balances.Carrier) (m : Carrier)
      → fields (set_balance v m) ≡ record (fields m) { balance = v }
  pub on_nominal_code :
      (v : ℕ) (m : Carrier) → fields (set_nominal_code v m) ≡ record (fields m) { nominal_code = v }
  pub on_name : (v : String) (m : Carrier) → fields (set_name v m) ≡ record (fields m) { name = v }
  pub on_desc : (v : String) (m : Carrier) → fields (set_desc v m) ≡ record (fields m) { desc = v }
  pub on_currency :
      (v : ℕ) (m : Carrier)
      → fields (set_currency v m) ≡ record (fields m) { iso4217_currency_code = v }

-- protos::AccountMetadata
pub record MetadataFields : Type 0 where
  pub version : ℕ
  pub type : ℕ
  pub low_inclusive : ℕ
  pub high_inclusive : ℕ

pub record MetadataMessage : Type 1 where
  pub types : Codes AccountType
  pub Carrier : Type 0
  pub fields : Carrier → MetadataFields
  pub set_version : ℕ → Carrier → Carrier
  pub set_type : ℕ → Carrier → Carrier
  pub set_low : ℕ → Carrier → Carrier
  pub set_high : ℕ → Carrier → Carrier
  pub on_version :
      (v : ℕ) (m : Carrier) → fields (set_version v m) ≡ record (fields m) { version = v }
  pub on_type : (v : ℕ) (m : Carrier) → fields (set_type v m) ≡ record (fields m) { type = v }
  pub on_low :
      (v : ℕ) (m : Carrier) → fields (set_low v m) ≡ record (fields m) { low_inclusive = v }
  pub on_high :
      (v : ℕ) (m : Carrier) → fields (set_high v m) ≡ record (fields m) { high_inclusive = v }

-- protos::JournalLine
pub record LineFields (A : Type 0) : Type 0 where
  pub version : ℕ
  pub transaction_type : ℕ
  pub nominal_code : ℕ
  pub amount : A
  pub iso4217_currency_code : ℕ
  pub ref_data : String

pub record LineMessage : Type 1 where
  pub types : Codes TransactionType
  pub amounts : ValueMessage
  pub Carrier : Type 0
  pub fields : Carrier → LineFields amounts.Carrier
  pub set_version : ℕ → Carrier → Carrier
  pub set_type : ℕ → Carrier → Carrier
  pub set_nominal_code : ℕ → Carrier → Carrier
  pub set_amount : amounts.Carrier → Carrier → Carrier
  pub set_currency : ℕ → Carrier → Carrier
  pub set_ref_data : String → Carrier → Carrier
  pub on_version :
      (v : ℕ) (m : Carrier) → fields (set_version v m) ≡ record (fields m) { version = v }
  pub on_type :
      (v : ℕ) (m : Carrier) → fields (set_type v m) ≡ record (fields m) { transaction_type = v }
  pub on_nominal_code :
      (v : ℕ) (m : Carrier) → fields (set_nominal_code v m) ≡ record (fields m) { nominal_code = v }
  pub on_amount :
      (v : amounts.Carrier) (m : Carrier)
      → fields (set_amount v m) ≡ record (fields m) { amount = v }
  pub on_currency :
      (v : ℕ) (m : Carrier)
      → fields (set_currency v m) ≡ record (fields m) { iso4217_currency_code = v }
  pub on_ref_data :
      (v : String) (m : Carrier) → fields (set_ref_data v m) ≡ record (fields m) { ref_data = v }

-- protos::JournalEntry; `add_line` is `mutable_journal_lines()->Add()`, of which `new_line` is filled.
pub record EntryFields (L : Type 0) : Type 0 where
  pub version : ℕ
  pub id : String
  pub valid_time : ℕ
  pub record_time : ℕ
  pub purpose : String
  pub journal_lines : List L

pub record EntryMessage : Type 1 where
  pub lines : LineMessage
  pub Carrier : Type 0
  pub new_line : lines.Carrier
  pub fields : Carrier → EntryFields lines.Carrier
  pub set_version : ℕ → Carrier → Carrier
  pub set_id : String → Carrier → Carrier
  pub set_valid_time : ℕ → Carrier → Carrier
  pub set_record_time : ℕ → Carrier → Carrier
  pub set_purpose : String → Carrier → Carrier
  pub add_line : lines.Carrier → Carrier → Carrier
  pub on_version :
      (v : ℕ) (m : Carrier) → fields (set_version v m) ≡ record (fields m) { version = v }
  pub on_id : (v : String) (m : Carrier) → fields (set_id v m) ≡ record (fields m) { id = v }
  pub on_valid_time :
      (v : ℕ) (m : Carrier) → fields (set_valid_time v m) ≡ record (fields m) { valid_time = v }
  pub on_record_time :
      (v : ℕ) (m : Carrier) → fields (set_record_time v m) ≡ record (fields m) { record_time = v }
  pub on_purpose :
      (v : String) (m : Carrier) → fields (set_purpose v m) ≡ record (fields m) { purpose = v }
  pub on_line :
      (v : lines.Carrier) (m : Carrier)
      → fields (add_line v m)
        ≡ record (fields m) { journal_lines = (fields m).journal_lines ++ v ∷ [] }
