-- ===== src/Ledger/Domain/Kind.antt =====
-- AccountType.h and TransactionType.h. An enum is compared by its number.
use my_super_ledger.Prelude.{ℕ, ◌≡◌, ◌↔◌, true, Eq, arith, ◌==◌}

pub data AccountType : Type 0 where
  unknown asset liability capital income cost_of_goods_sold expense : AccountType

abbrev pub account_type_code : AccountType → ℕ
account_type_code unknown = 0
account_type_code asset = 1
account_type_code liability = 2
account_type_code capital = 3
account_type_code income = 4
account_type_code cost_of_goods_sold = 5
account_type_code expense = 6

pub account_type_code_injective :
    (a b : AccountType) → account_type_code a ≡ account_type_code b → a ≡ b
account_type_code_injective a b h = ground arith

pub account_type_iff :
    (a b : AccountType) → (account_type_code a == account_type_code b ≡ true) ↔ (a ≡ b)
account_type_iff a b = (λ h. account_type_code_injective a b (ground arith), λ h. ground arith)

instance abbrev pub account_type_eq : Eq AccountType
account_type_eq = record {
  beq = λ a b. account_type_code a == account_type_code b;
  beq_iff = account_type_iff;
}

pub data TransactionType : Type 0 where
  untyped debit credit : TransactionType

abbrev pub transaction_type_code : TransactionType → ℕ
transaction_type_code untyped = 0
transaction_type_code debit = 1
transaction_type_code credit = 2
