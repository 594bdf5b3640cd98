-- ===== src/Ledger/Domain/Account.antt =====
-- Account.h and AccountMetadata.h.
use text.Mathlib.Text.{◌==◌ as str_eq}
use my_super_ledger.Prelude.{
  ℕ, String, Bool, false, Outcome, done, abort, ◌>>=◌, ◌==◌, ◌&&◌, not, if◌then◌else◌,
}
use my_super_ledger.Ledger.Domain.Kind.{
  AccountType, account_type_code, unknown, asset, liability, capital, income, cost_of_goods_sold,
  expense,
}
use my_super_ledger.Ledger.Domain.Money.{
  Amount, Balance, raise_balance, lower_balance, balance_is_same,
}

pub record Account : Type 0 where
  pub version : ℕ
  pub account_type : AccountType
  pub nominal_code : ℕ
  pub name : String
  pub desc : String
  pub iso4217_currency_code : ℕ
  pub balance : Balance

-- The switch of `applyCredit`.
unfoldable pub credit_balance : AccountType → Balance → Amount → Outcome Balance
credit_balance asset b x = done (lower_balance b x)
credit_balance capital b x = done (lower_balance b x)
credit_balance cost_of_goods_sold b x = done (lower_balance b x)
credit_balance expense b x = done (lower_balance b x)
credit_balance income b x = done (raise_balance b x)
credit_balance liability b x = done (raise_balance b x)
credit_balance unknown b x = abort

-- The switch of `applyDebit`.
unfoldable pub debit_balance : AccountType → Balance → Amount → Outcome Balance
debit_balance asset b x = done (raise_balance b x)
debit_balance capital b x = done (raise_balance b x)
debit_balance cost_of_goods_sold b x = done (raise_balance b x)
debit_balance expense b x = done (raise_balance b x)
debit_balance income b x = done (lower_balance b x)
debit_balance liability b x = done (lower_balance b x)
debit_balance unknown b x = abort

unfoldable pub apply_credit : Account → Amount → Outcome Account
unfolding credit_balance
apply_credit a x = do b ← credit_balance a.account_type a.balance x; done (record a { balance = b })

unfoldable pub apply_debit : Account → Amount → Outcome Account
unfolding debit_balance
apply_debit a x = do b ← debit_balance a.account_type a.balance x; done (record a { balance = b })

unfoldable pub account_is_same : Account → Account → Bool
unfolding balance_is_same
account_is_same a b =
    if not (a.version == b.version)
    then false
    else if a.version == 1
    then account_type_code a.account_type == account_type_code b.account_type
      && balance_is_same a.balance b.balance
      && a.nominal_code == b.nominal_code
      && str_eq a.name b.name
      && str_eq a.desc b.desc
      && a.iso4217_currency_code == b.iso4217_currency_code
    else false

pub record AccountMetadata : Type 0 where
  pub version : ℕ
  pub account_type : AccountType
  pub low_inclusive : ℕ
  pub high_inclusive : ℕ

unfoldable pub metadata_is_same : AccountMetadata → AccountMetadata → Bool
metadata_is_same a b =
    if not (a.version == b.version)
    then false
    else if a.version == 1
    then account_type_code a.account_type == account_type_code b.account_type
      && a.low_inclusive == b.low_inclusive
      && a.high_inclusive == b.high_inclusive
    else false
