-- ===== src/Ledger/Domain/Journal.antt =====
-- JournalLine.h and JournalEntry.h.
use text.Mathlib.Text.{◌==◌ as str_eq}
use my_super_ledger.Prelude.{
  ℕ, String, Bool, true, false, List, [], ◌∷◌, length, ◌==◌, ◌&&◌, not, if◌then◌else◌,
}
use my_super_ledger.Ledger.Domain.Kind.{TransactionType, transaction_type_code}
use my_super_ledger.Ledger.Domain.Money.{Amount, amount_is_same}

pub record JournalLine : Type 0 where
  pub version : ℕ
  pub nominal_code : ℕ
  pub transaction_type : TransactionType
  pub amount : Amount
  pub iso4217_currency_code : ℕ
  pub ref_data : String

unfoldable pub line_is_same : JournalLine → JournalLine → Bool
unfolding amount_is_same
line_is_same a b =
    if not (a.version == b.version)
    then false
    else if a.version == 1
    then a.nominal_code == b.nominal_code
      && transaction_type_code a.transaction_type == transaction_type_code b.transaction_type
      && amount_is_same a.amount b.amount
      && a.iso4217_currency_code == b.iso4217_currency_code
      && str_eq a.ref_data b.ref_data
    else false

pub record JournalEntry : Type 0 where
  pub version : ℕ
  pub id : String
  pub valid_time : ℕ
  pub record_time : ℕ
  pub journal_lines : List JournalLine
  pub purpose : String

-- The loop of `isSame`, over lists that have one length.
unfoldable pub lines_are_same : List JournalLine → List JournalLine → Bool
unfolding line_is_same
lines_are_same [] bs = true
lines_are_same (a ∷ as') [] = true
lines_are_same (a ∷ as') (b ∷ bs) = line_is_same a b && lines_are_same as' bs

unfoldable pub entry_is_same : JournalEntry → JournalEntry → Bool
unfolding lines_are_same
entry_is_same a b =
    if not (a.version == b.version)
    then false
    else if a.version == 1
    then str_eq a.id b.id
      && a.valid_time == b.valid_time
      && a.record_time == b.record_time
      && str_eq a.purpose b.purpose
      && length a.journal_lines == length b.journal_lines
      && lines_are_same a.journal_lines b.journal_lines
    else false
