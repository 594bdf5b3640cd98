-- ===== src/Ledger/Domain/Money.antt =====
-- Amount.h and Balance.h: unsigned 64-bit values that wrap around.
use my_super_ledger.Prelude.{
  ℕ, Bool, Outcome, done, ◌>>◌, assert, ◌==◌, ◌&&◌, not, add64, sub64, if◌then◌else◌, false,
}

pub record Amount : Type 0 where
  pub version : ℕ
  pub value : ℕ

-- Amount()
abbrev pub no_amount : Amount
no_amount = record { version = 1; value = 0 }

-- operator+=
unfoldable pub add_amount : Amount → Amount → Outcome Amount
add_amount a other = do
  assert (other.version == a.version)
  done (record a { value = add64 a.value other.value })

-- operator==
unfoldable pub amount_eq : Amount → Amount → Bool
amount_eq a b = a.version == b.version && a.value == b.value

unfoldable pub amount_is_same : Amount → Amount → Bool
amount_is_same a b =
    if not (a.version == b.version)
    then false
    else if a.version == 1
    then a.value == b.value
    else false

pub record Balance : Type 0 where
  pub version : ℕ
  pub value : ℕ

-- operator+=(const Amount &)
unfoldable pub raise_balance : Balance → Amount → Balance
raise_balance b amount = record b { value = add64 b.value amount.value }

-- operator-=(const Amount &)
unfoldable pub lower_balance : Balance → Amount → Balance
lower_balance b amount = record b { value = sub64 b.value amount.value }

unfoldable pub balance_is_same : Balance → Balance → Bool
balance_is_same a b =
    if not (a.version == b.version)
    then false
    else if a.version == 1
    then a.value == b.value
    else false
