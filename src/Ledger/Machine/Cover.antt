-- ===== src/Ledger/Machine/Cover.antt =====
-- The accounts and the configured ranges of their types.
use mathlib.Core.Path.{subst}
use my_super_ledger.Prelude.{
  ℕ, ◌<◌, ◌≤◌, String, Bool, false, ◌≡◌, sym, ap, ◌⊎◌, inl, inr, some, List, [], ◌∷◌, done,
  done-injective, lookup, insert, contains, lookup-insert_self, nat_eq, arith, Bool-cases,
}
use my_super_ledger.Ledger.Domain.Kind.{account_type_eq}
use my_super_ledger.Ledger.Domain.Account.{Account, AccountMetadata}
use my_super_ledger.Ledger.Machine.Defs.{
  AppState, ProcessHint, success, Event, account_created, configure_account_metadata,
  create_account, range_overlaps, uncovered_account, apply_configured, process_and_apply,
}
use my_super_ledger.Ledger.Machine.Ranges.{uncovered_account_sound, lookup_written}

-- The accounts whose type has a range lie in it.
abbrev pub Covered : AppState → Type 0
Covered s =
    (k : ℕ) (a : Account) (m : AccountMetadata)
    → lookup k s.coa ≡ some a
    → lookup a.account_type s.account_metadata ≡ some m
    → (m.low_inclusive ≤ k) × (k ≤ m.high_inclusive)

-- The state after a configuration: as before, or with the new range, which covers the accounts.
configured_state :
    (persisted : String → Bool) (now : ℕ) (new : AccountMetadata) (s : AppState)
    (hint : ProcessHint) (es : List Event) (s' : AppState)
    → process_and_apply persisted now (configure_account_metadata (some new)) s
      ≡ done (hint, es, s')
    → (s ≡ s') ⊎ ((uncovered_account new s.coa ≡ false) × (apply_configured new s ≡ s'))
unfolding process_and_apply
configured_state persisted now new s hint es s' h =
    elim (Bool-cases (range_overlaps new s.account_metadata)) [
      | inl bad ↦
          inl (ap (λ (r : ProcessHint × List Event × AppState). r.2) (done-injective (rw bad at h)))
      | inr fine ↦ elim (Bool-cases (uncovered_account new s.coa)) [
        | inl bad ↦ inl (
            ap (λ (r : ProcessHint × List Event × AppState). r.2)
              (done-injective (rw (fine, bad) at h)))
        | inr covered ↦ inr (
          covered,
          ap (λ (r : ProcessHint × List Event × AppState). r.2)
              (done-injective (rw (fine, covered) at h)),
        )
      ]
    ]

new_range-Covered :
    (new : AccountMetadata) (s : AppState)
    → Covered s
    → uncovered_account new s.coa ≡ false
    → Covered (apply_configured new s)
unfolding apply_configured
new_range-Covered new s cov fine k a m found range =
    elim (lookup_written new s.account_metadata a.account_type m range) [
      | inl (type, same) ↦
          subst (λ (x : AccountMetadata). (x.low_inclusive ≤ k) × (k ≤ x.high_inclusive)) same
            (uncovered_account_sound new s.coa k a fine (sym type) found)
      | inr (_, old) ↦ cov k a m found old
    ]

-- A configuration, accepted or not, keeps all accounts in the ranges of their types.
pub configured-Covered :
    (persisted : String → Bool) (now : ℕ) (new : AccountMetadata) (s : AppState)
    (hint : ProcessHint) (es : List Event) (s' : AppState)
    → Covered s
    → process_and_apply persisted now (configure_account_metadata (some new)) s
      ≡ done (hint, es, s')
    → Covered s'
configured-Covered persisted now new s hint es s' cov h =
    elim (configured_state persisted now new s hint es s' h) [
      | inl same ↦ subst Covered same cov
      | inr (fine, written) ↦ subst Covered written (new_range-Covered new s cov fine)
    ]

-- The creation of an account looks at no range: a new one whose code lies below the range of its
-- type is accepted, and the range does not cover it then.
pub created_uncovered :
    (persisted : String → Bool) (now : ℕ) (a : Account) (m : AccountMetadata) (s : AppState)
    → contains a.nominal_code s.coa ≡ false
    → lookup a.account_type s.account_metadata ≡ some m
    → a.nominal_code < m.low_inclusive
    → (s' : AppState) × (process_and_apply persisted now (create_account (some a)) s
        ≡ done (success, account_created now a ∷ [], s'))
      × ¬ Covered s'
unfolding process_and_apply
created_uncovered persisted now a m s new range below = (
  record s { coa = insert a.nominal_code a s.coa },
  rw new (rw new),
  λ cov.
      absurd
        (omega (arith, cov a.nominal_code a m (lookup-insert_self a.nominal_code a s.coa) range)),
)
