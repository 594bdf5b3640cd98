-- ===== src/Ledger/Machine/Ranges.antt =====
-- The ranges of nominal codes of the account types.
use mathlib.Core.Path.{subst}
use my_super_ledger.Prelude.{
  ℕ, ◌<◌, ◌≤◌, String, Bool, false, ◌≡◌, ◌≢◌, refl, sym, ◌∙◌, ◌⊎◌, inl, inr, Option, none, some,
  List, [], ◌∷◌, done, >>=-eq-done, done-injective, Map, lookup, insert, contains, lookup-insert,
  nat_eq, arith, Bool-cases, ◌==◌, some_injective,
}
use my_super_ledger.Ledger.Domain.Kind.{
  AccountType, account_type_code, account_type_eq, account_type_iff,
}
use my_super_ledger.Ledger.Domain.Account.{Account, AccountMetadata}
use my_super_ledger.Ledger.Domain.Journal.{JournalEntry}
use my_super_ledger.Ledger.Machine.Defs.{
  AppState, ProcessHint, Event, account_metadata_configured, account_created,
  journal_entry_recorded, Command, configure_account_metadata, create_account, record_journal_entry,
  Processed, range_overlaps, uncovered_account, process_configure, process_create, process_command,
  apply_journal, apply_event, apply_events, process_and_apply,
}
use my_super_ledger.Ledger.Machine.Accept.{accept_sound}
use my_super_ledger.Ledger.Machine.Conserve.{process_and_apply_inv}

-- Two ranges have no code in common.
abbrev pub Apart : AccountMetadata → AccountMetadata → Type 0
Apart a b = (b.high_inclusive < a.low_inclusive) ⊎ (a.high_inclusive < b.low_inclusive)

-- Each range stands under its own type, and those of two types are apart.
pub record RangesApart (m : Map AccountType AccountMetadata) : Type 0 where
  pub keyed : (t : AccountType) (a : AccountMetadata) → lookup t m ≡ some a → a.account_type ≡ t
  pub apart :
      (t u : AccountType) (a b : AccountMetadata)
      → t ≢ u
      → lookup t m ≡ some a
      → lookup u m ≡ some b
      → Apart a b

range_overlaps-Apart :
    (new : AccountMetadata) (m : Map AccountType AccountMetadata) (u : AccountType)
    (b : AccountMetadata)
    → range_overlaps new m ≡ false
    → new.account_type ≢ u
    → lookup u m ≡ some b
    → Apart new b
unfolding range_overlaps lookup
range_overlaps-Apart new [] u b h n l = ground arith
range_overlaps-Apart new ((t, a) ∷ m) u b h n l = ground (
  arith,
  account_type_iff new.account_type t,
  account_type_iff t u,
  range_overlaps-Apart new m u b,
)

pub uncovered_account_sound :
    (new : AccountMetadata) (coa : Map ℕ Account) (k : ℕ) (a : Account)
    → uncovered_account new coa ≡ false
    → a.account_type ≡ new.account_type
    → lookup k coa ≡ some a
    → (new.low_inclusive ≤ k) × (k ≤ new.high_inclusive)
unfolding uncovered_account lookup
uncovered_account_sound new [] k a h t l = ground arith
uncovered_account_sound new ((j, b) ∷ coa) k a h t l =
    ground
      (arith, account_type_iff new.account_type b.account_type, uncovered_account_sound new coa k a)

-- What a lookup finds after the range `new` was written.
pub lookup_written :
    (new : AccountMetadata) (m : Map AccountType AccountMetadata) (t : AccountType)
    (a : AccountMetadata)
    → lookup t (insert new.account_type new m) ≡ some a
    → ((new.account_type ≡ t) × (new ≡ a)) ⊎ ((new.account_type ≢ t) × (lookup t m ≡ some a))
lookup_written new m t a h =
    elim (Bool-cases (account_type_code new.account_type == account_type_code t)) [
      | inl same ↦ inl (
        (account_type_iff new.account_type t).0 same,
        some_injective (rw (lookup-insert, same) at h),
      )
      | inr other ↦
          inr (λ e. cc ((account_type_iff new.account_type t).1 e), rw (lookup-insert, other) at h)
    ]

Apart-sym : (a b : AccountMetadata) → Apart a b → Apart b a
Apart-sym a b (inl h) = inr h
Apart-sym a b (inr h) = inl h

insert-RangesApart :
    (new : AccountMetadata) (m : Map AccountType AccountMetadata)
    → range_overlaps new m ≡ false
    → RangesApart m
    → RangesApart (insert new.account_type new m)
insert-RangesApart new m h r = record {
  keyed = λ t a l. elim (lookup_written new m t a l) [
    | inl (e, same) ↦ subst (λ (x : AccountMetadata). x.account_type ≡ t) same e
    | inr (_, old) ↦ r.keyed t a old
  ];
  apart = λ t u a b ne lt lu. elim (lookup_written new m t a lt) [
    | inl (et, sa) ↦ elim (lookup_written new m u b lu) [
      | inl (eu, _) ↦ absurd (ne (sym et ∙ eu))
      | inr (nu, old) ↦ subst (λ x. Apart x b) sa (range_overlaps-Apart new m u b h nu old)
    ]
    | inr (nt, old_t) ↦ elim (lookup_written new m u b lu) [
      | inl (_, sb) ↦
          subst (Apart a) sb (Apart-sym new a (range_overlaps-Apart new m t a h nt old_t))
      | inr (_, old_u) ↦ r.apart t u a b ne old_t old_u
    ]
  ];
}

-- An accepted configuration found no overlap and no account outside the range.
configured_inv :
    (now : ℕ) (new : AccountMetadata) (s : AppState) (e : Event) (es : List Event)
    → (process_configure now (some new) s).1 ≡ e ∷ es
    → (range_overlaps new s.account_metadata ≡ false) × (uncovered_account new s.coa ≡ false)
unfolding process_configure
configured_inv now new s e es h = elim (Bool-cases (range_overlaps new s.account_metadata)) [
  | inl bad ↦ absurd (ground arith)
  | inr fine ↦ (fine, ground arith)
]

apply_journal_metadata :
    (entry : JournalEntry) (s s' : AppState)
    → apply_journal entry s ≡ done s'
    → s'.account_metadata ≡ s.account_metadata
unfolding apply_journal
apply_journal_metadata entry s s' h = ground arith

-- What each event may do to the ranges.
abbrev Admits : Event → AppState → Type 0
Admits (account_metadata_configured _ m) s = range_overlaps m s.account_metadata ≡ false
Admits (account_created _ a) s = Unit {0}
Admits (journal_entry_recorded _ e) s = Unit {0}

apply_event-RangesApart :
    (e : Event) (s s' : AppState)
    → Admits e s
    → RangesApart s.account_metadata
    → apply_event e s ≡ done s'
    → RangesApart s'.account_metadata
unfolding apply_event
apply_event-RangesApart (account_metadata_configured t m) s s' ok r h =
    subst (λ (x : AppState). RangesApart x.account_metadata) (done-injective h)
      (insert-RangesApart m s.account_metadata ok r)
apply_event-RangesApart (account_created t a) s s' ok r h =
    let same : s.account_metadata ≡ s'.account_metadata = ground arith in subst RangesApart same r
apply_event-RangesApart (journal_entry_recorded t e) s s' ok r h =
    subst RangesApart (sym (apply_journal_metadata e s s' h)) r

-- What a processed command gives: nothing, or one event that the ranges admit.
abbrev Emits : List Event → AppState → Type 0
Emits es s = (es ≡ []) ⊎ ((e : Event) × (es ≡ e ∷ []) × Admits e s)

configure_Emits :
    (now : ℕ) (o : Option AccountMetadata) (s : AppState) → Emits (process_configure now o s).1 s
unfolding process_configure
configure_Emits now none s = inl refl
configure_Emits now (some new) s = elim (Bool-cases (range_overlaps new s.account_metadata)) [
  | inl bad ↦ rw bad (inl refl)
  | inr fine ↦ elim (Bool-cases (uncovered_account new s.coa)) [
    | inl bad ↦ rw (fine, bad) (inl refl)
    | inr covered ↦ rw (fine, covered) (inr (account_metadata_configured now new, refl, fine))
  ]
]

create_Emits : (now : ℕ) (o : Option Account) (s : AppState) → Emits (process_create now o s).1 s
unfolding process_create
create_Emits now none s = inl refl
create_Emits now (some a) s = elim (Bool-cases (contains a.nominal_code s.coa)) [
  | inl old ↦ rw old (inl refl)
  | inr new ↦ rw new (inr (account_created now a, refl, tt))
]

command_Emits :
    (persisted : String → Bool) (now : ℕ) (c : Command) (s : AppState) (hint : ProcessHint)
    (es : List Event)
    → process_command persisted now c s ≡ done (hint, es)
    → Emits es s
unfolding process_command
command_Emits persisted now (configure_account_metadata o) s hint es h =
    subst (λ (p : Processed). Emits p.1 s) (done-injective h) (configure_Emits now o s)
command_Emits persisted now (create_account o) s hint es h =
    subst (λ (p : Processed). Emits p.1 s) (done-injective h) (create_Emits now o s)
command_Emits persisted now (record_journal_entry none) s hint es h = absurd (ground arith)
command_Emits persisted now (record_journal_entry (some entry)) s hint [] h = inl refl
command_Emits persisted now (record_journal_entry (some entry)) s hint (e ∷ es) h =
    let (_, _, same) = accept_sound persisted now entry s hint e es h in
    inr (journal_entry_recorded now entry, same, tt)

-- No command, accepted or not, makes the ranges of two account types overlap that were apart.
pub command-RangesApart :
    (persisted : String → Bool) (now : ℕ) (c : Command) (s : AppState) (hint : ProcessHint)
    (es : List Event) (s' : AppState)
    → RangesApart s.account_metadata
    → process_and_apply persisted now c s ≡ done (hint, es, s')
    → RangesApart s'.account_metadata
unfolding apply_events
command-RangesApart persisted now c s hint es s' r h =
    let (p, a) = process_and_apply_inv persisted now c s hint es s' h in
    elim (command_Emits persisted now c s hint es p) [
      | inl nothing ↦
          let a' : apply_events [] s ≡ done s' =
            subst (λ x. apply_events x s ≡ done s') nothing a in
          subst (λ (x : AppState). RangesApart x.account_metadata) (done-injective a') r
      | inr (e, one, ok) ↦
          let (s₁, first, rest) =
            >>=-eq-done (apply_event e s) (apply_events [])
              (subst (λ x. apply_events x s ≡ done s') one a) in
          apply_event-RangesApart e s s' ok r (first ∙ rest)
    ]
