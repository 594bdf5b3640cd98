-- ===== src/Store/Reader/Ids.antt =====
-- The ids of the commands read back: each one is the index of its entry.
use mathlib.Core.Path.{subst}
use my_super_ledger.Prelude.{
  ℕ, zero, suc, ◌+◌, ◌≤◌, ◌<◌, ◌≡◌, refl, ◌∙◌, ap, sym, true, false, List, [], ◌∷◌, ◌++◌, ◌⊎◌, inl,
  inr, done, expect, length, ◌==◌, arith, Bool-cases, >>=-eq-done, done-injective, leb, leb→le,
  leb-false→lt,
}
use my_super_ledger.Raft.Log.Defs.{LogEntry}
use my_super_ledger.Store.Reader.Defs.{
  Bundle, Codec, decrypt_entry, open_payload, with_events, decrypt_entries,
}
use my_super_ledger.Store.Reader.Queue.{entries_from}
use my_super_ledger.Store.Reader.Marks.{last_id, Ascending}

module _ {C E : Type 0} (cod : Codec C E) where
  abbrev pub AtMost : ℕ → List (Bundle C E) → Type 0
  AtMost hi [] = Unit {0}
  AtMost hi (b ∷ bs) = (cod.command_id b.command ≤ hi) × AtMost hi bs

  pub AtMost-last :
      (hi m : ℕ) (bs cs : List (Bundle C E))
      → m ≤ hi
      → AtMost hi (bs ++ cs)
      → (last_id cod m bs ≤ hi) × AtMost hi cs
  AtMost-last hi m [] cs le h = (le, h)
  AtMost-last hi m (b ∷ bs) cs le h = AtMost-last hi (cod.command_id b.command) bs cs h.0 h.1

  with_events-one : (b : Bundle C E) → (with_events b ≡ []) ⊎ (with_events b ≡ b ∷ [])
  with_events-one b = elim (Bool-cases (length b.events == 0)) [
    | inl empty ↦ inl (rw empty refl)
    | inr some_event ↦ inr (rw some_event refl)
  ]

  -- An entry gives one bundle at most, and none if it is a no-op.
  decrypt_entry_lem :
      (e : LogEntry) (bs : List (Bundle C E))
      → decrypt_entry cod e ≡ done bs
      → (bs ≡ []) ⊎ ((b : Bundle C E) × (bs ≡ b ∷ []) × (e.noop ≡ false))
  unfolding decrypt_entry open_payload
  decrypt_entry_lem e bs h = elim (Bool-cases e.noop) [
    | inl noop ↦ inl (sym (done-injective (rw noop at h)))
    | inr operation ↦
        let (text, _, h1) = >>=-eq-done (open_payload cod e) _ (rw operation at h) in
        let (b, _, h2) = >>=-eq-done (expect (cod.parse text)) _ h1 in
        elim (with_events-one b) [
          | inl none_there ↦ inl (sym (done-injective h2) ∙ none_there)
          | inr one ↦ inr (b, sym (done-injective h2) ∙ one, operation)
        ]
  ]

  module _ (f : ℕ → LogEntry) (offset : ℕ) where
    -- The command of an entry after the offset has the entry's index as its id.
    abbrev pub IsNumbered : Type 0
    IsNumbered =
        (i : ℕ) (b : Bundle C E)
        → offset < i
        → decrypt_entry cod (f i) ≡ done (b ∷ [])
        → cod.command_id b.command ≡ i

    module _ (ids : IsNumbered) where
      pub entries-Ascending :
          (n start m : ℕ) (bs : List (Bundle C E))
          → offset < start
          → m < start
          → decrypt_entries cod (entries_from f start n) ≡ done bs
          → Ascending cod m bs
      unfolding decrypt_entries
      entries-Ascending zero start m bs lo lt h = subst (Ascending cod m) (done-injective h) tt
      entries-Ascending (suc n) start m bs lo lt h =
          let (b, first, h1) = >>=-eq-done (decrypt_entry cod (f start)) _ h in
          let (rest, others, h2) =
            >>=-eq-done (decrypt_entries cod (entries_from f (start + 1) n)) _ h1 in
          subst (Ascending cod m) (done-injective h2) (elim (decrypt_entry_lem (f start) b first) [
            | inl none_there ↦
                subst (λ us. Ascending cod m (us ++ rest)) (sym none_there)
                  (entries-Ascending n (start + 1) m rest (omega arith) (omega arith) others)
            | inr (c, one, _) ↦
                let id = ids start c lo (first ∙ ap done one) in
                subst (λ us. Ascending cod m (us ++ rest)) (sym one)
                  (
                    omega arith,
                    entries-Ascending n (start + 1) (cod.command_id c.command) rest (omega arith)
                        (omega arith) others,
                  )
          ])

      -- Only no-ops are beyond `hi`.
      pub entries-AtMost :
          (hi n start : ℕ) (bs : List (Bundle C E))
          → offset < start
          → ((i : ℕ) → start ≤ i → i < start + n → hi < i → (f i).noop ≡ true)
          → decrypt_entries cod (entries_from f start n) ≡ done bs
          → AtMost hi bs
      unfolding decrypt_entries
      entries-AtMost hi zero start bs lo noops h = subst (AtMost hi) (done-injective h) tt
      entries-AtMost hi (suc n) start bs lo noops h =
          let (b, first, h1) = >>=-eq-done (decrypt_entry cod (f start)) _ h in
          let (rest, others, h2) =
            >>=-eq-done (decrypt_entries cod (entries_from f (start + 1) n)) _ h1 in
          let later =
            entries-AtMost hi n (start + 1) rest (omega arith)
              (λ i le lt. noops i (omega arith) (omega arith)) others in
          subst (AtMost hi) (done-injective h2) (elim (decrypt_entry_lem (f start) b first) [
            | inl none_there ↦ subst (λ us. AtMost hi (us ++ rest)) (sym none_there) later
            | inr (c, one, operation) ↦
                let id = ids start c lo (first ∙ ap done one) in
                let le : start ≤ hi = elim (Bool-cases (leb start hi)) [
                  | inl inside ↦ leb→le start hi inside
                  | inr beyond ↦
                      let noop =
                        noops start (omega arith) (omega arith) (leb-false→lt start hi beyond) in
                      absurd (ground (arith, noop, operation))
                ] in
                subst (λ us. AtMost hi (us ++ rest)) (sym one) (omega arith, later)
          ])

    pub noops-empty :
        (n start : ℕ)
        → ((i : ℕ) → start ≤ i → i < start + n → (f i).noop ≡ true)
        → decrypt_entries cod (entries_from f start n) ≡ done []
    unfolding decrypt_entries decrypt_entry
    noops-empty zero start noops = refl
    noops-empty (suc n) start noops =
        let rest = noops-empty n (start + 1) (λ i le lt. noops i (omega arith) (omega arith)) in
        rw (noops start (omega arith) (omega arith), rest) refl
