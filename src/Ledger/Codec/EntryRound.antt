-- ===== src/Ledger/Codec/EntryRound.antt =====
-- JournalEntry.h: reading back a journal entry.
use mathlib.Core.Path.{subst}
use mathlib.Core.List.{append_assoc, append-nil}
use my_super_ledger.Prelude.{
  List, [], ◌∷◌, ◌++◌, done, ◌==◌, ◌≡◌, refl, sym, ◌∙◌, ap, arith, Bool-cases, inl, inr,
  >>=-eq-done, done-injective,
}
use my_super_ledger.Ledger.Domain.Journal.{JournalLine, JournalEntry}
use my_super_ledger.Ledger.Codec.Messages.{LineMessage, EntryMessage, EntryFields}
use my_super_ledger.Ledger.Codec.Defs.{
  line_init, line_encode, lines_init, lines_encode, entry_init, entry_encode,
}
use my_super_ledger.Ledger.Codec.RoundTrip.{line_round}

lines_init-append :
    (P : LineMessage) (ms : List P.Carrier) (m : P.Carrier) (ls : List JournalLine)
    (l : JournalLine)
    → lines_init P ms ≡ done ls
    → line_init P m ≡ done l
    → lines_init P (ms ++ m ∷ []) ≡ done (ls ++ l ∷ [])
unfolding lines_init
lines_init-append P [] m ls l h g =
    let none_yet : [] ≡ ls = done-injective h in
    rw g (subst (λ x. done (l ∷ []) ≡ done (x ++ l ∷ [])) none_yet refl)
lines_init-append P (x ∷ ms) m ls l h g =
    let (y, first, h₁) = >>=-eq-done (line_init P x) _ h in
    let (ys, rest, h₂) = >>=-eq-done (lines_init P ms) _ h₁ in
    let all : y ∷ ys ≡ ls = done-injective h₂ in
    rw (first, lines_init-append P ms m ys l rest g)
      (subst (λ z. done (y ∷ (ys ++ l ∷ [])) ≡ done (z ++ l ∷ [])) all refl)

lines_round :
    (P : EntryMessage) (ls : List JournalLine) (m m' : P.Carrier) (old : List JournalLine)
    → lines_init P.lines (P.fields m).journal_lines ≡ done old
    → lines_encode P ls m ≡ done m'
    → (lines_init P.lines (P.fields m').journal_lines ≡ done (old ++ ls))
      × (P.fields m' ≡ record (P.fields m) { journal_lines = (P.fields m').journal_lines })
unfolding lines_encode
lines_round P [] m m' old h e =
    let same : m ≡ m' = done-injective e in
    (
      subst (λ x. lines_init P.lines (P.fields x).journal_lines ≡ done (old ++ [])) same
          (h ∙ ap done (sym (append-nil old))),
      subst (λ x. P.fields x ≡ record (P.fields m) { journal_lines = (P.fields x).journal_lines })
          same refl,
    )
lines_round P (l ∷ ls) m m' old h e =
    let (line, coded, rest) = >>=-eq-done (line_encode P.lines l P.new_line) _ e in
    let read = line_round P.lines l P.new_line line coded in
    let lines = lines_init-append P.lines (P.fields m).journal_lines line old l h read in
    let (all, others) =
      lines_round P ls (P.add_line line m) m' (old ++ l ∷ []) (rw (P.on_line line m) lines) rest in
    (
      all ∙ ap done (append_assoc old (l ∷ []) ls),
      others
          ∙ ap
              (λ (f : EntryFields P.lines.Carrier). record f {
                journal_lines = (P.fields m').journal_lines;
              })
              (P.on_line line m),
    )

no_lines : (P : LineMessage) → lines_init P [] ≡ done []
unfolding lines_init
no_lines P = refl

-- The message before its lines are added.
abbrev filled : (P : EntryMessage) → JournalEntry → P.Carrier → P.Carrier
filled P e m = P.set_purpose e.purpose (
    P.set_record_time e.record_time (
      P.set_valid_time e.valid_time
        (P.set_id (P.fields (P.set_version e.version m)).id (P.set_version e.version m))))

-- What is written of a journal entry to a message without lines reads back as that entry, but for the
-- id: it is the one that the message had before.
pub entry_round :
    (P : EntryMessage) (e : JournalEntry) (m m' : P.Carrier)
    → (P.fields m).journal_lines ≡ []
    → entry_encode P e m ≡ done m'
    → entry_init P m' ≡ done (record e { id = (P.fields m).id })
unfolding entry_encode entry_init
entry_round P e m m' empty h = elim (Bool-cases (e.version == 1)) [
  | inr other ↦ absurd (ground arith)
  | inl first ↦
      let n = filled P e m in
      let read : P.fields n ≡ record {
        version = e.version;
        id = (P.fields m).id;
        valid_time = e.valid_time;
        record_time = e.record_time;
        purpose = e.purpose;
        journal_lines = (P.fields m).journal_lines;
      } =
        simp (P.on_purpose, P.on_record_time, P.on_valid_time, P.on_id, P.on_version) in
      let none_yet : lines_init P.lines (P.fields n).journal_lines ≡ done [] =
        ap (λ (f : EntryFields P.lines.Carrier). lines_init P.lines f.journal_lines) read
        ∙ ap (lines_init P.lines) empty
        ∙ no_lines P.lines in
      let (lines, others) = lines_round P e.journal_lines n m' [] none_yet (rw first at h) in
      rw (others, read, lines) (ground arith)
]
