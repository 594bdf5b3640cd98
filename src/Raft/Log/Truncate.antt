-- ===== src/Raft/Log/Truncate.antt =====
-- Cutting the log at either end.
use mathlib.Core.Path.{subst}
use my_super_ledger.Prelude.{
  ℕ, zero, suc, ◌+◌, ◌-◌, ◌≤◌, ◌<◌, ◌^◌, ◌≡◌, refl, none, List, [], ◌∷◌, get_elem?, take, drop,
  length-take, length-drop, get_elem?-take, get_elem?-drop, ltb, leb, arith, if◌then◌else◌,
  Bool-cases, inl, inr, add64, sub64, ltb-false→le, leb-false→lt,
}
use my_super_ledger.Raft.Log.Defs.{LogEntry, Log, truncate_prefix, truncate_suffix}
use my_super_ledger.Raft.Log.View.{Numbered, IsWellFormed, view, view_below, view_above}

Numbered-take : (k n : ℕ) (es : List LogEntry) → Numbered n es → Numbered n (take k es)
Numbered-take zero n es h = tt
Numbered-take (suc k) n [] h = tt
Numbered-take (suc k) n (e ∷ es) h = (h.0, Numbered-take k (n + 1) es h.1)

Numbered-drop : (k n : ℕ) (es : List LogEntry) → Numbered n es → Numbered (n + k) (drop k es)
Numbered-drop zero n es h = subst (λ m. Numbered m es) (omega arith) h
Numbered-drop (suc k) n [] h = tt
Numbered-drop (suc k) n (e ∷ es) h =
    subst (λ m. Numbered m (drop k es)) (omega arith) (Numbered-drop k (n + 1) es h.1)

get_elem?-take_above {ℓ} :
    {A : Type ℓ} (n : ℕ) (xs : List A) (i : ℕ) → n ≤ i → get_elem? (take n xs) i ≡ none
get_elem?-take_above zero xs i h = refl
get_elem?-take_above (suc n) [] i h = refl
get_elem?-take_above (suc n) (x ∷ xs) zero h = elim h [ ]
get_elem?-take_above (suc n) (x ∷ xs) (suc i) h = get_elem?-take_above n xs i (omega arith)

module _ (l : Log) (w : IsWellFormed l) (kept : ℕ) (fits : kept + 1 < 2 ^ 64) where
  pub truncate_suffix-IsWellFormed : IsWellFormed (truncate_suffix kept l)
  unfolding truncate_suffix
  truncate_suffix-IsWellFormed = elim (Bool-cases (leb l.last_index kept)) [
    | inl nothing ↦ rw nothing w
    | inr cut ↦ elim (Bool-cases (ltb kept l.first_index)) [
      | inl all ↦
          rw (cut, all)
            (record { first = omega arith; size = omega arith; bound = fits; numbered = tt })
      | inr some_kept ↦
          let hi = leb-false→lt l.last_index kept cut in
          let lo = ltb-false→le kept l.first_index some_kept in
          let n : add64 (sub64 kept l.first_index) 1 ≡ kept - l.first_index + 1 =
            omega (arith, w.bound) in
          rw (cut, some_kept)
            (record {
              first = w.first;
              size = rw n (
                  omega (
                    arith,
                    length-take (kept - l.first_index + 1) l.entries (omega (arith, w.size)),
                    w.size,
                  ));
              bound = fits;
              numbered =
                  Numbered-take (add64 (sub64 kept l.first_index) 1) l.first_index l.entries
                    w.numbered;
            })
    ]
  ]

  -- With a log in order, the entries up to the index kept stay, the others are gone.
  pub view-truncate_suffix :
      (i : ℕ) → view (truncate_suffix kept l) i ≡ (if leb i kept then view l i else none)
  unfolding truncate_suffix
  view-truncate_suffix i = elim (Bool-cases (leb l.last_index kept)) [
    | inl nothing ↦ rw nothing (ground (arith, view_above l w i))
    | inr cut ↦ elim (Bool-cases (ltb kept l.first_index)) [
      | inl all ↦ rw (cut, all) (unfold view in ground arith)
      | inr some_kept ↦
          let hi = leb-false→lt l.last_index kept cut in
          let lo = ltb-false→le kept l.first_index some_kept in
          let n : add64 (sub64 kept l.first_index) 1 ≡ kept - l.first_index + 1 =
            omega (arith, w.bound) in
          rw (cut, some_kept, n)
            (unfold view in
              ground (
                arith,
                get_elem?-take (kept - l.first_index + 1) l.entries (i - l.first_index),
                get_elem?-take_above (kept - l.first_index + 1) l.entries (i - l.first_index),
              ))
    ]
  ]

  pub last-truncate_suffix :
      (truncate_suffix kept l).last_index ≡ (if leb l.last_index kept then l.last_index else kept)
  unfolding truncate_suffix
  last-truncate_suffix = ground arith

  pub truncate_prefix-IsWellFormed : IsWellFormed (truncate_prefix kept l)
  unfolding truncate_prefix
  truncate_prefix-IsWellFormed = elim (Bool-cases (leb kept l.first_index)) [
    | inl nothing ↦ rw nothing w
    | inr cut ↦
        let hi = leb-false→lt kept l.first_index cut in
        elim (Bool-cases (ltb l.last_index kept)) [
          | inl all ↦
              rw (cut, all)
                (record {
                  first = omega arith;
                  size = omega arith;
                  bound = omega arith;
                  numbered = tt;
                })
          | inr some_kept ↦
              let lo = ltb-false→le l.last_index kept some_kept in
              let n : sub64 kept l.first_index ≡ kept - l.first_index = omega arith in
              rw (cut, some_kept, n)
                (record {
                  first = omega arith;
                  size = omega (arith, length-drop (kept - l.first_index) l.entries, w.size);
                  bound = w.bound;
                  numbered =
                      subst (λ m. Numbered m (drop (kept - l.first_index) l.entries)) (omega arith)
                        (Numbered-drop (kept - l.first_index) l.first_index l.entries w.numbered);
                })
        ]
  ]

  -- With a log in order, the entries from the index kept on stay, the others are gone.
  pub view-truncate_prefix :
      (i : ℕ) → view (truncate_prefix kept l) i ≡ (if ltb i kept then none else view l i)
  unfolding truncate_prefix
  view-truncate_prefix i = elim (Bool-cases (leb kept l.first_index)) [
    | inl nothing ↦ rw nothing (ground (arith, view_below l w i))
    | inr cut ↦
        let hi = leb-false→lt kept l.first_index cut in
        elim (Bool-cases (ltb l.last_index kept)) [
          | inl all ↦ rw (cut, all) (ground (arith, view_above l w i, empty_view i))
          | inr some_kept ↦
              let n : sub64 kept l.first_index ≡ kept - l.first_index = omega arith in
              rw (cut, some_kept, n)
                (unfold view in
                  ground (arith, get_elem?-drop (kept - l.first_index) l.entries (i - kept)))
        ]
  ]
    where
      empty_view :
          (i : ℕ)
          → view (record l { entries = []; first_index = kept; last_index = sub64 kept 1 }) i ≡ none
      empty_view i = unfold view in ground arith
