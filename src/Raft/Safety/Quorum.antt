-- ===== src/Raft/Safety/Quorum.antt =====
-- The index that a majority has reached: `std::sort` and `indices[indices.size() >> 1]` of
-- `advanceCommitIndex` and `leadershipTimeout`, against a count.
use mathlib.Core.Path.{subst}
use my_super_ledger.Prelude.{
  ℕ, zero, suc, ◌+◌, ◌/◌, ◌≤◌, ◌<◌, ◌≡◌, refl, ◌∙◌, ap, some, List, [], ◌∷◌, done, get_elem?,
  length, leb, arith, Bool-cases, inl, inr, if◌then◌else◌, expect-eq-done, expect,
}
use my_super_ledger.Raft.Log.View.{get_elem?-some}
use my_super_ledger.Raft.Core.Vote.{majority_number}
use my_super_ledger.Raft.Core.Lead.{insert_desc, sort_desc, majority_value}

-- How many of the numbers are at least `w`.
unfoldable pub count_reached : ℕ → List ℕ → ℕ
count_reached w [] = 0
count_reached w (x ∷ xs) = (if leb w x then 1 else 0) + count_reached w xs

Below : ℕ → List ℕ → Type 0
Below x [] = Unit {0}
Below x (y ∷ ys) = (y ≤ x) × Below x ys

Descending : List ℕ → Type 0
unfolding Below
Descending [] = Unit {0}
Descending (x ∷ xs) = Below x xs × Descending xs

Below-trans : (x y : ℕ) (ys : List ℕ) → y ≤ x → Below y ys → Below x ys
unfolding Below
Below-trans x y [] h b = tt
Below-trans x y (z ∷ zs) h b = (omega (arith, b.0), Below-trans x y zs h b.1)

Below-insert : (x y : ℕ) (ys : List ℕ) → y ≤ x → Below x ys → Below x (insert_desc y ys)
unfolding Below insert_desc
Below-insert x y [] h b = (h, tt)
Below-insert x y (z ∷ zs) h b = elim (Bool-cases (leb z y)) [
  | inl before ↦ rw before (h, b)
  | inr after ↦ rw after (b.0, Below-insert x y zs h b.1)
]

insert-Descending : (x : ℕ) (ys : List ℕ) → Descending ys → Descending (insert_desc x ys)
unfolding Descending insert_desc
insert-Descending x [] d = (tt, tt)
insert-Descending x (y ∷ ys) d = elim (Bool-cases (leb y x)) [
  | inl before ↦ rw before ((ground arith, Below-trans x y ys (ground arith) d.0), d)
  | inr after ↦ rw after (Below-insert y x ys (ground arith) d.0, insert-Descending x ys d.1)
]

sort-Descending : (xs : List ℕ) → Descending (sort_desc xs)
unfolding sort_desc Descending
sort-Descending [] = tt
sort-Descending (x ∷ xs) = insert-Descending x (sort_desc xs) (sort-Descending xs)

count-insert :
    (w x : ℕ) (ys : List ℕ) → count_reached w (insert_desc x ys) ≡ count_reached w (x ∷ ys)
unfolding insert_desc count_reached
count-insert w x [] = refl
count-insert w x (y ∷ ys) = ground (arith, count-insert w x ys)

count-sort : (w : ℕ) (xs : List ℕ) → count_reached w (sort_desc xs) ≡ count_reached w xs
unfolding sort_desc count_reached
count-sort w [] = refl
count-sort w (x ∷ xs) = count-insert w x (sort_desc xs) ∙ ground (arith, count-sort w xs)

length-insert : (x : ℕ) (ys : List ℕ) → length (insert_desc x ys) ≡ suc (length ys)
unfolding insert_desc
length-insert x [] = refl
length-insert x (y ∷ ys) = ground (arith, length-insert x ys)

pub length-sort : (xs : List ℕ) → length (sort_desc xs) ≡ length xs
unfolding sort_desc
length-sort [] = refl
length-sort (x ∷ xs) = length-insert x (sort_desc xs) ∙ ap suc (length-sort xs)

Below-get : (x v : ℕ) (ys : List ℕ) (k : ℕ) → Below x ys → get_elem? ys k ≡ some v → v ≤ x
unfolding Below
Below-get x v [] k b h = absurd (ground arith)
Below-get x v (y ∷ ys) zero b h = ground (arith, b.0)
Below-get x v (y ∷ ys) (suc k) b h = Below-get x v ys k b.1 h

Below-count : (x w : ℕ) (ys : List ℕ) → Below x ys → x < w → count_reached w ys ≡ 0
unfolding Below count_reached
Below-count x w [] b h = refl
Below-count x w (y ∷ ys) b h = ground (arith, b.0, Below-count x w ys b.1 h)

at_least :
    (v : ℕ) (xs : List ℕ) (k : ℕ)
    → Descending xs
    → get_elem? xs k ≡ some v
    → k + 1 ≤ count_reached v xs
unfolding Descending count_reached
at_least v [] k d h = absurd (ground arith)
at_least v (x ∷ xs) zero d h = ground arith
at_least v (x ∷ xs) (suc k) d h = ground (arith, at_least v xs k d.1 h, Below-get x v xs k d.0 h)

at_most :
    (v w : ℕ) (xs : List ℕ) (k : ℕ)
    → Descending xs
    → get_elem? xs k ≡ some v
    → v < w
    → count_reached w xs ≤ k
unfolding Descending count_reached
at_most v w [] k d h b = absurd (ground arith)
at_most v w (x ∷ xs) zero d h b = ground (arith, Below-count x w xs d.0 (ground arith))
at_most v w (x ∷ xs) (suc k) d h b = ground (arith, at_most v w xs k d.1 h b)

-- The value read off the sorted list has been reached by a majority of the members, and no larger
-- one has.
pub majority_value_lem :
    (xs : List ℕ) (v : ℕ)
    → majority_value xs ≡ done v
    → (majority_number (length xs) ≤ count_reached v xs)
      × ((w : ℕ) → v < w → count_reached w xs < majority_number (length xs))
unfolding majority_value majority_number
majority_value_lem xs v h =
    let read = expect-eq-done (get_elem? (sort_desc xs) (length xs / 2)) h in
    (
      subst (λ c. length xs / 2 + 1 ≤ c) (count-sort v xs)
          (at_least v (sort_desc xs) (length xs / 2) (sort-Descending xs) read),
      λ w b. omega (
        arith,
        count-sort w xs,
        at_most v w (sort_desc xs) (length xs / 2) (sort-Descending xs) read b,
      ),
    )

-- There is one, unless the list is empty.
pub majority_value_exists : (x : ℕ) (xs : List ℕ) → (v : ℕ) × (majority_value (x ∷ xs) ≡ done v)
unfolding majority_value
majority_value_exists x xs =
    let (v, read) =
      get_elem?-some (sort_desc (x ∷ xs)) (length (x ∷ xs) / 2)
        (omega (arith, length-sort (x ∷ xs))) in
    (v, ap expect read)
