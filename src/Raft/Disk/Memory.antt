-- ===== src/Raft/Disk/Memory.antt =====
-- Memory as a function from places to values, the whole of a mapped file: what `memmove`,
-- `memset` and reads of a stretch do.
use my_super_ledger.Prelude.{
  ℕ, zero, suc, ◌+◌, ◌≤◌, ◌<◌, ◌≡◌, refl, ◌∙◌, List, [], ◌∷◌, some, length, get_elem?, ltb, ◌==◌,
  leb, ◌&&◌, arith, if◌then◌else◌,
}

module _ {ℓ} {A : Type ℓ} where
  -- `n` values from place `a` on
  unfoldable pub read : (ℕ → A) → ℕ → ℕ → List A
  read m a zero = []
  read m a (suc n) = m a ∷ read m (a + 1) n

  -- the list, written from place `a` on
  unfoldable pub write : List A → ℕ → (ℕ → A) → ℕ → A
  write [] a m p = m p
  write (x ∷ xs) a m p = if p == a then x else write xs (a + 1) m p

  -- `v` at the `n` places from `a` on
  unfoldable pub fill : A → ℕ → ℕ → (ℕ → A) → ℕ → A
  fill v a n m p = if leb a p && ltb p (a + n) then v else m p

  pub read_ext :
      (m m' : ℕ → A) (a n : ℕ)
      → ((p : ℕ) → a ≤ p → p < a + n → m p ≡ m' p)
      → read m a n ≡ read m' a n
  unfolding read
  read_ext m m' a zero h = refl
  read_ext m m' a (suc n) h =
      let head = h a (omega arith) (omega arith) in
      let tail = read_ext m m' (a + 1) n (λ p lo hi. h p (omega arith) (omega arith)) in cc

  pub write_below : (xs : List A) (a : ℕ) (m : ℕ → A) (p : ℕ) → p < a → write xs a m p ≡ m p
  unfolding write
  write_below [] a m p h = refl
  write_below (x ∷ xs) a m p h = ground (arith, write_below xs (a + 1) m p)

  pub write_above :
      (xs : List A) (a : ℕ) (m : ℕ → A) (p : ℕ) → a + length xs ≤ p → write xs a m p ≡ m p
  unfolding write
  write_above [] a m p h = refl
  write_above (x ∷ xs) a m p h = ground (arith, write_above xs (a + 1) m p)

  pub write_inside :
      (xs : List A) (a : ℕ) (m : ℕ → A) (k : ℕ) (x : A)
      → get_elem? xs k ≡ some x
      → write xs a m (a + k) ≡ x
  unfolding write
  write_inside [] a m k x h = cc
  write_inside (y ∷ xs) a m zero x h = ground arith
  write_inside (y ∷ xs) a m (suc k) x h =
      let at : a + 1 + k ≡ a + suc k = omega arith in
      let rest = rw at at (write_inside xs (a + 1) m k x h) in ground arith

  -- What was written is read back.
  pub read-write : (xs : List A) (a : ℕ) (m : ℕ → A) → read (write xs a m) a (length xs) ≡ xs
  unfolding read
  read-write [] a m = refl
  read-write (x ∷ xs) a m =
      let head : write (x ∷ xs) a m a ≡ x = unfold write in ground arith in
      let tail : read (write (x ∷ xs) a m) (a + 1) (length xs) ≡ xs =
        read_ext (write (x ∷ xs) a m) (write xs (a + 1) m) (a + 1) (length xs)
          (λ p lo hi. unfold write in ground arith)
        ∙ read-write xs (a + 1) m in
      cc
