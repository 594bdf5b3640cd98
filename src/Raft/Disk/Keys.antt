-- ===== src/Raft/Disk/Keys.antt =====
-- The keys that CryptoUtil reads: every version that it lists has one.
use my_super_ledger.Prelude.{
  ℕ, zero, suc, ◌≡◌, refl, Bool, true, false, not, Option, none, some, List, [], ◌∷◌, ◌++◌, ◌⊎◌,
  inl, inr, done, assert, >>=-eq-done, done-injective, get_elem?, length, ltb, leb, ◌==◌, arith,
  Bool-cases, ==→eq, if◌then◌else◌, lookup, insert, lookup-insert, nat_eq, Map, some_injective,
}
use mathlib.Core.Path.{subst}
use my_super_ledger.Raft.Disk.Crypto.{Crypto, add_keys, insert_version, sort_versions, init_file}

-- The version has a key of 32 bytes.
abbrev HasKey : Map ℕ (List ℕ) → ℕ → Type 0
HasKey keys v = (key : List ℕ) × (lookup v keys ≡ some key) × (length key ≡ 32)

abbrev AllHaveKeys : Map ℕ (List ℕ) → List ℕ → Type 0
AllHaveKeys keys [] = Unit {0}
AllHaveKeys keys (v ∷ vs) = HasKey keys v × AllHaveKeys keys vs

insert_version-AllHaveKeys :
    (keys : Map ℕ (List ℕ)) (w : ℕ) (vs : List ℕ)
    → HasKey keys w
    → AllHaveKeys keys vs
    → AllHaveKeys keys (insert_version w vs)
unfolding insert_version
insert_version-AllHaveKeys keys w [] k h = (k, tt)
insert_version-AllHaveKeys keys w (v ∷ vs) k h = elim (Bool-cases (leb v w)) [
  | inl first ↦ rw first (k, h)
  | inr later ↦ rw later (h.0, insert_version-AllHaveKeys keys w vs k h.1)
]

sort_versions-AllHaveKeys :
    (keys : Map ℕ (List ℕ)) (vs : List ℕ)
    → AllHaveKeys keys vs
    → AllHaveKeys keys (sort_versions vs)
unfolding sort_versions
sort_versions-AllHaveKeys keys [] h = h
sort_versions-AllHaveKeys keys (v ∷ vs) h =
    insert_version-AllHaveKeys keys v (sort_versions vs) h.0 (sort_versions-AllHaveKeys keys vs h.1)

-- One more key, whatever key its version had.
insert-HasKey :
    (keys : Map ℕ (List ℕ)) (w : ℕ) (key : List ℕ) (v : ℕ)
    → length key ≡ 32
    → (w ≡ v) ⊎ HasKey keys v
    → HasKey (insert w key keys) v
insert-HasKey keys w key v size (inl same) =
    (key, rw (lookup-insert w v key keys) (ground arith), size)
insert-HasKey keys w key v size (inr (old, found, old_size)) = elim (Bool-cases (w == v)) [
  | inl same ↦ (key, rw (lookup-insert w v key keys) (ground arith), size)
  | inr other ↦ (old, rw (lookup-insert w v key keys) (ground arith), old_size)
]

insert-AllHaveKeys :
    (keys : Map ℕ (List ℕ)) (w : ℕ) (key : List ℕ) (vs : List ℕ)
    → length key ≡ 32
    → AllHaveKeys keys vs
    → AllHaveKeys (insert w key keys) (vs ++ w ∷ [])
insert-AllHaveKeys keys w key [] size h = (insert-HasKey keys w key w size (inl refl), tt)
insert-AllHaveKeys keys w key (v ∷ vs) size h =
    (insert-HasKey keys w key v size (inr h.0), insert-AllHaveKeys keys w key vs size h.1)

asserted : (b : Bool) {u : Unit {0}} → assert b ≡ done u → b ≡ true
asserted true h = refl
asserted false h = cc

add_keys-AllHaveKeys :
    (new : List (ℕ × List ℕ)) (c : Crypto) {c' : Crypto}
    → AllHaveKeys c.all_keys c.descending_versions
    → add_keys new c ≡ done c'
    → AllHaveKeys c'.all_keys c'.descending_versions
unfolding add_keys
add_keys-AllHaveKeys [] c h e =
    subst (λ x. AllHaveKeys x.all_keys x.descending_versions) (done-injective e) h
add_keys-AllHaveKeys ((version, key) ∷ rest) c h e =
    let (_, some_version, e1) = >>=-eq-done (assert (ltb 0 version)) _ e in
    let (_, right, e2) = >>=-eq-done (assert (length key == 32)) _ e1 in
    let size : length key ≡ 32 = ==→eq (length key) 32 (asserted (length key == 32) right) in
    add_keys-AllHaveKeys rest
      (record c {
        all_keys = insert version key c.all_keys;
        latest_version = if ltb c.latest_version version then version else c.latest_version;
        descending_versions = c.descending_versions ++ version ∷ [];
      })
      (insert-AllHaveKeys c.all_keys version key c.descending_versions size h) e2

get-AllHaveKeys :
    (keys : Map ℕ (List ℕ)) (vs : List ℕ) (p v : ℕ)
    → AllHaveKeys keys vs
    → get_elem? vs p ≡ some v
    → HasKey keys v
get-AllHaveKeys keys [] p v h e = cc
get-AllHaveKeys keys (w ∷ ws) zero v h e = subst (λ x. HasKey keys x) (some_injective e) h.0
get-AllHaveKeys keys (w ∷ ws) (suc p) v h e = get-AllHaveKeys keys ws p v h.1 e

nothing :
    {c c' : Crypto} → done c ≡ done c' → c.descending_versions ≡ [] → c'.descending_versions ≡ []
nothing same start = subst (λ x. x.descending_versions ≡ []) (done-injective same) start

-- After a start from a file of keys that does not exit, without versions listed before, every
-- version that is listed has a key of 32 bytes.
pub init_file-IsKeyed :
    (enable : Bool) (file : Option (List (ℕ × List ℕ))) (c : Crypto) {c' : Crypto}
    → c.descending_versions ≡ []
    → init_file enable file c ≡ done c'
    → (p v : ℕ) → get_elem? c'.descending_versions p ≡ some v
    → (key : List ℕ) × (lookup v c'.all_keys ≡ some key) × (length key ≡ 32)
unfolding init_file
init_file-IsKeyed enable none c {c'} start e p v at =
    let (_, _, same) = >>=-eq-done (assert (not c.enabled)) _ e in
    get-AllHaveKeys c'.all_keys [] p v tt
      (subst (λ vs. get_elem? vs p ≡ some v) (nothing same start) at)
init_file-IsKeyed false (some keys) c {c'} start e p v at =
    let (_, _, same) = >>=-eq-done (assert (not c.enabled)) _ e in
    get-AllHaveKeys c'.all_keys [] p v tt
      (subst (λ vs. get_elem? vs p ≡ some v) (nothing same start) at)
init_file-IsKeyed true (some keys) c {c'} start e p v at =
    let (_, _, e1) = >>=-eq-done (assert (not c.enabled)) _ e in
    let (k, added, e2) =
      >>=-eq-done (add_keys keys (record c { all_keys = []; descending_versions = [] })) _ e1 in
    let (_, _, e3) = >>=-eq-done (assert (ltb 0 k.latest_version)) _ e2 in
    let (_, _, e4) =
      >>=-eq-done (assert (ltb 0 (length (sort_versions k.descending_versions)))) _ e3 in
    let all =
      sort_versions-AllHaveKeys k.all_keys k.descending_versions (
        add_keys-AllHaveKeys keys (record c { all_keys = []; descending_versions = [] }) tt
          added) in
    let end = done-injective e4 in
    get-AllHaveKeys c'.all_keys c'.descending_versions p v
      (subst (λ x. AllHaveKeys x.all_keys x.descending_versions) end all) at
