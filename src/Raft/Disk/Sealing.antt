-- ===== src/Raft/Disk/Sealing.antt =====
-- The digests of entries: what the environment is assumed to do, what a digest that was made when
-- an entry was appended is, and that its check passes.
use my_super_ledger.Prelude.{
  ℕ, zero, suc, ◌+◌, ◌-◌, ◌%◌, ◌^◌, ◌≤◌, ◌<◌, ◌≡◌, ◌≢◌, refl, true, false, Option, some, List, [],
  ◌∷◌, ◌⊎◌, inl, inr, done, get_elem?, length, ltb, ◌==◌, ◌&&◌, add64, arith, if◌then◌else◌, lookup,
  nat_eq, Bool-cases, ltb→lt, ltb-false→le, ◌∙◌, sym,
}
use mathlib.Core.Path.{subst}
use native.Mathlib.Nat.{add-mod_right, mod-eq_of_lt, mod-lt}
use my_super_ledger.Raft.Log.Defs.{LogEntry}
use my_super_ledger.Raft.Log.View.{get_elem?-some}
use my_super_ledger.Raft.Disk.Memory.{read}
use my_super_ledger.Raft.Disk.Crypto.{Crypto, hmac}
use my_super_ledger.Raft.Disk.Segment.{
  Env, LogMeta, Segment, zeros, bytes_eq, message, try_versions, verify_hmac, last_version,
  create_hmac, seal,
}

-- Every listed version has a key.
abbrev pub IsKeyed : Crypto → Type 0
IsKeyed c =
    (p : ℕ) (v : ℕ)
    → get_elem? c.descending_versions p ≡ some v
    → (key : List ℕ) × (lookup v c.all_keys ≡ some key)

pub record IsLawful (E : Env) : Type 0 where
  pub length-serialize : (e : LogEntry) → length (E.serialize e) ≡ E.byte_size e
  pub length-sha256 : (key msg : List ℕ) → length (E.crypto.sha256 key msg) ≡ 32
  pub keyed : IsKeyed E.crypto
  pub versions_small : length E.crypto.descending_versions < 2 ^ 62
  pub data_small : E.data_size_limit < 2 ^ 63
  pub meta_small : E.meta_size_limit < 2 ^ 63

pub bytes_eq_refl : (xs : List ℕ) → bytes_eq xs xs ≡ true
unfolding bytes_eq
bytes_eq_refl [] = refl
bytes_eq_refl (x ∷ xs) = ground (arith, bytes_eq_refl xs)

pub bytes_eq→eq : (xs ys : List ℕ) → bytes_eq xs ys ≡ true → xs ≡ ys
unfolding bytes_eq
bytes_eq→eq [] [] h = refl
bytes_eq→eq [] (y ∷ ys) h = cc
bytes_eq→eq (x ∷ xs) [] h = cc
bytes_eq→eq (x ∷ xs) (y ∷ ys) h = ground (arith, bytes_eq→eq xs ys)

length-zeros : (n : ℕ) → length (zeros n) ≡ n
length-zeros zero = refl
length-zeros (suc n) = omega (arith, length-zeros n)

-- `d` is the digest of the message under the listed version at position `p`.
pub record IsDigest (E : Env) (msg d : List ℕ) (p v : ℕ) : Type 0 where
  pub listed : get_elem? E.crypto.descending_versions p ≡ some v
  pub made : hmac E.crypto msg v ≡ done d
  pub size : length d ≡ 32

-- No digest, or one under some listed version.
abbrev pub IsSealed : Env → LogMeta → List ℕ → Type 0
IsSealed E m body =
    (m.digest ≡ zeros 32) ⊎ ((p : ℕ) × (v : ℕ) × IsDigest E (message m.index body) m.digest p v)

-- The position that the readers share is one of a key, or as yet none.
abbrev pub IsHint : Env → ℕ → Type 0
IsHint E h = h ≤ length E.crypto.descending_versions

-- the version that an entry is sealed by
abbrev pub sealing_version : Env → LogEntry → Option ℕ
sealing_version E e =
    if e.secret_key_version == 0
    then last_version E.crypto.descending_versions
    else some e.secret_key_version

-- If digests are made, the entry's version is a listed one.
abbrev pub IsSealable : Env → LogEntry → Type 0
IsSealable E e =
    E.crypto.enabled ≡ true
    → (p : ℕ) × (v : ℕ) × (get_elem? E.crypto.descending_versions p ≡ some v)
      × (sealing_version E e ≡ some v)

get_elem?-below {ℓ} :
    {A : Type ℓ} (xs : List A) (p : ℕ) (x : A) → get_elem? xs p ≡ some x → p < length xs
get_elem?-below [] p x h = cc
get_elem?-below (y ∷ ys) zero x h = omega arith
get_elem?-below (y ∷ ys) (suc p) x h = omega (arith, get_elem?-below ys p x h)

mod_once : (n p : ℕ) → p < n → (p + n) % n ≡ p
mod_once n p h = add-mod_right p n ∙ mod-eq_of_lt h

mod_twice : (n p : ℕ) → p < n → (p + n + n) % n ≡ p
mod_twice n p h = add-mod_right (p + n) n ∙ mod_once n p h

module _ (E : Env) (law : IsLawful E) (on : E.crypto.enabled ≡ true) where
  hmac_lem :
      (msg : List ℕ) (p v : ℕ)
      → get_elem? E.crypto.descending_versions p ≡ some v
      → (d : List ℕ) × (hmac E.crypto msg v ≡ done d) × (length d ≡ 32)
  unfolding hmac
  hmac_lem msg p v h =
      let (key, found) = law.keyed p v h in
      let size = law.length-sha256 key msg in (E.crypto.sha256 key msg, ground arith, size)

  -- Some round of the loop tries the key at any given position.
  round_of :
      (h p : ℕ)
      → IsHint E h
      → p < length E.crypto.descending_versions
      → (t : ℕ) × (t < length E.crypto.descending_versions)
        × (add64 (add64 h t) (length E.crypto.descending_versions)
              % length E.crypto.descending_versions
            ≡ p)
  round_of h p hint below = elim (Bool-cases (ltb p h)) [
    | inl before ↦
        let n = length E.crypto.descending_versions in
        let lt = ltb→lt p h before in
        let sum : add64 (add64 h (p + n - h)) n ≡ p + n + n = omega (arith, law.versions_small) in
        (p + n - h, omega arith, rw sum (mod_twice n p below))
    | inr after ↦
        let n = length E.crypto.descending_versions in
        let le = ltb-false→le p h after in
        let sum : add64 (add64 h (p - h)) n ≡ p + n = omega (arith, law.versions_small) in
        (p - h, omega arith, rw sum (mod_once n p below))
  ]

  -- The loop ends on the expected digest if a round that is still to come makes it.
  try_versions_lem :
      (msg expected : List ℕ) (h n i : ℕ) (real : List ℕ) (t p v : ℕ)
      → i ≤ t
      → t < i + n
      → add64 (add64 h t) (length E.crypto.descending_versions)
          % length E.crypto.descending_versions
        ≡ p
      → IsDigest E msg expected p v
      → (r : List ℕ × ℕ) × (try_versions E msg expected h n i real ≡ done r)
        × (bytes_eq r.0 expected ≡ true)
        × (r.1 < length E.crypto.descending_versions)
  unfolding try_versions
  try_versions_lem msg expected h zero i real t p v lo hi at d = absurd (omega arith)
  try_versions_lem msg expected h (suc n) i real t p v lo hi at d =
      let count = length E.crypto.descending_versions in
      let pos = add64 (add64 h i) count % count in
      let known = get_elem?-below E.crypto.descending_versions p v d.listed in
      let inside : pos < count = mod-lt (add64 (add64 h i) count) {m = count} (omega arith) in
      let (w, listed) = get_elem?-some E.crypto.descending_versions pos inside in
      let (g, made, size) = hmac_lem msg pos w listed in
      elim (Bool-cases (ltb 0 (length g) && bytes_eq g expected)) [
        | inl match ↦ ((g, pos), ground arith, ground arith, inside)
        | inr other ↦
            let later : i ≢ t = λ same.
              let here : pos ≡ p = subst (λ k. add64 (add64 h k) count % count ≡ p) (sym same) at in
              let version : w ≡ v = cc in
              let digest : g ≡ expected = cc in
              let test : ltb 0 (length expected) && bytes_eq expected expected ≡ false =
                subst (λ x. ltb 0 (length x) && bytes_eq x expected ≡ false) digest other in
              ground (arith, bytes_eq_refl expected, d.size) in
            let (r, ended, equal, place) =
              try_versions_lem msg expected h n (i + 1) g t p v (omega arith) (omega arith) at d in
            (r, ground (arith, ended), equal, place)
      ]

-- A sealed meta passes the check, whatever key was used last, and the position that is stored for
-- the next time is one of a key again.
pub verify_hmac_lem :
    (E : Env) (law : IsLawful E) (h : ℕ) (m : LogMeta) (s : Segment)
    → IsHint E h
    → m.offset ≤ s.data_offset
    → IsSealed E m (read s.bytes m.offset m.length)
    → (h' : ℕ) × (verify_hmac E h m s ≡ done h') × IsHint E h'
unfolding verify_hmac
verify_hmac_lem E law h m s hint within sealed = elim (Bool-cases E.crypto.enabled) [
  | inr off ↦ (h, ground arith, hint)
  | inl on ↦ elim sealed [
    | inl none_made ↦ (h, ground (arith, bytes_eq_refl (zeros 32)), hint)
    | inr (p, v, d) ↦ elim (Bool-cases (bytes_eq m.digest (zeros 32))) [
      | inl zero_digest ↦ (h, ground arith, hint)
      | inr some_digest ↦
          let body = read s.bytes m.offset m.length in
          let (t, below, at) =
            round_of E law on h p hint
              (get_elem?-below E.crypto.descending_versions p v d.listed) in
          let (r, ended, equal, place) =
            try_versions_lem E law on (message m.index body) m.digest h
              (length E.crypto.descending_versions) 0 [] t p v (omega arith) (omega arith) at d in
          (r.1, ground (arith, ended), omega arith)
    ]
  ]
]

-- The digest made for an entry whose bytes are written is one that passes.
pub seal_lem :
    (E : Env) (law : IsLawful E) (bytes : ℕ → ℕ) (e : LogEntry) (m : LogMeta)
    → IsSealable E e
    → m.digest ≡ zeros 32
    → (d : List ℕ) × (seal E bytes e m ≡ done (record m { digest = d }))
      × IsSealed E (record m { digest = d }) (read bytes m.offset m.length)
unfolding seal create_hmac
seal_lem E law bytes e m able fresh = elim (Bool-cases E.crypto.enabled) [
  | inr off ↦ (zeros 32, ground arith, inl refl)
  | inl on ↦
      let (p, v, listed, version) = able on in
      let (g, made, size) =
        hmac_lem E law on (message m.index (read bytes m.offset m.length)) p v listed in
      (
        g,
        ground (arith, last_version E.crypto.descending_versions),
        inr (p, v, record { listed = listed; made = made; size = size }),
      )
]
