-- ===== src/Raft/Disk/Crypto.antt =====
-- CryptoUtil: the secret keys by version, and the digests made with them. What OpenSSL computes
-- from a key and a message is the field `sha256`.
use my_super_ledger.Prelude.{
  ℕ, Bool, true, false, not, Option, none, some, List, [], ◌∷◌, ◌++◌, Outcome, done, abort, ◌>>=◌,
  ◌>>◌, assert, length, ltb, leb, ◌==◌, ◌&&◌, if◌then◌else◌, Map, lookup, insert, nat_eq,
}

pub record Crypto : Type 0 where
  pub enabled : Bool
  pub descending_versions : List ℕ
  pub all_keys : Map ℕ (List ℕ)
  pub latest_version : ℕ
  pub sha256 : List ℕ → List ℕ → List ℕ

abbrev pub key_len : ℕ
key_len = 32

-- The `init` that is given a version and a key; `abort` is its `exit(1)`.
unfoldable pub init_key : ℕ → List ℕ → Crypto → Outcome Crypto
init_key version key c = do
  assert (not c.enabled)
  assert (length key == key_len && ltb 0 version)
  done (record c {
    enabled = true;
    descending_versions = version ∷ [];
    all_keys = insert version key [];
    latest_version = version;
  })

-- The loop of the other `init`, over the keys of the file with their versions, decoded.
unfoldable pub add_keys : List (ℕ × List ℕ) → Crypto → Outcome Crypto
add_keys [] c = done c
add_keys ((version, key) ∷ rest) c = do
  assert (ltb 0 version)
  assert (length key == key_len)
  add_keys rest (record c {
    all_keys = insert version key c.all_keys;
    latest_version = if ltb c.latest_version version then version else c.latest_version;
    descending_versions = c.descending_versions ++ version ∷ [];
  })

-- `sort` from the back: the largest first
unfoldable pub insert_version : ℕ → List ℕ → List ℕ
insert_version v [] = v ∷ []
insert_version v (w ∷ ws) = if leb w v then v ∷ w ∷ ws else w ∷ insert_version v ws

unfoldable pub sort_versions : List ℕ → List ℕ
unfolding insert_version
sort_versions [] = []
sort_versions (v ∷ vs) = insert_version v (sort_versions vs)

-- The `init` that reads a configuration: whether encryption is on, the keys of the file it
-- names (`none`: no file is named).
unfoldable pub init_file : Bool → Option (List (ℕ × List ℕ)) → Crypto → Outcome Crypto
unfolding add_keys sort_versions
init_file enable none c = do assert (not c.enabled); done c
init_file false (some keys) c = do assert (not c.enabled); done c
init_file true (some keys) c = do
  assert (not c.enabled)
  c' ← add_keys keys (record c { all_keys = []; descending_versions = [] })
  let versions = sort_versions c'.descending_versions
  assert (ltb 0 c'.latest_version)
  assert (ltb 0 (length versions))
  done (record c' { descending_versions = versions; enabled = true })

-- `hmac`: empty if nothing is enabled; an unknown version exits.
unfoldable pub hmac : Crypto → List ℕ → ℕ → Outcome (List ℕ)
hmac c message version = elim c.enabled [
  | false ↦ done []
  | true ↦ elim (lookup version c.all_keys) [
    | none ↦ abort
    | some key ↦ do let digest = c.sha256 key message; assert (length digest == 32); done digest
  ]
]
