-- ===== src/Storage.antt =====
-- The storage of files, workflow/storage.py: files are encrypted unless the server is a local one, and a
-- file that is saved replaces the one of its name. The backend below, AES-GCM and the random bytes are
-- parameters.
pub mod Encrypted
pub mod Backends
pub mod Archive
pub mod Tests
use finmars_workflow.Common.{
  ℕ, zero, suc, ◌+◌, String, ◌≡◌, ◌≢◌, Bool, true, false, not, Option, none, some, List, [], ◌∷◌,
  ◌++◌, ◌==◌, ◌⊎◌, ◌<◌, str_eq, if◌then◌else◌, length,
}
use finmars_workflow.Common.Exec.{
  Exec, Result, ok, err, Error, type_error, attribute_error, pure, raise, lift, gets, modify, need,
  ◌>>=◌, ◌>>◌,
}

abbrev pub Bytes : Type 0
Bytes = List ℕ

-- The backend that Django or django-storages provide, on its own state: `exists`, the `_open` and `_save`
-- that the mixins call by `super()`, `delete`, and its `get_available_name`.
pub record Backend (F : Type 0) : Type 0 where
  pub has : String → F → Bool
  pub open_raw : String → F → Result Bytes
  pub save_raw : String → Bytes → F → F
  pub remove : String → F → F
  pub available : String → F → String

-- What is documented of it.
pub record IsBackend {F : Type 0} (b : Backend F) : Type 0 where
  pub open-save : (n : String) (c : Bytes) (f : F) → b.open_raw n (b.save_raw n c f) ≡ ok c
  pub open-save-other :
      (n m : String) (c : Bytes) (f : F) → m ≢ n → b.open_raw m (b.save_raw n c f) ≡ b.open_raw m f
  pub has-remove : (n : String) (f : F) → b.has n (b.remove n f) ≡ false
  pub open-remove-other :
      (n m : String) (f : F) → m ≢ n → b.open_raw m (b.remove n f) ≡ b.open_raw m f
  pub available-free : (n : String) (f : F) → b.has n f ≡ false → b.available n f ≡ n

-- AESGCM(key).encrypt(nonce, data, None), its inverse, which raises for data that the key did not
-- encrypt, and os.urandom(12) at its successive calls. AESGCM(key) raises a ValueError unless the key has
-- 16, 24 or 32 bytes.
pub record Cipher : Type 0 where
  pub encrypt : Bytes → Bytes → Bytes → Result Bytes
  pub decrypt : Bytes → Bytes → Bytes → Result Bytes
  pub urandom : ℕ → Bytes

-- The length that AES allows.
abbrev pub IsKey : Bytes → Type 0
IsKey key = (length key ≡ 16) ⊎ ((length key ≡ 24) ⊎ (length key ≡ 32))

-- What is documented of it: the data has less than 2 ^ 31 bytes.
pub record IsCipher (c : Cipher) : Type 0 where
  pub decrypt-encrypt :
      (key nonce content : Bytes)
      → IsKey key
      → length content < 2147483648
      → (sealed : Bytes) × (c.encrypt key nonce content ≡ ok sealed)
        × (c.decrypt key nonce sealed ≡ ok content)
  pub urandom-length : (k : ℕ) → length (c.urandom k) ≡ 12

-- settings.SERVER_TYPE == "local", and the key that `get_symmetric_key` leaves on the storage
pub record Server : Type 0 where
  pub is_local : Bool
  pub symmetric_key : Option Bytes

-- The key of the settings, read by bytes.fromhex, or what the vault gives, which is None.
abbrev pub get_symmetric_key : (String → Result Bytes) → Option String → Result (Option Bytes)
get_symmetric_key fromhex none = ok none
get_symmetric_key fromhex (some key) =
    if str_eq key "" then ok none else elim (fromhex key) [ ok b ↦ ok (some b) | err e ↦ err e ]

-- data[:n] and data[n:]
unfoldable pub take : ℕ → Bytes → Bytes
take zero xs = []
take (suc n) [] = []
take (suc n) (x ∷ xs) = x ∷ take n xs

unfoldable pub drop : ℕ → Bytes → Bytes
drop zero xs = xs
drop (suc n) [] = []
drop (suc n) (x ∷ xs) = drop n xs

-- The files below, and how many nonces were drawn.
pub record Disk (F : Type 0) : Type 0 where
  pub files : F
  pub drawn : ℕ

module _ {F : Type 0} (b : Backend F) (c : Cipher) (server : Server) where
  -- AESGCM(None) is a TypeError.
  unfoldable pub encrypt_file : Bytes → Exec (Disk F) Bytes
  encrypt_file content = do
    nonce ← (λ d. (ok (c.urandom d.drawn), record d { drawn = d.drawn + 1 }))
    key ← need type_error server.symmetric_key
    sealed ← lift (c.encrypt key nonce content)
    pure (nonce ++ sealed)

  unfoldable pub decrypt_file : Bytes → Exec (Disk F) Bytes
  unfolding take drop
  decrypt_file content = do
    key ← need type_error server.symmetric_key
    lift (c.decrypt key (take 12 content) (drop 12 content))

  unfoldable pub open_file : String → Exec (Disk F) Bytes
  open_file name = do
    content ← (λ d. (b.open_raw name d.files, d))
    if server.is_local then pure content else decrypt_file content

  unfoldable pub save_as : String → Bytes → Exec (Disk F) Unit
  save_as name content =
      if server.is_local
      then modify (λ d. record d { files = b.save_raw name content d.files })
      else do
        encrypted ← encrypt_file content
        modify (λ d. record d { files = b.save_raw name encrypted d.files })

  -- self.delete(name), and super().get_available_name(name)
  unfoldable pub get_available_name : String → Exec (Disk F) String
  get_available_name name = do
    modify (λ d. record d { files = b.remove name d.files })
    gets (λ d. b.available name d.files)

  -- What `save` calls, in this order; it returns the name.
  unfoldable pub save : String → Bytes → Exec (Disk F) String
  save name content = do free ← get_available_name name; save_as free content; pure free
