-- ===== src/Storage/Encrypted.antt =====
-- Files through the encryption: what is read after a write.
use finmars_workflow.Common.{String, ◌≡◌, ◌≢◌, true, some, length, ◌⊎◌, ◌<◌}
use finmars_workflow.Common.Exec.{Result, ok}
use finmars_workflow.Storage.{
  Bytes, Backend, IsBackend, Cipher, IsKey, IsCipher, Server, Disk, open_file,
}

module _ {F : Type 0} (b : Backend F) (c : Cipher) (server : Server) where
  -- The content can be written: the server is a local one, or there is a key of a length that AES allows
  -- and the content is not too long for it.
  abbrev pub IsUsable : Bytes → Type 0
  IsUsable content =
      (server.is_local ≡ true)
      ⊎ ((key : Bytes) × (server.symmetric_key ≡ some key)
          × IsKey key
          × (length content < 2147483648))

  module _ (lawful : IsBackend b) (sound : IsCipher c) where
    abbrev IsKept : String → Bytes → Disk F → Result String × Disk F → Type 0
    IsKept name content d r =
        (r.0 ≡ ok name)
        × (open_file b c server name r.1 ≡ (ok content, r.1))
        × ((m : String) → m ≢ name → b.open_raw m r.1.files ≡ b.open_raw m d.files)

    -- The files after `content` was written under the name.
    abbrev rewritten : String → Bytes → F → F
    rewritten name content f = b.save_raw name content (b.remove name f)
