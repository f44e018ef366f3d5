-- ===== src/Hub/Ingress/Unpack.antt =====
-- `_unpack_tar` of stpd/hub/uploads.py. The tar stream is the list of its entries; what the file
-- system answers is a parameter. A failure leaves a directory that the caller throws away.
use sts2_the_perfect_defect.Prelude.{
  ℕ, String, Bool, true, false, ◌&&◌, ◌||◌, not, Option, none, some, List, [], ◌∷◌, ◌==◌, string_eq,
  nat_eq, if◌then◌else◌,
}
use sts2_the_perfect_defect.Prelude.Result.{
  Result, ok, boundary, os_error, key_error, ◌>>=◌, ◌>>◌, guard, expect,
}
use sts2_the_perfect_defect.Contracts.Runtime.{Runtime}
use sts2_the_perfect_defect.Hub.Ingress.Paths.{is_plain}

-- `tarfile.TarInfo`, with what `extractfile` reads of the entry, a character for a byte
pub record TarEntry : Type 0 where
  pub name : String
  pub is_file : Bool
  pub size : ℕ
  pub content : Option String

-- An entry of the inventory of a `DirectoryTransferManifest`
pub record TransferFile : Type 0 where
  pub path : String
  pub bytes : ℕ
  pub sha256 : String

pub record Written : Type 0 where
  pub path : String
  pub content : String

abbrev pub Directory : Type 0
Directory = List Written

-- Whether the file system makes the parent of a name, and a new file of that name; if it does not,
-- the answer is an OSError.
pub record Disk : Type 0 where
  pub makes_parent : Directory → String → Bool
  pub creates : Directory → String → Bool

-- `{file.path: file for file in files}`: a later file of the same path replaces an earlier one.
unfoldable pub expected : String → List TransferFile → Option TransferFile
expected name [] = none
expected name (f ∷ fs) = elim (expected name fs) [
  | some g ↦ some g
  | none ↦ if f.path == name then some f else none
]

unfoldable pub is_expected : Option TransferFile → Bool
is_expected none = false
is_expected (some f) = true

unfoldable pub has : String → List String → Bool
has name [] = false
has name (n ∷ ns) = n == name || has name ns

-- The names seen, and the files written
pub record Progress : Type 0 where
  pub seen : List String
  pub directory : Directory

-- `seen` holds expected names only, so that it is the set of them when it holds them all.
unfoldable pub all_seen : List TransferFile → List String → Bool
all_seen [] seen = true
all_seen (f ∷ fs) seen = has f.path seen && all_seen fs seen

module _ (rt : Runtime) (disk : Disk) (files : List TransferFile) where
  unfoldable pub unpack_entry : TarEntry → Progress → Result Progress
  unpack_entry entry p = do
    guard
        (entry.is_file
          && is_expected (expected entry.name files)
          && not (has entry.name p.seen)
          && is_plain entry.name)
        (boundary "upload" "archive_inventory_mismatch")
    declared ← expect (expected entry.name files) key_error
    guard (entry.size == declared.bytes) (boundary "upload" "archive_entry_size_mismatch")
    guard (disk.makes_parent p.directory entry.name) os_error
    content ← expect entry.content (boundary "upload" "archive_member_missing")
    guard (disk.creates p.directory entry.name) os_error
    guard (rt.sha256 content == declared.sha256) (boundary "upload" "member_hash_mismatch")
    ok (record {
      seen = entry.name ∷ p.seen;
      directory = record { path = entry.name; content = content } ∷ p.directory;
    })

  unfoldable pub unpack_entries : List TarEntry → Progress → Result Progress
  unpack_entries [] p = ok p
  unpack_entries (e ∷ es) p = do q ← unpack_entry e p; unpack_entries es q

  unfoldable pub unpack_tar : List TarEntry → Result Directory
  unpack_tar entries = do
    p ← unpack_entries entries (record { seen = []; directory = [] })
    guard (all_seen files p.seen) (boundary "upload" "missing_archive_members")
    ok p.directory
