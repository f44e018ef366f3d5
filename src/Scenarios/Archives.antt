-- ===== src/Scenarios/Archives.antt =====
-- An archive of two files, one of them in a folder.
use sts2_the_perfect_defect.Prelude.{◌≡◌, refl, true, some, List, [], ◌∷◌}
use sts2_the_perfect_defect.Prelude.Result.{ok, ◌>>=◌}
use sts2_the_perfect_defect.Hub.Ingress.{
  TarEntry, TransferFile, Directory, Disk, expected, is_expected, has, unpack_entry, unpack_entries,
  all_seen, unpack_tar, same_part, push, split, kept, leading, root, join, or_dot, as_posix, parts,
  any_part, has_code, is_plain,
}
use sts2_the_perfect_defect.Hub.Ingress.Exact.{unpack_tar-IsUnpacked, IsUnpacked}
use sts2_the_perfect_defect.Scenarios.Data.{rt}

-- A file system that makes every file
abbrev roomy : Disk
roomy = record { makes_parent = λ d n. true; creates = λ d n. true }

abbrev inventory : List TransferFile
inventory =
    record { path = "run.json"; bytes = 3; sha256 = "abc" }
    ∷ record { path = "shots/1"; bytes = 2; sha256 = "de" }
    ∷ []

abbrev archive : List TarEntry
archive =
    record { name = "shots/1"; is_file = true; size = 2; content = some "de" }
    ∷ record { name = "run.json"; is_file = true; size = 3; content = some "abc" }
    ∷ []

abbrev unpacked : Directory
unpacked =
    record { path = "run.json"; content = "abc" } ∷ record { path = "shots/1"; content = "de" } ∷ []

unpacked_answer : unpack_tar rt roomy inventory archive ≡ ok unpacked
unfolding unpack_tar unpack_entries unpack_entry expected is_expected has all_seen is_plain any_part
    has_code parts as_posix or_dot join root leading kept split push same_part ◌>>=◌
unpacked_answer = refl

unpack_tar-IsUnpacked_example : IsUnpacked rt inventory unpacked
unpack_tar-IsUnpacked_example =
    unpack_tar-IsUnpacked rt inventory roomy archive unpacked unpacked_answer
