-- ===== src/Osiris/Files.antt =====
-- The files of a run: what a file holds by its name, and whether a file can be opened for writing.
use osiris_arm.Common.{
  ◌≡◌, refl, Bytes, str_eq, str_eq_iff, List, [], ◌∷◌, Option, none, some, if◌then◌else◌, arith,
}

abbrev pub Files : Type 0
Files = List (Bytes × Bytes)

unfoldable pub read_file : Bytes → Files → Option Bytes
read_file name [] = none
read_file name ((other, content) ∷ files) =
    if str_eq name other then some content else read_file name files

-- a file is created, or its content is replaced
unfoldable pub write_file : Bytes → Bytes → Files → Files
write_file name content [] = (name, content) ∷ []
write_file name content ((other, old) ∷ files) =
    if str_eq name other
    then (other, content) ∷ files
    else (other, old) ∷ write_file name content files

-- What is read behind a write: the content under the name, and the old files under others.
pub read_file-write_file :
    (query name content : Bytes) (files : Files)
    → read_file query (write_file name content files)
      ≡ (if str_eq query name then some content else read_file query files)
unfolding read_file write_file
read_file-write_file query name content [] = refl
read_file-write_file query name content ((other, old) ∷ files) = ground (
  arith,
  str_eq_iff query name,
  str_eq_iff query other,
  str_eq_iff name other,
  read_file-write_file query name content files,
)
