-- ===== src/Examples/Filing.antt =====
-- The theorems on files and pages, applied to a note and to a page range.
use lucyd.Base.{◌-◌, Text, ◌≡◌, refl, true, false, some, [], ◌∷◌, ◌++◌, lit}
use lucyd.Pdf.{Parsed, nat, not_int}
use lucyd.Files.{
  Entry, file, Disk, Access, Call, write, edit, path_of, run_call, universal_newlines, tool_edit,
  entry_at,
}
use lucyd.Files.Confined.{Confined, run_call-Confined}
use lucyd.Files.Edits.{Translated, tool_edit-Once}

abbrev access : Access
access = record {
  resolve = λ p. some p;
  name = λ p. p;
  readable = λ p. true;
  writable = λ p. true;
  allow = lit "/w" ∷ [];
  locked_basenames = lit "SOUL.md" ∷ [];
  default_read_limit = 2000;
  separator = lit "/";
}

abbrev disk : Disk
disk = record {
  entries = (lit "/w/a", file (lit "one two")) ∷ (lit "/w/b", file (lit "three")) ∷ [];
}

abbrev overwrite : Call
overwrite = write (lit "/w/a") (lit "four")

run_call-Confined_example :
    Confined access (path_of overwrite) disk (run_call access overwrite disk)
run_call-Confined_example = run_call-Confined access overwrite disk

-- a file with the line ends of Windows
abbrev two_lines : Text
two_lines = lit "one" ++ (13 ∷ 10 ∷ lit "two")

abbrev windows_disk : Disk
windows_disk = record { entries = (lit "/w/a", file two_lines) ∷ [] }

tool_edit-Once_example :
    (pre post : Text) × (d' : Disk) × Translated two_lines (universal_newlines two_lines)
    × (universal_newlines two_lines ≡ pre ++ (lit "two" ++ post))
    × (tool_edit access (lit "/w/a") (lit "two") (lit "2") false windows_disk
        ≡ some (d', lit "Edited " ++ lit "/w/a"))
    × (entry_at (lit "/w/a") d'.entries ≡ some (file (pre ++ (lit "2" ++ post))))
unfolding lucyd.Files.is_locked lit lucyd.Files.check_path entry_at lucyd.Base.contains
    lucyd.Files.count_text universal_newlines lucyd.Files.newlines_from
tool_edit-Once_example =
    tool_edit-Once access (lit "/w/a") (lit "/w/a") (lit "two") (lit "2") two_lines windows_disk
      refl refl refl refl refl refl refl

-- one digit
abbrev digit : Text → Parsed
digit (c ∷ []) = nat (c - 48)
digit t = not_int
