-- ===== src/Ttyrec/FileName/Script.antt =====
-- `main` of ttyrec.c: how the file of a recording is called, and the directory of those that follow it.
use ovh_ttyrec.Base.{Bool, Option, [], if◌then◌else◌, none, some, ◌++◌}
use ovh_ttyrec.Ttyrec.CommandLine.{Text}
use ovh_ttyrec.Ttyrec.FileName.{text_zst}

-- `generated` is what `set_ttyrec_file_name` makes, `none` where it ends the program.
unfoldable pub script_name : Bool → Option Text → Option Text → Option Text
script_name opt_zstd generated none = generated
script_name opt_zstd generated (some fname) = some (fname ++ (if opt_zstd then text_zst else []))

-- The directory that is given, or that of the file.
unfoldable pub script_dir : (Text → Text) → Option Text → Text → Text
script_dir dirname none name = dirname name
script_dir dirname (some dname) name = dname

-- The mode that `fopen` is given: "a" or "w".
pub data OpenMode : Type 0 where
  for_append for_write : OpenMode

unfoldable pub open_mode : Bool → OpenMode
open_mode opt_append = if opt_append then for_append else for_write
