-- ===== src/Compress.antt =====
-- compress.c: which functions read and write the recording.
pub mod Zstd
use ovh_ttyrec.Base.{Bool, false, if◌then◌else◌, true}

-- `compress_mode_t`; the mode also stands for the three functions that it selects.
pub data CompressMode : Type 0 where
  compress_none compress_zstd : CompressMode

-- `true` is the 0 that is returned. Without zstd at compile time there is no such case.
unfoldable pub set_compress_mode : Bool → CompressMode → CompressMode → Bool × CompressMode
set_compress_mode have_zstd compress_none wrappers = (true, compress_none)
set_compress_mode have_zstd compress_zstd wrappers =
    if have_zstd then (true, compress_zstd) else (false, wrappers)
