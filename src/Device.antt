-- ===== src/Device.antt =====
-- The device that a file system reads (libstream/libstream.h).
use emile.Common.{ℕ, ◌*◌, ◌≡◌, Option, some, Bytes}
use emile.Common.Slice.{slice}

-- `device_io_t`, as far as the file systems use it: `get_blocksize`, and `read_sector` with a
-- block number and a number of bytes. `none` is the -1 of a failed read.
pub record Device : Type 0 where
  pub blocksize : ℕ
  pub read_sector : ℕ → ℕ → Option Bytes

-- What a file system relies on: a read that succeeds delivers the bytes of the disk.
abbrev pub Serves : Device → (ℕ → ℕ) → Type 0
Serves dev disk =
    (sector n : ℕ) (got : Bytes)
    → dev.read_sector sector n ≡ some got
    → got ≡ slice disk (sector * dev.blocksize) n

-- `whence` of an `lseek`
pub data Whence : Type 0 where
  seek_set seek_cur seek_end : Whence
