-- ===== src/Container/Laws.antt =====
-- What `container_open` and `container_lseek` hand to `container_read`.
use emile.Common.{
  ℕ, ◌+◌, ◌*◌, ◌%◌, ◌^◌, ◌≤◌, ◌<◌, ◌≡◌, refl, Bool, true, Option, none, some, [], ◌∷◌, ◌++◌, Bytes,
  arith,
}
use emile.Common.Int.{ℤ, pos, negsuc, ◌+ℤ◌, word32, signed32}
use emile.Device.{Device, Whence, seek_set, seek_cur, seek_end}
use mathlib.Core.List.{append-nil}
use emile.Unix.{strtol, digit_of, head_byte}
use emile.Unix.Strtol.{number, AllDigits, decimal, EndsDigits, strtol-number, unsigned}
use emile.Container.{ContainerFile, ulong}
use emile.Container.Open.{
  opened, dangling, decode_container, container_open, seek_to, container_lseek,
}

-- The offset that a call of `lseek` asks for.
abbrev pub target : ContainerFile → ℤ → Whence → Option ℤ
target file offset seek_set = some offset
target file offset seek_cur = some (pos file.offset +ℤ offset)
target file offset seek_end = none

-- What is left of a seek: a refusal leaves the file alone, and anything else sets the offset.
abbrev pub Seeks : ContainerFile → Option ℤ → ℤ × ContainerFile → Type 0
Seeks file none r = r ≡ (negsuc 0, file)
Seeks file (some (negsuc n)) r = r ≡ (negsuc 0, file)
Seeks file (some (pos n)) r = r ≡ (pos n, record file { offset = n })

-- A target that fits the `long` of the function.
abbrev pub Fits : Option ℤ → Type 0
Fits none = Unit
Fits (some (pos n)) = n < 2 ^ 31
Fits (some (negsuc n)) = n < 2 ^ 31

-- `container_lseek` refuses SEEK_END and a target below 0 with -1, and leaves the file alone; else
-- it sets the offset to the target and returns it. It holds for a target that fits a `long`.
pub container_lseek-Seeks :
    (file : ContainerFile) (offset : ℤ) (whence : Whence)
    → Fits (target file offset whence)
    → Seeks file (target file offset whence) (container_lseek file offset whence)
unfolding container_lseek
container_lseek-Seeks file (pos n) seek_set h = ground arith
container_lseek-Seeks file (negsuc n) seek_set h = ground arith
container_lseek-Seeks file offset seek_cur h = go (pos file.offset +ℤ offset) h
  where
    go : (t : ℤ) → Fits (some t) → Seeks file (some t) (seek_to file (signed32 (word32 t)))
    go (pos n) h = ground arith
    go (negsuc n) h = ground arith
container_lseek-Seeks file offset seek_end h = refl

-- The file that `container_open` builds over a table that was read.
abbrev pub fresh : Bytes → ContainerFile
fresh table = record {
  offset = 0;
  container = decode_container table;
  current_block = 0;
  buffer = [];
}

-- A path "<first>,<blocks>" in decimal.
pub record IsPath (first blocks : Bytes) : Type 0 where
  pub first_leads : (b'1' ≤ head_byte first) × (head_byte first ≤ b'9')
  pub first_digits : AllDigits 10 first
  pub blocks_lead : (b'1' ≤ head_byte blocks) × (head_byte blocks ≤ b'9')
  pub blocks_digits : AllDigits 10 blocks

module _ (dev : Device) (malloc : ℕ → Bool) (first blocks : Bytes)
    (path : IsPath first blocks) where
  -- The block and the number of bytes of the table.
  abbrev table_block : ℕ
  table_block = number 10 first % 2 ^ 32

  abbrev table_size : ℕ
  table_size = ulong (dev.blocksize * (number 10 blocks % 2 ^ 32))

  strtol-blocks : strtol blocks 0 ≡ (number 10 blocks % 2 ^ 32, [])
  strtol-blocks =
      rw append-nil at
        (strtol-number [] unsigned decimal blocks [] tt path.blocks_lead path.blocks_digits tt)

  strtol-first : strtol (first ++ b',' ∷ blocks) 0 ≡ (table_block, b',' ∷ blocks)
  strtol-first =
      strtol-number [] unsigned decimal first (b',' ∷ blocks) tt path.first_leads path.first_digits
        (ends-comma)
    where
      ends-comma : EndsDigits 10 (b',' ∷ blocks)
      ends-comma = unfold digit_of in refl

  -- For a path "<first>,<blocks>" in decimal, with memory at hand, `container_open` opens the table
  -- that the device delivers at the first block, at offset 0; if the device refuses it, a pointer to
  -- the freed file is returned.
  pub container_open-IsPath :
      (malloc (16 + dev.blocksize) ≡ true)
      → malloc table_size ≡ true
      → ((table : Bytes)
          → dev.read_sector table_block table_size ≡ some table
          → container_open dev malloc (first ++ b',' ∷ blocks) ≡ opened (fresh table))
        × (dev.read_sector table_block table_size ≡ none
            → container_open dev malloc (first ++ b',' ∷ blocks) ≡ dangling)
  unfolding container_open
  container_open-IsPath m m' = (
    λ table e. rw (strtol-first, strtol-blocks, m, m', e) refl,
    λ e. rw (strtol-first, strtol-blocks, m, m', e) refl,
  )
