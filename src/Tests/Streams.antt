-- ===== src/Tests/Streams.antt =====
-- Containers and blocks over a disk of numbered bytes.
use emile.Common.{
  ℕ, ◌-◌, ◌*◌, get_or, min, ◌≡◌, refl, true, some, none, [], ◌∷◌, Bytes, arith, ltb, if◌then◌else◌,
}
use emile.Common.Int.{pos, negsuc}
use emile.Common.Slice.{slice}
use emile.Device.{Device, Serves, seek_cur, seek_end}
use emile.Container.{ContainerFile, container_read, returned}
use emile.Container.Read.{Delivers}
use emile.Container.Open.{opened, dangling, decode_container, container_open, container_lseek}
use emile.Container.Laws.{IsPath, fresh, Seeks, container_lseek-Seeks, container_open-IsPath}
use emile.Block.{BlockFile, block_read}
use emile.Block.Read.{block_read-Delivers}
use emile.Block
use emile.Block.Read as BlockRead
use emile.Unix.{digit_of}
use emile.Iso.{IsoFile, iso9660_read, iso9660_lseek}
use emile.Iso.Read as IsoRead
use emile.Iso.Read.{iso9660_read-Delivers}
use emile.Iso.Seek as IsoSeek
use emile.Iso.Seek.{iso9660_lseek-Seeks}

-- The table of a container of 7 bytes: blocks 5 and 6, then block 9, of 4 bytes each.
abbrev table_bytes : Bytes
table_bytes =
    0 ∷ 0 ∷ 0 ∷ 7 ∷ 0 ∷ 0 ∷ 0 ∷ 5 ∷ 0 ∷ 1 ∷ 0 ∷ 0 ∷ 0 ∷ 9 ∷ 0 ∷ 1 ∷ 0 ∷ 0 ∷ 0 ∷ 0 ∷ 0 ∷ 0 ∷ 0 ∷ 0
    ∷ []

abbrev disk : ℕ → ℕ
disk p = if ltb p 64 then p else 255

abbrev small_disk : Device
small_disk = record { blocksize = 4; read_sector = λ sector n. some (slice disk (sector * 4) n) }

serves_small : Serves small_disk disk
serves_small sector n got e = cc

abbrev small_file : ContainerFile
small_file = record {
  offset = 2;
  container = decode_container table_bytes;
  current_block = 0;
  buffer = [];
}

-- The bytes 2 and 3 of block 5, then block 9 with one byte behind the end of the file.
read_runs :
    container_read small_disk small_file 10
    ≡ returned
        (22 ∷ 23 ∷ 36 ∷ 37 ∷ 38 ∷ 39 ∷ [])
        (record small_file { offset = 8; current_block = 9; buffer = 36 ∷ 37 ∷ 38 ∷ 39 ∷ [] })
unfolding container_read decode_container
read_runs = refl

lseek_example : Seeks small_file (some (pos 5)) (container_lseek small_file (pos 3) seek_cur)
lseek_example = container_lseek-Seeks small_file (pos 3) seek_cur (omega arith)

sample-IsPath : IsPath (b'1' ∷ b'2' ∷ []) (b'7' ∷ [])
unfolding digit_of
sample-IsPath = record {
  first_leads = omega arith;
  first_digits = omega arith;
  blocks_lead = omega arith;
  blocks_digits = omega arith;
}

-- The table lies at block 12.
abbrev booted_disk : ℕ → ℕ
booted_disk p = if ltb p 48 then p else if ltb p 72 then get_or table_bytes (p - 48) 0 else 0

abbrev boot_device : Device
boot_device = record {
  blocksize = 4;
  read_sector = λ sector n. some (slice booted_disk (sector * 4) n);
}

abbrev refusing : Device
refusing = record { blocksize = 4; read_sector = λ sector n. none }

abbrev block_file : BlockFile
block_file = record {
  base = 1;
  offset = 2;
  size = none;
  current = none;
  buffer_size = 2;
  buffer = [];
}

block_runs :
    block_read small_disk block_file 5
    ≡ Block.returned
        (6 ∷ 7 ∷ 8 ∷ 9 ∷ 10 ∷ [])
        (record block_file { offset = 7; current = some 1; buffer = slice disk 8 8 })
unfolding block_read
block_runs = refl

block_read_example :
    BlockRead.Delivers small_disk disk block_file 5 [] (block_read small_disk block_file 5)
block_read_example =
    block_read-Delivers small_disk disk serves_small (omega arith) block_file 5
      (record { cached = λ c e. cc; room = omega arith })
      (record { blocks = omega arith; group = omega arith; offsets = omega arith })

container_open_refused :
    ((table : Bytes)
      → refusing.read_sector 12 28 ≡ some table
      → container_open refusing (λ _. true) (b'1' ∷ b'2' ∷ b',' ∷ b'7' ∷ []) ≡ opened (fresh table))
    × (refusing.read_sector 12 28 ≡ none
        → container_open refusing (λ _. true) (b'1' ∷ b'2' ∷ b',' ∷ b'7' ∷ []) ≡ dangling)
unfolding digit_of
container_open_refused =
    container_open-IsPath refusing (λ _. true) (b'1' ∷ b'2' ∷ []) (b'7' ∷ []) sample-IsPath refl
      refl

abbrev iso_file : IsoFile
iso_file = record { base = 1; size = 5000; offset = 2047; current = none; buffer = [] }

abbrev iso_device : Device
iso_device = record {
  blocksize = 2048;
  read_sector = λ sector n. some (slice disk (sector * 2048) n);
}

iso9660_read_example :
    IsoRead.Delivers disk iso_file
      (min 4000 (5000 - 2047))
      []
      (iso9660_read iso_device (λ p. 0) iso_file 4000)
iso9660_read_example =
    iso9660_read-Delivers iso_device disk (λ p. 0) (λ sector n. refl) iso_file 4000
      (record { inside = omega arith; ints = omega arith; cached = λ c e. cc })

iso9660_lseek_example :
    IsoSeek.Seeks iso_file (pos 4999) (iso9660_lseek iso_file (negsuc 0) seek_end)
iso9660_lseek_example = iso9660_lseek-Seeks iso_file (negsuc 0) seek_end (omega arith)
