-- ===== src/Container/Read.antt =====
-- `container_read` against the bytes of the container by position.
use emile.Common.{
  ℕ, ◌+◌, ◌-◌, ◌*◌, ◌^◌, ◌≤◌, ◌<◌, ◌≡◌, ◌≢◌, some, ◌++◌, Bytes, ltb, if◌then◌else◌, min,
}
use emile.Common.Arith.{round_up}
use emile.Common.Slice.{slice}
use emile.Device.{Device, Serves}
use emile.Container.{ContainerFile, ulong, ReadOutcome, returned}
use emile.Container.Map.{contents, total, IsTable}

-- The device delivers block `b`.
abbrev pub Readable : Device → ℕ → Type 0
Readable dev b = (got : Bytes) × (dev.read_sector b dev.blocksize ≡ some got)

-- A file over a disk: its table is in order, holds `size` bytes, and a loaded block is in the buffer.
pub record IsFile (dev : Device) (disk : ℕ → ℕ) (file : ContainerFile) : Type 0 where
  pub table : IsTable (Readable dev) file.container.blocks
  pub fits : file.container.size ≤ total dev.blocksize file.container.blocks
  pub words : total dev.blocksize file.container.blocks < 2 ^ 32
  pub cached :
      file.current_block ≢ 0
      → file.buffer ≡ slice disk (file.current_block * dev.blocksize) dev.blocksize

-- The bytes that a call can return: the rest of the file, up to the end of its last block.
abbrev pub readable : ℕ → ℕ → ℕ → ℕ → ℕ
readable bs file_size offset size =
    if ltb offset file_size then min size (round_up bs file_size - offset) else 0

module _ (dev : Device) (disk : ℕ → ℕ) (serves : Serves dev disk) (pos : 0 < dev.blocksize) where
  -- the file with block `b` in its buffer
  abbrev with_block : ContainerFile → ℕ → ContainerFile
  with_block file b = record file {
    current_block = b;
    buffer = slice disk (b * dev.blocksize) dev.blocksize;
  }

  pub record Delivers (file : ContainerFile) (size : ℕ) (done : Bytes) (r : ReadOutcome)
      : Type 0 where
    pub file' : ContainerFile
    pub returns :
        r
        ≡ returned
            (done
              ++ slice
                  (contents disk dev.blocksize file.container.blocks)
                  file.offset
                  (readable dev.blocksize file.container.size file.offset size))
            file'
    pub advanced :
        file'.offset ≡ file.offset + readable dev.blocksize file.container.size file.offset size
    pub kept : file'.container ≡ file.container
    pub is_file : IsFile dev disk file'

  -- The file after a round.
  abbrev after_part : ContainerFile → ℕ → ℕ → ContainerFile
  after_part file b part = record (with_block file b) { offset = ulong (file.offset + part) }
