-- ===== src/LibEmile/Created.antt =====
-- A container that `emile_scsi_create_container` makes, and `container_read` over it.
use emile.Common.{ℕ, ◌+◌, ◌*◌, ◌/◌, ◌%◌, ◌^◌, ◌≤◌, ◌<◌, ◌≡◌, Option, some, [], Bytes}
use emile.Device.{Device}
use emile.Container.{EmileContainer, ContainerFile}
use emile.Container.Map.{contents, total, IsTable}
use emile.LibEmile.{System, sector_size, blocks_of}

-- A file of `size` bytes in blocks of `spb` sectors, where the system maps block `k` of the file to
-- block `phys k` of the file system: the numbers fit the entries of a table, no extent begins at
-- sector 0, and each sector of the file satisfies `P`.
pub record IsMapped (P : ℕ → Type 0) (sys : System) (phys : ℕ → ℕ) (first spb size n : ℕ)
    : Type 0 where
  pub stat : sys.st_size ≡ some size
  pub start : sys.first_block ≡ some first
  pub bsize : sys.block_size ≡ some (spb * sector_size)
  pub some_bytes : 0 < size
  pub word : size < 2 ^ 32
  pub blocks : blocks_of size (spb * sector_size) ≡ n
  pub positive : 0 < spb
  pub answers : (k : ℕ) → k < n → sys.fibmap k ≡ some (phys k)
  pub small : n * spb < 2 ^ 16
  pub words : (l : ℕ) → l < n → first + phys l * spb + n * spb < 2 ^ 32
  pub beyond : (l : ℕ) → l < n → 0 < first + phys l * spb
  pub ready : (l i : ℕ) → l < n → i < spb → P (first + phys l * spb + i)

-- The container describes the file.
pub record IsContainer (P : ℕ → Type 0) (disk : ℕ → ℕ) (phys : ℕ → ℕ) (first spb size : ℕ)
    (c : EmileContainer) : Type 0 where
  pub same_size : c.size ≡ size
  pub table : IsTable P c.blocks
  pub fits : size ≤ total sector_size c.blocks
  pub words : total sector_size c.blocks < 2 ^ 32
  pub bytes :
      (p : ℕ)
      → p < total sector_size c.blocks
      → contents disk sector_size c.blocks p
        ≡ disk
            ((first + phys (p / (spb * sector_size)) * spb) * sector_size + p % (spb * sector_size))

-- A disk of sectors, as a device.
abbrev pub sectors : (ℕ → ℕ → Option Bytes) → Device
sectors read = record { blocksize = sector_size; read_sector = read }

-- An open file over a container, at an offset.
abbrev pub opened_at : EmileContainer → ℕ → ContainerFile
opened_at c offset = record { offset = offset; container = c; current_block = 0; buffer = [] }
