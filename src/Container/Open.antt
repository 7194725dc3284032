-- ===== src/Container/Open.antt =====
-- container_open.c, container_lseek.c, container_fstat.c and container_close.c.
use emile.Common.{
  ℕ, ◌+◌, ◌-◌, ◌*◌, ◌^◌, Bool, not, Option, none, some, List, [], ◌∷◌, Bytes, ◌==◌, if◌then◌else◌,
}
use emile.Common.Int.{ℤ, pos, negsuc, ◌+ℤ◌, word32, signed32}
use emile.Device.{Device, Whence, seek_set, seek_cur, seek_end}
use emile.Unix.{head_byte, tail_bytes, strtol}
use emile.Container.{EmileBlock, EmileContainer, ContainerFile, ulong}

-- Big-endian numbers, as the processors of the booter read them from memory.
abbrev pub be16 : ℕ → ℕ → ℕ
be16 a b = a * 256 + b

abbrev pub be32 : ℕ → ℕ → ℕ → ℕ → ℕ
be32 a b c d = (be16 a b) * 2 ^ 16 + be16 c d

-- The packed entries of `blocks`, as many as the memory holds.
unfoldable pub decode_blocks : Bytes → List EmileBlock
decode_blocks (a ∷ b ∷ c ∷ d ∷ e ∷ f ∷ rest) =
    (record { offset = be32 a b c d; count = be16 e f }) ∷ decode_blocks rest
decode_blocks _ = []

-- `struct emile_container` over the bytes that were read.
unfoldable pub decode_container : Bytes → EmileContainer
unfolding decode_blocks
decode_container (a ∷ b ∷ c ∷ d ∷ rest) = record {
  size = be32 a b c d;
  blocks = decode_blocks rest;
}
decode_container _ = record { size = 0; blocks = [] }

-- What `container_open` comes to. A failed read of the table frees the file and goes on, so that
-- the returned pointer dangles.
pub data Opened : Type 0 where
  null : Opened
  opened : ContainerFile → Opened
  dangling : Opened

-- Both calls of `malloc`, then the read of the table.
load_table : Device → (ℕ → Bool) → ℕ → ℕ → Opened
load_table dev malloc first nbblocs =
    if not (malloc (16 + dev.blocksize))
    then null
    else if not (malloc (ulong (dev.blocksize * nbblocs)))
    then null
    else elim (dev.read_sector first (ulong (dev.blocksize * nbblocs))) [
      | none ↦ dangling
      | some table ↦ opened (record {
        offset = 0;
        container = decode_container table;
        current_block = 0;
        buffer = [];
      })
    ]

-- The path is "<first>,<number of blocks>"; `malloc` says which sizes can be had.
unfoldable pub container_open : Device → (ℕ → Bool) → Bytes → Opened
unfolding load_table
container_open dev malloc path =
    let (first, behind) = strtol path 0 in
    if not (head_byte behind == b',')
    then null
    else let (nbblocs, rest) = strtol (tail_bytes behind) 0 in
      if not (head_byte rest == 0) then null else load_table dev malloc first nbblocs

-- The result of `lseek` and the offset behind it, for the target of the `switch`.
unfoldable pub seek_to : ContainerFile → ℤ → ℤ × ContainerFile
seek_to file (negsuc n) = (negsuc 0, file)
seek_to file (pos n) = (pos n, record file { offset = n })

unfoldable pub container_lseek : ContainerFile → ℤ → Whence → ℤ × ContainerFile
unfolding seek_to
container_lseek file offset seek_set = seek_to file (signed32 (word32 offset))
container_lseek file offset seek_cur = seek_to file (signed32 (word32 (pos file.offset +ℤ offset)))
container_lseek file offset seek_end = (negsuc 0, file)

-- `container_fstat` with a buffer: the size, but for a size of -1. (`none` is the return of -1.)
unfoldable pub container_fstat : ContainerFile → Option ℕ
container_fstat file = if file.container.size == 2 ^ 32 - 1 then none else some file.container.size
