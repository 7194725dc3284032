-- ===== src/Ext2/Address.antt =====
-- `ext2_get_block_addr` against a walk over the blocks of the disk.
use emile.Common.{
  ℕ, zero, suc, ◌+◌, ◌-◌, ◌*◌, ◌/◌, ◌%◌, ◌^◌, ◌≤◌, ◌<◌, ◌≡◌, refl, ap, ◌∙◌, inl, inr, some, List,
  [], ◌∷◌, arith, ltb, if◌then◌else◌, Bool-cases, get_or,
}
use emile.Common.Slice.{slice}
use emile.Common.Arith.{quotient_of}
use emile.Device.{Device}
use emile.Ext2.{
  Layout, Volume, Inode, sector_of, ext2_read_block, le32_at, read_entry, square, double_indirect,
  ext2_get_block_addr,
}

get_or-slice : (f : ℕ → ℕ) (s n i : ℕ) → i < n → get_or (slice f s n) i 0 ≡ f (s + i)
get_or-slice f s zero i h = absurd (omega arith)
get_or-slice f s (suc n) zero h = ap f (omega arith)
get_or-slice f s (suc n) (suc i) h = get_or-slice f (s + 1) n i (omega arith) ∙ ap f (omega arith)

-- Address `index` in block `b` of the disk.
abbrev pub word_at : (ℕ → ℕ) → Layout → ℕ → ℕ → ℕ
word_at disk layout b index =
    disk (b * layout.block_size + 4 * index)
    + 2 ^ 8 * disk (b * layout.block_size + (4 * index + 1))
    + 2 ^ 16 * disk (b * layout.block_size + (4 * index + 2))
    + 2 ^ 24 * disk (b * layout.block_size + (4 * index + 3))

-- The blocks that a walk from block `b` along indices reads, and the address that it ends at.
abbrev pub walk : (ℕ → ℕ) → Layout → ℕ → List ℕ → ℕ
walk disk layout b [] = b
walk disk layout b (i ∷ path) = walk disk layout (word_at disk layout b i) path

-- Each block on the walk is readable, and each index lies in a block.
abbrev pub Walkable : (ℕ → Type 0) → (ℕ → ℕ) → Layout → ℕ → List ℕ → Type 0
Walkable P disk layout b [] = P b
Walkable P disk layout b (i ∷ path) =
    P b × (i < layout.addr_per_block) × Walkable P disk layout (word_at disk layout b i) path

-- The blocks of a file in front of those behind the triple indirect block
abbrev pub reach : Layout → ℕ
reach layout = let a = layout.addr_per_block in layout.ndir_blocks + a + a * a

-- Where the walk to such a block of the file begins, and its indices
abbrev pub root_of : Layout → Inode → ℕ → ℕ
root_of layout inode logical =
    if ltb logical layout.ndir_blocks
    then get_or inode.i_block logical 0
    else if ltb (logical - layout.ndir_blocks) layout.addr_per_block
    then get_or inode.i_block layout.ind_block 0
    else get_or inode.i_block layout.dind_block 0

abbrev pub double_path : Layout → ℕ → List ℕ
double_path layout l = l / layout.addr_per_block ∷ l % layout.addr_per_block ∷ []

abbrev pub path_of : Layout → ℕ → List ℕ
path_of layout logical =
    let a = layout.addr_per_block in
    if ltb logical layout.ndir_blocks
    then []
    else if ltb (logical - layout.ndir_blocks) a
    then (logical - layout.ndir_blocks) ∷ []
    else double_path layout (logical - layout.ndir_blocks - a)

-- The device delivers block `b` of the file system, which is `scale` of its own blocks.
pub record Readable (dev : Device) (disk : ℕ → ℕ) (layout : Layout) (b : ℕ) : Type 0 where
  pub scale : ℕ
  pub some_bytes : 0 < dev.blocksize
  pub scaled : layout.block_size ≡ scale * dev.blocksize
  pub fits : b * scale < 2 ^ 32
  pub reads :
      dev.read_sector (b * scale) layout.block_size
      ≡ some (slice disk (b * layout.block_size) layout.block_size)

-- A block of a file that is at the end of such a walk, of blocks that the device delivers
abbrev pub IsLocated : Device → (ℕ → ℕ) → Layout → Inode → ℕ → Type 0
IsLocated dev disk layout inode l =
    (l < reach layout)
    × Walkable (Readable dev disk layout) disk layout (root_of layout inode l) (path_of layout l)

-- The number of the device block is that of the file system, scaled.
sector_of-Readable :
    (dev : Device) (disk : ℕ → ℕ) (layout : Layout) (b : ℕ)
    → (r : Readable dev disk layout b) → sector_of dev layout b ≡ b * r.scale
sector_of-Readable dev disk layout b r =
    ap (λ n. b * n % 2 ^ 32)
      (ap (λ n. n / dev.blocksize) (r.scaled ∙ omega arith)
        ∙ quotient_of dev.blocksize r.scale 0 r.some_bytes)
    ∙ omega (arith, r.fits)

pub reads_at :
    (dev : Device) (disk : ℕ → ℕ) (layout : Layout) (b : ℕ)
    → Readable dev disk layout b
    → dev.read_sector (sector_of dev layout b) layout.block_size
      ≡ some (slice disk (b * layout.block_size) layout.block_size)
reads_at dev disk layout b r =
    ap (λ n. dev.read_sector n layout.block_size) (sector_of-Readable dev disk layout b r) ∙ r.reads

-- The buffer holds the current block.
pub record IsVolume (disk : ℕ → ℕ) (layout : Layout) (volume : Volume) : Type 0 where
  pub cached : volume.buffer ≡ slice disk (volume.current * layout.block_size) layout.block_size

pub record IsLayout (layout : Layout) : Type 0 where
  pub words : 4 * layout.addr_per_block ≤ layout.block_size
  pub square_fits : layout.addr_per_block * layout.addr_per_block < 2 ^ 32
  pub some_addresses : 0 < layout.addr_per_block

module _ (dev : Device) (disk : ℕ → ℕ) (layout : Layout) (is_layout : IsLayout layout) where
  -- the volume with block `b` in its buffer
  abbrev pub holding : ℕ → Volume
  holding b = record { current = b; buffer = slice disk (b * layout.block_size) layout.block_size }

  pub ext2_read_block-holding :
      (volume : Volume) (b : ℕ)
      → IsVolume disk layout volume
      → Readable dev disk layout b
      → ext2_read_block dev layout volume b ≡ holding b
  unfolding ext2_read_block
  ext2_read_block-holding volume b h r = ground (arith, h.cached, reads_at dev disk layout b r)

  le32_at-word_at :
      (b index : ℕ)
      → index < layout.addr_per_block
      → le32_at (holding b).buffer index ≡ word_at disk layout b index
  le32_at-word_at b index lt =
      rw
        (
          get_or-slice disk (b * layout.block_size) layout.block_size (4 * index)
              (omega (arith, is_layout.words)),
          get_or-slice disk (b * layout.block_size) layout.block_size (4 * index + 1)
              (omega (arith, is_layout.words)),
          get_or-slice disk (b * layout.block_size) layout.block_size (4 * index + 2)
              (omega (arith, is_layout.words)),
          get_or-slice disk (b * layout.block_size) layout.block_size (4 * index + 3)
              (omega (arith, is_layout.words)),
        )
        refl

  read_entry-word_at :
      (volume : Volume) (b index : ℕ)
      → IsVolume disk layout volume
      → Readable dev disk layout b
      → index < layout.addr_per_block
      → read_entry dev layout volume b index ≡ (holding b, word_at disk layout b index)
  unfolding read_entry
  read_entry-word_at volume b index h r lt =
      rw (ext2_read_block-holding volume b h r, le32_at-word_at b index lt) refl

  abbrev Found : Volume × ℕ → ℕ → Type 0
  Found r address = (v : Volume) × (r ≡ (v, address)) × IsVolume disk layout v

  holding-IsVolume : (b : ℕ) → IsVolume disk layout (holding b)
  holding-IsVolume b = record { cached = refl }

  one_step :
      (volume : Volume) (b i : ℕ)
      → IsVolume disk layout volume
      → Walkable (Readable dev disk layout) disk layout b (i ∷ [])
      → Found (read_entry dev layout volume b i) (walk disk layout b (i ∷ []))
  one_step volume b i h (r, lt, _) =
      (holding b, read_entry-word_at volume b i h r lt, holding-IsVolume b)

  double_indirect-walk :
      (volume : Volume) (inode : Inode) (l : ℕ)
      → IsVolume disk layout volume
      → Walkable
          (Readable dev disk layout)
          disk
          layout
          (get_or inode.i_block layout.dind_block 0)
          (double_path layout l)
      → Found
          (double_indirect dev layout volume inode l)
          (walk disk layout (get_or inode.i_block layout.dind_block 0) (double_path layout l))
  unfolding double_indirect
  double_indirect-walk volume inode l h (r, lt, (r', lt', _)) =
      let b = get_or inode.i_block layout.dind_block 0 in
      let first = l / layout.addr_per_block in
      let b' = word_at disk layout b first in
      (
        holding b',
        rw
            (
              read_entry-word_at volume b first h r lt,
              read_entry-word_at (holding b) b' (l % layout.addr_per_block) (holding-IsVolume b) r'
                  lt',
            )
            refl,
        holding-IsVolume b',
      )

  square-eq : square layout ≡ layout.addr_per_block * layout.addr_per_block
  square-eq = omega (arith, is_layout.square_fits)

  -- `ext2_get_block_addr` returns the address that the walk over the blocks of the disk ends at: the
  -- entry of the inode, or the one behind one or two blocks of addresses; and the buffer still
  -- holds the current block. It holds for a block of at least four bytes an address, a
  -- square of the addresses below 2 ^ 32, a buffer that holds the current block, a walk whose
  -- blocks the device delivers and whose indices lie in a block, and a block of the file in front of
  -- those behind the triple indirect block.
  pub ext2_get_block_addr-walk :
      (volume : Volume) (inode : Inode) (logical : ℕ)
      → IsVolume disk layout volume
      → IsLocated dev disk layout inode logical
      → (v : Volume) × (ext2_get_block_addr dev layout volume inode logical
          ≡ (v, walk disk layout (root_of layout inode logical) (path_of layout logical)))
        × IsVolume disk layout v
  unfolding ext2_get_block_addr
  ext2_get_block_addr-walk volume inode logical h (inside, w) =
      elim (Bool-cases (ltb logical layout.ndir_blocks)) [
        | inl direct ↦ rw direct (volume, refl, h)
        | inr beyond ↦
            elim (Bool-cases (ltb (logical - layout.ndir_blocks) layout.addr_per_block)) [
              | inl single ↦ rw (beyond, single) (one_step volume _ _ h (rw (beyond, single) at w))
              | inr beyond' ↦
                  elim (Bool-cases (
                    ltb (logical - layout.ndir_blocks - layout.addr_per_block)
                      (layout.addr_per_block * layout.addr_per_block))) [
                        | inl double ↦
                            rw (square-eq, beyond, beyond', double)
                              (double_indirect-walk volume inode _ h (rw (beyond, beyond') at w))
                        | inr triple ↦ absurd (ground arith)
                      ]
            ]
      ]
