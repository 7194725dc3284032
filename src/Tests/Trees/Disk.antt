-- ===== src/Tests/Trees/Disk.antt =====
-- A disk with a tree of directories: the file /d/f, and the link /d/l to it.
use mathlib.Core.Path.{subst}
use emile.Common.{
  ℕ, zero, suc, ◌*◌, ◌<◌, ◌≡◌, refl, sym, ◌∙◌, some, none, List, [], ◌∷◌, ◌++◌, Bytes, arith, ◌==◌,
  if◌then◌else◌, get_or,
}
use emile.Common.Slice.{slice}
use emile.Device.{Device}
use emile.Ext2.{Layout, Volume, Inode}
use emile.Ext2.Address.{IsLocated, Readable, IsLayout}
use emile.Ext2.Directory.{Format, Entry, inode_of, entry_of}
use emile.Ext2.Directory.Search.{lookup, IsName, Lists, IsDirectory}
use emile.Ext2.Directory.Path.{Passes, inode_at}
use emile.Ext2.Open.Found.{IsInode}

abbrev pub layout : Layout
layout = record {
  block_size = 32;
  addr_per_block = 8;
  ndir_blocks = 2;
  ind_block = 2;
  dind_block = 3;
}

-- Two inodes a block, of a mode, a size and two addresses
abbrev pub format : Format
format = record {
  root_ino = 2;
  first_data_block = 1;
  desc_per_block = 4;
  desc_size = 8;
  inode_table_place = 0;
  inodes_per_group = 8;
  inode_size = 16;
  mode_place = 0;
  size_place = 4;
  block_place = 8;
  n_blocks = 2;
  is_link = λ mode. mode == 2;
  is_dir = λ mode. mode == 1;
  entry_size = 16;
  ino_place = 0;
  rec_len_place = 4;
  name_len_place = 6;
  name_place = 8;
}

abbrev zeros : ℕ → Bytes
zeros zero = []
zeros (suc n) = 0 ∷ zeros n

abbrev pub long : ℕ → Bytes
long n = n ∷ 0 ∷ 0 ∷ 0 ∷ []

abbrev an_inode : ℕ → ℕ → Bytes → Bytes
an_inode mode size block = long mode ++ (long size ++ (block ++ zeros 4))

-- A record of 12 bytes with a name of one
abbrev pub a_record : ℕ → ℕ → Bytes
a_record ino c = long ino ++ (12 ∷ 0 ∷ 1 ∷ 0 ∷ c ∷ 0 ∷ 0 ∷ 0 ∷ [])

-- The blocks: none, the super block, the descriptors, inodes 1 to 6, two directories, and a file.
-- Inode 5 is a link to f.
abbrev image : Bytes
image =
    zeros 32
    ++ (long 1 ++ long 0 ++ long 8 ++ long 83 ++ long 1 ++ long 16 ++ zeros 8)
    ++ (long 3 ++ zeros 28)
    ++ (zeros 16 ++ an_inode 1 24 (long 6))
    ++ (an_inode 1 24 (long 7) ++ an_inode 0 5 (long 8))
    ++ (an_inode 2 1 (long b'f') ++ zeros 16)
    ++ (a_record 2 b'.' ++ a_record 3 b'd' ++ zeros 8)
    ++ (a_record 4 b'f' ++ a_record 5 b'l' ++ zeros 8)
    ++ (b'h' ∷ b'e' ∷ b'l' ∷ b'l' ∷ b'o' ∷ zeros 27)

abbrev pub disk : ℕ → ℕ
disk p = get_or image p 0

abbrev pub disk_device : Device
disk_device = record { blocksize = 16; read_sector = λ sector n. some (slice disk (sector * 16) n) }

abbrev pub volume : Volume
volume = record { current = 0; buffer = slice disk 0 32 }

abbrev an_entry : ℕ → ℕ → Entry
an_entry ino c = record { inode = ino; rec_len = 12; name = c ∷ [] }

abbrev pub tree : ℕ → List Entry
tree ino =
    if ino == 2
    then an_entry 2 b'.' ∷ an_entry 3 b'd' ∷ []
    else an_entry 4 b'f' ∷ an_entry 5 b'l' ∷ []

pub mapped :
    (inode : Inode)
    → (inode.i_size < 33)
    → Readable disk_device disk layout (get_or inode.i_block 0 0)
    → (l : ℕ) → l * 32 < inode.i_size
    → IsLocated disk_device disk layout inode l
mapped inode small r zero lt = (omega arith, r)
mapped inode small r (suc l) lt = absurd (omega arith)

pub layout-IsLayout : IsLayout layout
layout-IsLayout = record {
  words = omega arith;
  square_fits = omega arith;
  some_addresses = omega arith;
}

directory :
    (inode : Inode)
    → inode.i_size < 33
    → Readable disk_device disk layout (get_or inode.i_block 0 0)
    → IsDirectory disk_device disk layout format inode
directory inode small r = record {
  is_layout = layout-IsLayout;
  some_bytes = omega arith;
  ints = omega arith;
  entry_ints = omega arith;
  some_head = omega arith;
  room = omega arith;
  mapped = mapped inode small r;
}

-- What holds of the inode of the one record that a search finds holds of any it finds.
of_found :
    (P : ℕ → Type 0) (entries : List Entry) (name : Bytes) (there : Entry)
    → lookup entries name ≡ some there
    → P there.inode
    → (e : Entry) → lookup entries name ≡ some e
    → P e.inode
of_found P entries name there h p e h' =
    subst (λ o. P (elim o as (λ x. ℕ) [ none ↦ 0 | some x ↦ x.inode ])) (sym h ∙ h') p

pub root-Lists :
    Lists disk_device disk layout format (inode_at disk_device disk layout format 1) 0 (tree 2)
unfolding inode_of entry_of
root-Lists = (
  omega arith,
  λ rest. refl,
  omega arith,
  (refl, refl, tt),
  (omega arith, λ rest. refl, omega arith, (refl, refl, tt), omega arith),
)

pub sub-Lists :
    Lists disk_device disk layout format (inode_at disk_device disk layout format 2) 0 (tree 3)
unfolding inode_of entry_of
sub-Lists = (
  omega arith,
  λ rest. refl,
  omega arith,
  (refl, refl, tt),
  (omega arith, λ rest. refl, omega arith, (refl, refl, tt), omega arith),
)

pub root-IsDirectory :
    IsDirectory disk_device disk layout format (inode_at disk_device disk layout format 1)
unfolding inode_of
root-IsDirectory = directory (inode_at disk_device disk layout format 1) (omega arith) (record {
  scale = 2;
  some_bytes = omega arith;
  scaled = refl;
  fits = omega arith;
  reads = refl;
})

pub sub-IsDirectory :
    IsDirectory disk_device disk layout format (inode_at disk_device disk layout format 2)
unfolding inode_of
sub-IsDirectory = directory (inode_at disk_device disk layout format 2) (omega arith) (record {
  scale = 2;
  some_bytes = omega arith;
  scaled = refl;
  fits = omega arith;
  reads = refl;
})

pub IsInode-3 : IsInode disk_device disk layout format 3
IsInode-3 = (
  omega arith,
  omega arith,
  record { scale = 2; some_bytes = omega arith; scaled = refl; fits = omega arith; reads = refl },
  record { scale = 2; some_bytes = omega arith; scaled = refl; fits = omega arith; reads = refl },
)

pub IsInode-4 : IsInode disk_device disk layout format 4
IsInode-4 = (
  omega arith,
  omega arith,
  record { scale = 2; some_bytes = omega arith; scaled = refl; fits = omega arith; reads = refl },
  record { scale = 2; some_bytes = omega arith; scaled = refl; fits = omega arith; reads = refl },
)

pub IsInode-5 : IsInode disk_device disk layout format 5
IsInode-5 = (
  omega arith,
  omega arith,
  record { scale = 2; some_bytes = omega arith; scaled = refl; fits = omega arith; reads = refl },
  record { scale = 2; some_bytes = omega arith; scaled = refl; fits = omega arith; reads = refl },
)

-- A path through the directory d
pub d-Passes :
    (m c : ℕ)
    → IsName (c ∷ [])
    → Passes disk_device disk layout format tree 2 ((1, b'd' ∷ []) ∷ (m, c ∷ []) ∷ [])
d-Passes m c name = (
  omega arith,
  omega arith,
  record { scale = 2; some_bytes = omega arith; scaled = refl; fits = omega arith; reads = refl },
  record { scale = 2; some_bytes = omega arith; scaled = refl; fits = omega arith; reads = refl },
  root-IsDirectory,
  root-Lists,
  (refl, refl, tt),
  of_found (λ ino. Passes disk_device disk layout format tree ino ((m, c ∷ []) ∷ [])) (tree 2)
      (b'd' ∷ []) (an_entry 3 b'd') refl
      (
        omega arith,
        omega arith,
        record {
          scale = 2;
          some_bytes = omega arith;
          scaled = refl;
          fits = omega arith;
          reads = refl;
        },
        record {
          scale = 2;
          some_bytes = omega arith;
          scaled = refl;
          fits = omega arith;
          reads = refl;
        },
        sub-IsDirectory,
        sub-Lists,
        name,
        λ e h. tt,
      ),
)
