-- ===== src/Ext2/Open/Found.antt =====
-- Opening a file, against the tree on the disk.

use emile.Common.{
  ℕ, ◌-◌, ◌/◌, ◌^◌, ◌<◌, ◌≡◌, refl, ap, true, false, Option, none, some, List, Bytes, arith, ◌==◌,
  if◌then◌else◌,
}
use emile.Device.{Device}
use emile.Ext2.{Layout, Volume, Inode, Ext2File}
use emile.Ext2.Address.{Readable, IsVolume, IsLayout, holding}
use emile.Iso.Directory.Walk.{spell, AreComponents}
use emile.Ext2.Directory.{Format, Entry, Sought}
use emile.Ext2.Directory.Path.{
  resolve, Passes, Resolves, group_block, inode_block, inode_at, ext2_get_inode-inode_at,
  ext2_seek_name-resolve,
}
use emile.Ext2.Open.{
  Opened, opened, null, found_inode, and_then, open_inode, follow_link, ext2_open,
}

module _ (dev : Device) (disk : ℕ → ℕ) (layout : Layout) (format : Format) where
  -- An inode that can be read
  abbrev pub IsInode : ℕ → Type 0
  IsInode ino =
      (0 < ino)
      × (ino < 2 ^ 32)
      × Readable dev disk layout
          (group_block dev disk layout format ((ino - 1) / format.inodes_per_group))
      × Readable dev disk layout (inode_block dev disk layout format (ino - 1))

  abbrev pub HasInode : Option ℕ → Type 0
  HasInode none = Unit
  HasInode (some ino) = IsInode ino

  -- The file that a path leads to is not a symbolic link.
  abbrev pub IsPlain : Option ℕ → Type 0
  IsPlain none = Unit
  IsPlain (some ino) = format.is_link (inode_at dev disk layout format (ino - 1)).i_mode ≡ false

  abbrev pub Finds : Opened Inode → Option ℕ → Type 0
  Finds s none = s ≡ null
  Finds s (some ino) =
      (v : Volume) × (s ≡ opened (inode_at dev disk layout format (ino - 1)) v)
      × IsVolume disk layout v

  abbrev pub file_at : ℕ → Ext2File
  file_at ino = record { inode = inode_at dev disk layout format (ino - 1); offset = 0 }

  -- Opening comes to this inode, at the begin of its file, or to NULL.
  abbrev pub Opens : Opened Ext2File → Option ℕ → Type 0
  Opens s none = s ≡ null
  Opens s (some ino) = (v : Volume) × (s ≡ opened (file_at ino) v) × IsVolume disk layout v

  pub found_inode-Finds :
      (is_layout : IsLayout layout) (s : Sought) (o : Option ℕ)
      → Resolves dev disk layout format s o
      → HasInode o
      → Finds (found_inode dev layout format true s) o
  unfolding found_inode
  found_inode-Finds is_layout s none r has = rw (r, found_inode) refl
  found_inode-Finds is_layout s (some ino) (bytes, volume, e, h) (some_ino, int, r, r') =
      let nonzero : ino == 0 ≡ false = ground arith in
      rw (e, found_inode, nonzero)
        (
          holding dev disk layout is_layout (inode_block dev disk layout format (ino - 1)),
          ap (λ p. opened p.1 p.0)
              (ext2_get_inode-inode_at dev disk layout format is_layout volume ino h some_ino int r
                r'),
          record { cached = refl },
        )

  pub finished :
      (s : Opened Inode) (o : Option ℕ) → Finds s o → Opens (and_then s (open_inode true)) o
  finished s none e = rw e refl
  finished s (some ino) (v, e, h) = rw e (v, refl, h)

  pub ext2_open-Opens :
      (tree : ℕ → List Entry) (volume : Volume) (old old' : Bytes) (components : List (ℕ × Bytes))
      (n : ℕ)
      → IsLayout layout
      → AreComponents components
      → Passes dev disk layout format tree format.root_ino components
      → HasInode (resolve tree format.root_ino components)
      → IsPlain (resolve tree format.root_ino components)
      → IsVolume disk layout volume
      → Opens
          (ext2_open dev layout format true true old old' volume (spell components n))
          (resolve tree format.root_ino components)
  unfolding ext2_open
  ext2_open-Opens tree volume old old' components n is_layout are p has plain h =
      plainly _ _
        (found_inode-Finds is_layout _ _
          (ext2_seek_name-resolve dev disk layout format tree volume old components n are p h) has)
        plain
    where
      plainly :
          (s : Opened Inode) (o : Option ℕ)
          → Finds s o
          → IsPlain o
          → Opens
              (and_then s (λ inode v.
                if format.is_link inode.i_mode
                then and_then
                    (follow_link dev layout format old' (spell components n) inode v)
                    (open_inode true)
                else open_inode true inode v))
              o
      plainly s none e plain = rw e refl
      plainly s (some ino) (v, e, h) plain = rw (e, plain) (v, refl, h)
