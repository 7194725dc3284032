-- ===== src/Ext2/Open/Listing.antt =====
-- Going through a directory, against the list of its records.
use mathlib.Core.Path.{subst}
use emile.Common.{
  ℕ, zero, suc, ◌+◌, ◌-◌, ◌≤◌, ◌<◌, ◌≡◌, refl, sym, ap, true, Option, none, some, List, [], ◌∷◌,
  ◌++◌, Bytes, arith, length, set,
}
use emile.Device.{Device}
use emile.Ext2.{Layout, Volume, Inode}
use emile.Ext2.Address.{IsVolume, IsLayout}
use emile.Iso.Directory.Walk.{spell, AreComponents}
use emile.Ext2.Directory.{Format, Entry, entry_of, ext2_seek_name}
use emile.Ext2.Directory.Search.{
  record_at, Lists, IsDirectory, ext2_dir_entry-end, ext2_dir_entry-record_at,
}
use emile.Ext2.Directory.Path.{resolve, Passes, inode_at, ext2_seek_name-resolve}
use emile.Ext2.Open.{
  opened, found_inode, Ext2Dir, ext2_opendir, ReadDir, no_more, read, unclear, ext2_readdir,
}
use emile.Ext2.Open.Found.{IsInode, HasInode, Finds, found_inode-Finds}

-- Reading a directory until NULL comes, with `static` in the static record at first
unfoldable pub read_all :
    Device → Layout → Format → ℕ → Volume → Ext2Dir → Bytes → Option (List Entry)
read_all dev layout format zero volume dir static = none
read_all dev layout format (suc fuel) volume dir static =
    elim (ext2_readdir dev layout format volume dir static) [
      | no_more ↦ some []
      | unclear ↦ none
      | read e static' dir' volume' ↦ elim (read_all dev layout format fuel volume' dir' static') [
        | none ↦ none
        | some entries ↦ some (e ∷ entries)
      ]
    ]

module _ (dev : Device) (disk : ℕ → ℕ) (layout : Layout) (format : Format) (inode : Inode)
    (d : IsDirectory dev disk layout format inode) where
  ext2_readdir-end :
      (volume : Volume) (index : ℕ) (static : Bytes)
      → inode.i_size ≤ index
      → ext2_readdir dev layout format volume (record { inode = inode; index = index }) static
        ≡ no_more
  unfolding ext2_readdir
  ext2_readdir-end volume index static h =
      rw (ext2_readdir, ext2_dir_entry-end dev disk layout format inode d volume index static h)
        refl

  ext2_readdir-record_at :
      (volume : Volume) (index : ℕ) (static : Bytes) (e : Entry)
      → IsVolume disk layout volume
      → index + format.name_place ≤ inode.i_size
      → ((rest : Bytes)
          → entry_of format (record_at dev disk layout format inode index ++ rest) ≡ e)
      → (static' : Bytes) × (v : Volume) × (ext2_readdir dev layout format volume
            (record { inode = inode; index = index })
            static
          ≡ read e static' (record { inode = inode; index = index + e.rec_len }) v)
        × IsVolume disk layout v
  unfolding ext2_readdir
  ext2_readdir-record_at volume index static e h room is_e =
      let (behind, v, got, h') =
        ext2_dir_entry-record_at dev disk layout format inode d volume index static h room in
      let bytes = record_at dev disk layout format inode index ++ behind in
      let step : Entry → ReadDir = λ x.
        read x (set bytes (format.name_place + length x.name) 0)
          (record { inode = inode; index = index + x.rec_len }) v in
      (
        set bytes (format.name_place + length e.name) 0,
        v,
        rw (ext2_readdir, got) (ap step (is_e behind)),
        h',
      )

  read_all-Lists :
      (fuel : ℕ) (volume : Volume) (index : ℕ) (static : Bytes) (entries : List Entry)
      → length entries < fuel
      → IsVolume disk layout volume
      → Lists dev disk layout format inode index entries
      → read_all dev layout format fuel volume (record { inode = inode; index = index }) static
        ≡ some entries
  unfolding read_all
  read_all-Lists zero volume index static entries lt h l = absurd (omega arith)
  read_all-Lists (suc fuel) volume index static [] lt h l =
      rw (read_all, ext2_readdir-end volume index static l) refl
  read_all-Lists (suc fuel) volume index static (e ∷ entries) lt h l =
      let (static', v, got, h') = ext2_readdir-record_at volume index static e h l.0 l.1 in
      rw
        (
          read_all,
          got,
          read_all-Lists fuel v (index + e.rec_len) static' entries (omega arith) h' l.4,
        )
        refl

module _ (dev : Device) (disk : ℕ → ℕ) (layout : Layout) (format : Format) where
  -- `ext2_opendir` of the path of a directory, and `ext2_readdir` until it returns NULL, deliver the
  -- records of the directory, each once and in their order. It holds where `malloc` has memory, for a
  -- buffer that holds the current block, components that are not empty and set apart by slashes,
  -- directories on the way as for `ext2_seek_name`, and for the directory at its end, whose inode the
  -- device delivers, the same: blocks that the device delivers, and records that are not of length 0,
  -- one behind the other to its end, each with its head in it and with a name without a slash or a 0.
  pub ext2_opendir-ext2_readdir :
      (tree : ℕ → List Entry) (volume : Volume) (old static : Bytes) (components : List (ℕ × Bytes))
      (n ino : ℕ)
      → IsLayout layout
      → AreComponents components
      → Passes dev disk layout format tree format.root_ino components
      → resolve tree format.root_ino components ≡ some ino
      → IsInode dev disk layout format ino
      → format.is_dir (inode_at dev disk layout format (ino - 1)).i_mode ≡ true
      → IsDirectory dev disk layout format (inode_at dev disk layout format (ino - 1))
      → Lists dev disk layout format (inode_at dev disk layout format (ino - 1)) 0 (tree ino)
      → IsVolume disk layout volume
      → (dir : Ext2Dir) × (v : Volume) × (ext2_opendir dev layout format true true old volume
            (spell components n)
          ≡ opened dir v)
        × (read_all dev layout format (suc (length (tree ino))) v dir static ≡ some (tree ino))
  unfolding ext2_opendir
  ext2_opendir-ext2_readdir tree volume old static components n ino is_layout are p e has is_dir d l
        h =
      let inode = inode_at dev disk layout format (ino - 1) in
      let (v, found, h') : Finds dev disk layout format
          (found_inode dev layout format true
            (ext2_seek_name dev layout format volume old (spell components n)))
          (some ino) =
        subst (Finds dev disk layout format _) e (
          found_inode-Finds dev disk layout format is_layout _ _
            (ext2_seek_name-resolve dev disk layout format tree volume old components n are p h)
            (subst (HasInode dev disk layout format) (sym e) has)) in
      (
        record { inode = inode; index = 0 },
        v,
        rw (found, is_dir) refl,
        read_all-Lists dev disk layout format inode d (suc (length (tree ino))) v 0 static
            (tree ino) (omega arith) h' l,
      )
