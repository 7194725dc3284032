-- ===== src/Iso/Open/Read.antt =====
-- Mounting a volume, opening a path on it, and reading the file.
use mathlib.Core.Path.{subst}
use emile.Common.{
  ℕ, ◌+◌, ◌-◌, ◌*◌, ◌^◌, ◌<◌, ◌≡◌, refl, ap, ◌∙◌, true, false, none, some, List, [], Bytes, arith,
  min,
}
use emile.Common.Slice.{slice}
use emile.Device.{Device}
use emile.Iso.{iso9660_read}
use emile.Iso.Read.{IsFile, Delivers, iso9660_read-Delivers}
use emile.Iso.Directory.{Volume, node, seek_name}
use emile.Iso.Directory.Walk.{spell, walk, AreComponents, AreShort, iso9660_get_node-walk}
use emile.Iso.Open.{
  Descriptor, unused3, has_escape, mounted, iso9660_mount, volume_of, iso9660_get_root_node, opened,
  file_of, iso9660_open,
}
use emile.Iso.Open.Mount.{HasDescriptors, IsLevel, IsLevel-unique, iso9660_mount-Joliet}

module _ (disk memory : ℕ → ℕ) where
  -- Opening a path comes to the file of a record, and reading `count` bytes to its first ones.
  abbrev pub OpensAndReads : Volume → Bytes → Bytes → Bytes → Bytes → Bytes → ℕ → Type 0
  OpensAndReads v old buffer root path idr count =
      let file = file_of v.layout buffer idr in
      (iso9660_open v true old buffer root path ≡ opened file)
      × Delivers disk file (min count file.size) [] (iso9660_read v.device memory file count)

  iso9660_open-OpensAndReads :
      (v : Volume) (old buffer root idr : Bytes) (components : List (ℕ × Bytes)) (n count : ℕ)
      → ((block size : ℕ) → v.device.read_sector block size ≡ some (slice disk (block * 2048) size))
      → v.allocates ≡ true
      → AreComponents components
      → AreShort components
      → walk (seek_name v old) root components ≡ node idr
      → (file_of v.layout buffer idr).base + (file_of v.layout buffer idr).size < 2 ^ 31
      → OpensAndReads v old buffer root (spell components n) idr count
  unfolding iso9660_open
  iso9660_open-OpensAndReads v old buffer root idr components n count delivers memory_for are short
        leads ints =
      let file = file_of v.layout buffer idr in
      let found = iso9660_get_node-walk v old root components n memory_for are short ∙ leads in
      let in_order : IsFile disk file = record {
        inside = omega arith;
        ints = ints;
        cached = λ c e. absurd (let f : none ≡ some c = e in cc);
      } in
      let whole : min count (file.size - 0) ≡ min count file.size = omega arith in
      (
        rw (iso9660_open, found) refl,
        subst (λ t. Delivers disk file t [] (iso9660_read v.device memory file count)) whole
            (iso9660_read-Delivers v.device disk memory delivers file count in_order),
      )

  -- `iso9660_mount` of a device with a Joliet descriptor mounts the volume of the first one. On it,
  -- `iso9660_open` of a path that leads from its root to a record, component by component, opens the
  -- file of the record, and `iso9660_read` from its begin delivers the first bytes of the file, as many
  -- as are asked for and it has. It holds where `malloc` has memory, for a device of 2048-byte blocks
  -- that delivers the bytes of the disk, descriptors from block 16 on of which the first is that of
  -- ISO 9660 and a later one ends them, components that are not empty, have fewer than 256 bytes and are set apart by slashes, and a
  -- file whose extent and size have a sum below 2 ^ 31. The level is that of the letter of the escape
  -- sequence.
  pub iso9660_mount-iso9660_open-iso9660_read :
      (dev : Device) (f : Descriptor) (sector : ℕ → Bytes) (last k fuel level : ℕ)
      (old buffer dir idr : Bytes) (components : List (ℕ × Bytes)) (n count : ℕ)
      → ((block size : ℕ) → dev.read_sector block size ≡ some (slice disk (block * 2048) size))
      → HasDescriptors dev f sector last
      → last < fuel
      → k < last
      → ((i : ℕ) → i < k → has_escape f (sector i) ≡ false)
      → has_escape f (sector k) ≡ true
      → IsLevel (unused3 f (sector k) 2) level
      → AreComponents components
      → AreShort components
      → walk (seek_name (volume_of dev f level) dir) (iso9660_get_root_node f (sector k)) components
        ≡ node idr
      → (file_of f.record_layout buffer idr).base + (file_of f.record_layout buffer idr).size
        < 2 ^ 31
      → (iso9660_mount dev f true true fuel old ≡ mounted (sector k) level)
        × OpensAndReads
            (volume_of dev f level)
            dir
            buffer
            (iso9660_get_root_node f (sector k))
            (spell components n)
            idr
            count
  iso9660_mount-iso9660_open-iso9660_read dev f sector last k fuel level old buffer dir idr
        components n count delivers h lt below before here is_level are short leads ints =
      let (level', mounts, is_level') =
        (iso9660_mount-Joliet dev f sector last h fuel old lt).0 k below before here in
      (
        mounts ∙ ap (mounted (sector k)) (IsLevel-unique _ level' level is_level' is_level),
        iso9660_open-OpensAndReads (volume_of dev f level) dir buffer
            (iso9660_get_root_node f (sector k)) idr components n count delivers refl are short
            leads ints,
      )
