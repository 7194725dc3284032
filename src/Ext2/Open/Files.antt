-- ===== src/Ext2/Open/Files.antt =====
-- Opening a file and reading it, and opening a symbolic link.
use mathlib.Core.Path.{subst}
use emile.Common.{
  ℕ, suc, ◌+◌, ◌-◌, ◌*◌, ◌^◌, ◌<◌, ◌≡◌, sym, ap, ◌∙◌, true, false, some, List, [], ◌∷◌, ◌++◌, Bytes,
  arith, length, min,
}
use emile.Device.{Device}
use emile.Ext2.{Layout, Volume, ext2_read}
use emile.Ext2.Address.{IsLocated, IsVolume, IsLayout}
use emile.Ext2.Read.{file_bytes, ext2_read-bytes}
use emile.Iso.Directory.Walk.{spell, AllPlain, AreComponents}
use emile.Ext2.Directory.{Format, Entry, ext2_seek_name}
use emile.Ext2.Directory.Path.{resolve, Passes, inode_at, ext2_seek_name-resolve}
use emile.Ext2.Open.{
  opened, found_inode, block_text, c_text, buffer_size, link_path, follow_link, ext2_open,
}
use emile.Ext2.Open.Found.{
  IsInode, HasInode, IsPlain, Finds, file_at, Opens, found_inode-Finds, finished, ext2_open-Opens,
}
use emile.Ext2.Open.Links.{link_path-append, spell-append, spell-last}

-- A file that is no symbolic link and not empty, whose inode and blocks the device delivers
pub record IsFile (dev : Device) (disk : ℕ → ℕ) (layout : Layout) (format : Format) (ino : ℕ)
    : Type 0 where
  pub inode : IsInode dev disk layout format ino
  pub plain : format.is_link (inode_at dev disk layout format (ino - 1)).i_mode ≡ false
  pub ints : (inode_at dev disk layout format (ino - 1)).i_size < 2 ^ 31
  pub some_size : 0 < (inode_at dev disk layout format (ino - 1)).i_size
  pub mapped :
      (l : ℕ)
      → l * layout.block_size < (inode_at dev disk layout format (ino - 1)).i_size
      → IsLocated dev disk layout (inode_at dev disk layout format (ino - 1)) l

module _ (dev : Device) (disk : ℕ → ℕ) (layout : Layout) (format : Format) where
  -- Reading `count` bytes of a file from its begin delivers the first `n`, and leaves this offset.
  abbrev pub Reads : Volume → ℕ → ℕ → ℕ → ℕ → Type 0
  Reads v ino count n offset =
      (v' : Volume) × (ext2_read dev layout v (file_at dev disk layout format ino) count
        ≡ some (
          file_bytes disk layout (file_at dev disk layout format ino) n,
          v',
          record (file_at dev disk layout format ino) { offset = offset },
        ))
      × IsVolume disk layout v'

  -- Opening the path of a file that is no symbolic link, and reading from its begin, delivers the
  -- bytes of the file.
  pub ext2_open-ext2_read :
      (tree : ℕ → List Entry) (volume : Volume) (old old' : Bytes) (components : List (ℕ × Bytes))
      (n ino count : ℕ)
      → IsLayout layout
      → 0 < layout.block_size
      → AreComponents components
      → Passes dev disk layout format tree format.root_ino components
      → resolve tree format.root_ino components ≡ some ino
      → IsFile dev disk layout format ino
      → IsVolume disk layout volume
      → count < 2 ^ 32
      → (v : Volume) × (ext2_open dev layout format true true old old' volume (spell components n)
          ≡ opened (file_at dev disk layout format ino) v)
        × Reads v ino count
            (min count (file_at dev disk layout format ino).inode.i_size)
            (min count (file_at dev disk layout format ino).inode.i_size)
  ext2_open-ext2_read tree volume old old' components n ino count is_layout some_bytes are p e file
        h sum =
      let (v, opens, h') = subst (Opens dev disk layout format _) e (
        ext2_open-Opens dev disk layout format tree volume old old' components n is_layout are p
          (subst (HasInode dev disk layout format) (sym e) file.inode)
          (subst (IsPlain dev disk layout format) (sym e) file.plain) h) in
      let size = (file_at dev disk layout format ino).inode.i_size in
      let whole : min count (size - 0) ≡ min count size = omega arith in
      let n_bytes = min count (size - 0) in
      let ends : 0 + n_bytes ≡ n_bytes = omega arith in
      (
        v,
        opens,
        subst (λ t. Reads v ino count t t) whole
            (subst (Reads v ino count n_bytes) ends (
              (ext2_read-bytes dev disk layout v (file_at dev disk layout format ino) count
                  is_layout some_bytes file.ints (omega arith) h' file.mapped).1
                file.some_size)),
      )

  -- `ext2_open` of the path of a symbolic link opens what the text of the link leads to from the
  -- directory of the link on, also if the text begins with a slash, at offset 0 and with the current
  -- block in the buffer; it returns NULL if that leads to no inode. It holds where `malloc` has memory,
  -- for a buffer that holds the current block, a path and its replacement of less than 1024 bytes, a
  -- name of the link behind a slash, a text with a 0 behind it in `i_block`, components that are not
  -- empty and set apart by slashes, directories on both ways as for `ext2_seek_name`, inodes of the
  -- link and of the target that the device delivers, and a layout with room for the addresses.
  pub ext2_open-link :
      (tree : ℕ → List Entry) (volume : Volume) (old old' : Bytes) (front : List (ℕ × Bytes))
      (m : ℕ) (name : Bytes) (k : ℕ) (target : Bytes) (rest : List (ℕ × Bytes)) (n ino : ℕ)
      → IsLayout layout
      → AreComponents (front ++ ((suc m, name) ∷ []))
      → AllPlain name
      → Passes dev disk layout format tree format.root_ino (front ++ ((suc m, name) ∷ []))
      → resolve tree format.root_ino (front ++ ((suc m, name) ∷ [])) ≡ some ino
      → IsInode dev disk layout format ino
      → format.is_link (file_at dev disk layout format ino).inode.i_mode ≡ true
      → c_text (block_text (file_at dev disk layout format ino).inode.i_block)
        ≡ some (spell ((k, target) ∷ rest) n)
      → length (spell (front ++ ((suc m, name) ∷ [])) 0) < buffer_size
      → length (spell (front ++ ((suc m + k, target) ∷ rest)) n) < buffer_size
      → AreComponents (front ++ ((suc m + k, target) ∷ rest))
      → Passes dev disk layout format tree format.root_ino (front ++ ((suc m + k, target) ∷ rest))
      → HasInode dev disk layout format
          (resolve tree format.root_ino (front ++ ((suc m + k, target) ∷ rest)))
      → IsVolume disk layout volume
      → Opens dev disk layout format
          (ext2_open dev layout format true true old old' volume
            (spell (front ++ ((suc m, name) ∷ [])) 0))
          (resolve tree format.root_ino (front ++ ((suc m + k, target) ∷ rest)))
  unfolding ext2_open follow_link
  ext2_open-link tree volume old old' front m name k target rest n ino is_layout are plain p e has
        link text fits fits' are' p' has' h =
      let path = spell (front ++ ((suc m, name) ∷ [])) 0 in
      let path' = spell (front ++ ((suc m + k, target) ∷ rest)) n in
      let inode = (file_at dev disk layout format ino).inode in
      let (v, e', h') : Finds dev disk layout format
          (found_inode dev layout format true (ext2_seek_name dev layout format volume old path))
          (some ino) =
        subst (Finds dev disk layout format _) e (
          found_inode-Finds dev disk layout format is_layout _ _
            (ext2_seek_name-resolve dev disk layout format tree volume old
              (front ++ ((suc m, name) ∷ [])) 0 are p h)
            (subst (HasInode dev disk layout format) (sym e) has)) in
      let front_path = spell-last front m name in
      let text_path = spell-append front m k target rest n in
      let at : link_path path inode ≡ some path' =
        subst (λ q. link_path q inode ≡ some path') front_path
          (link_path-append inode (spell front m) name (spell ((k, target) ∷ rest) n) plain text
              (subst (λ q. length q < buffer_size) (sym front_path) fits)
              (subst (λ q. length q < buffer_size) (sym text_path) fits')
            ∙ ap some text_path) in
      let goes : Finds dev disk layout format
          (found_inode dev layout format true (ext2_seek_name dev layout format v old' path'))
          (resolve tree format.root_ino (front ++ ((suc m + k, target) ∷ rest))) =
        found_inode-Finds dev disk layout format is_layout _ _
          (ext2_seek_name-resolve dev disk layout format tree v old'
            (front ++ ((suc m + k, target) ∷ rest)) n are' p' h')
          has' in
      rw (e', link, follow_link, at) (finished dev disk layout format _ _ goes)
