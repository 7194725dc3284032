-- ===== src/Ext2/Open.antt =====
-- libext2: opening a file, which follows a symbolic link, and going through a directory.
pub mod Links
pub mod Found
pub mod Files
pub mod Listing
use emile.Common.{
  ℕ, suc, ◌+◌, ◌/◌, ◌%◌, ◌^◌, Bool, true, Option, none, some, List, [], ◌∷◌, ◌++◌, Bytes, ltb, ◌==◌,
  if◌then◌else◌, take, set, length,
}
use emile.Device.{Device}
use emile.Ext2.{Layout, Volume, Inode, Ext2File}
use emile.Ext2.Directory.{
  Format, Entry, entry_of, ext2_get_inode, no_entry, entry, unknown, ext2_dir_entry, Sought, found,
  missing, undefined, endless, ext2_seek_name,
}

-- What opening comes to; where NULL is returned, the volume is not told.
pub data Opened {ℓ} (A : Type ℓ) : Type ℓ where
  opened : A → Volume → Opened A
  null : Opened A
  lost : Opened A
  hangs : Opened A

-- `ext2_seek_name`, the return if it is 0, the first `malloc` and `ext2_get_inode`. That one always
-- returns 0.
unfoldable pub found_inode : Device → Layout → Format → Bool → Sought → Opened Inode
unfolding ext2_get_inode
found_inode dev layout format malloc (found ino rest bytes volume) =
    if ino == 0
    then null
    else if malloc
    then (let (v, inode) = ext2_get_inode dev layout format volume ino in opened inode v)
    else null
found_inode dev layout format malloc missing = null
found_inode dev layout format malloc undefined = lost
found_inode dev layout format malloc endless = hangs

abbrev pub and_then {ℓ κ} :
    {A : Type ℓ} {B : Type κ} → Opened A → (A → Volume → Opened B) → Opened B
and_then (opened a volume) f = f a volume
and_then null f = null
and_then lost f = lost
and_then hangs f = hangs

-- The second `malloc`, and the file
abbrev pub open_inode : Bool → Inode → Volume → Opened Ext2File
open_inode malloc inode volume =
    if malloc then opened (record { inode = inode; offset = 0 }) volume else null

-- `(char*)inode->i_block`, whose words have their highest byte first
abbrev pub block_text : List ℕ → Bytes
block_text [] = []
block_text (w ∷ words) =
    w / 2 ^ 24 % 2 ^ 8 ∷ w / 2 ^ 16 % 2 ^ 8 ∷ w / 2 ^ 8 % 2 ^ 8 ∷ w % 2 ^ 8 ∷ block_text words

-- The text in front of the first 0; `none` if there is none
unfoldable pub c_text : Bytes → Option Bytes
c_text [] = none
c_text (c ∷ s) =
    let rest = c_text s in
    if c == 0 then some [] else elim rest [ none ↦ none | some t ↦ some (c ∷ t) ]

-- The loop over `buffer`: the place of the last slash, or `last`
unfoldable pub last_slash : Bytes → ℕ → ℕ → ℕ
last_slash [] i last = last
last_slash (c ∷ s) i last = last_slash s (suc i) (if c == b'/' then i else last)

-- `sizeof(buffer)`
abbrev pub buffer_size : ℕ
buffer_size = 1024

-- The path of a link: the text takes the place of what is behind the last slash. `none` where a
-- text has no end, or does not fit into `buffer`.
unfoldable pub link_path : Bytes → Inode → Option Bytes
unfolding c_text last_slash
link_path pathname inode = elim (c_text (block_text inode.i_block)) [
  | none ↦ none
  | some text ↦
      let path = take (last_slash pathname 0 0) pathname ++ (b'/' ∷ text) in
      if ltb (length pathname) buffer_size
      then (if ltb (length path) buffer_size then some path else none)
      else none
]

-- The inode of the target of a link. Its own link is not followed.
unfoldable pub follow_link :
    Device → Layout → Format → Bytes → Bytes → Inode → Volume → Opened Inode
unfolding link_path found_inode ext2_seek_name
follow_link dev layout format old pathname inode volume = elim (link_path pathname inode) [
  | none ↦ lost
  | some path ↦
      found_inode dev layout format true (ext2_seek_name dev layout format volume old path)
]

-- `ext2_open`. The arguments `first` and `second` say whether the calls of `malloc` have memory,
-- `old` what the records on the stack of the two searches hold at first.
unfoldable pub ext2_open :
    Device → Layout → Format → Bool → Bool → Bytes → Bytes → Volume → Bytes → Opened Ext2File
unfolding found_inode follow_link ext2_seek_name
ext2_open dev layout format first second old old' volume pathname =
    and_then
      (found_inode dev layout format first (ext2_seek_name dev layout format volume old pathname))
      (λ inode v.
        if format.is_link inode.i_mode
        then and_then (follow_link dev layout format old' pathname inode v) (open_inode second)
        else open_inode second inode v)

abbrev pub ext2_fstat : Ext2File → ℕ
ext2_fstat file = file.inode.i_size

-- `ext2_DIR`, less the volume
pub record Ext2Dir : Type 0 where
  pub inode : Inode
  pub index : ℕ

unfoldable pub ext2_opendir :
    Device → Layout → Format → Bool → Bool → Bytes → Volume → Bytes → Opened Ext2Dir
unfolding found_inode ext2_seek_name
ext2_opendir dev layout format first second old volume name =
    and_then
      (found_inode dev layout format first (ext2_seek_name dev layout format volume old name))
      (λ inode v.
        if format.is_dir inode.i_mode
        then (if second then opened (record { inode = inode; index = 0 }) v else null)
        else null)

-- What reading a directory comes to: NULL, or the record, with the static bytes that hold it and
-- the 0 behind its name.
pub data ReadDir : Type 0 where
  no_more : ReadDir
  read : Entry → Bytes → Ext2Dir → Volume → ReadDir
  unclear : ReadDir

unfoldable pub ext2_readdir : Device → Layout → Format → Volume → Ext2Dir → Bytes → ReadDir
unfolding ext2_dir_entry entry_of
ext2_readdir dev layout format volume dir static =
    elim (ext2_dir_entry dev layout format volume dir.inode dir.index static) [
      | no_entry ↦ no_more
      | unknown ↦ unclear
      | entry bytes v ↦
          let e = entry_of format bytes in
          read e (set bytes (format.name_place + length e.name) 0)
            (record dir { index = dir.index + e.rec_len }) v
    ]
