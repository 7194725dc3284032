-- ===== src/Ext2/Directory.antt =====
-- libext2: the inodes, the records of a directory, and the search for a path.
pub mod Search
pub mod Path
use emile.Common.{
  ℕ, zero, suc, ◌+◌, ◌-◌, ◌*◌, ◌/◌, ◌%◌, ◌^◌, Bool, true, false, Option, none, some, List, [], ◌∷◌,
  ◌++◌, Bytes, leb, ◌==◌, if◌then◌else◌, take, drop, get_or, length,
}
use emile.Device.{Device}
use emile.Ext2.{
  Layout, Volume, Inode, le32_at, ext2_read_block, ReadOutcome, failed, returned, negative,
  out_of_fuel, ext2_read_data,
}

-- What <linux/ext2_fs.h> and <sys/stat.h> say: the numbers in the super block, the sizes of the
-- structures and the places of their fields, S_ISLNK and S_ISDIR.
pub record Format : Type 0 where
  pub root_ino : ℕ
  pub first_data_block : ℕ
  pub desc_per_block : ℕ
  pub desc_size : ℕ
  pub inode_table_place : ℕ
  pub inodes_per_group : ℕ
  pub inode_size : ℕ
  pub mode_place : ℕ
  pub size_place : ℕ
  pub block_place : ℕ
  pub n_blocks : ℕ
  pub is_link : ℕ → Bool
  pub is_dir : ℕ → Bool
  pub entry_size : ℕ
  pub ino_place : ℕ
  pub rec_len_place : ℕ
  pub name_len_place : ℕ
  pub name_place : ℕ

abbrev pub le32_in : Bytes → ℕ → ℕ
le32_in bytes place = le32_at (drop place bytes) 0

abbrev pub le16_in : Bytes → ℕ → ℕ
le16_in bytes place = get_or bytes place 0 + 2 ^ 8 * get_or bytes (place + 1) 0

-- A word of the machine, whose first byte is the highest
abbrev pub word_in : Bytes → ℕ → ℕ
word_in bytes place =
    get_or bytes (place + 3) 0
    + 2 ^ 8 * get_or bytes (place + 2) 0
    + 2 ^ 16 * get_or bytes (place + 1) 0
    + 2 ^ 24 * get_or bytes place 0

-- `ext2_get_group_desc`, as far as the table of the inodes. The number of a group is below 2 ^ 31.
unfoldable pub ext2_get_group_desc : Device → Layout → Format → Volume → ℕ → Volume × ℕ
ext2_get_group_desc dev layout format volume group_id =
    let v =
      ext2_read_block dev layout volume
        ((1 + format.first_data_block + group_id / format.desc_per_block) % 2 ^ 32) in
    let offset = group_id % format.desc_per_block * format.desc_size in
    (v, le32_in v.buffer (offset + format.inode_table_place))

abbrev pub words : (Bytes → ℕ → ℕ) → Bytes → ℕ → ℕ → List ℕ
words read bytes place zero = []
words read bytes place (suc n) = read bytes place ∷ words read bytes (place + 4) n

-- The fields of an inode: the `i_block` of a symbolic link is text, and not converted.
unfoldable pub inode_of : Format → Bytes → Inode
inode_of format raw =
    let mode = le16_in raw format.mode_place in
    record {
      i_mode = mode;
      i_size = le32_in raw format.size_place;
      i_block =
          words (if format.is_link mode then word_in else le32_in) raw format.block_place
            format.n_blocks;
    }

unfoldable pub ext2_get_inode : Device → Layout → Format → Volume → ℕ → Volume × Inode
unfolding ext2_get_group_desc inode_of
ext2_get_inode dev layout format volume ino =
    let before = (ino + (2 ^ 32 - 1)) % 2 ^ 32 in
    let (v, table) =
      ext2_get_group_desc dev layout format volume (before / format.inodes_per_group) in
    let n = before % format.inodes_per_group in
    let per_block = layout.block_size / format.inode_size in
    let v' = ext2_read_block dev layout v ((table + n / per_block) % 2 ^ 32) in
    (v', inode_of format (drop (n % per_block * format.inode_size) v'.buffer))

-- `struct ext2_dir_entry_2`, as far as it is used, with the `name_len` bytes of its name
pub record Entry : Type 0 where
  pub inode : ℕ
  pub rec_len : ℕ
  pub name : Bytes

unfoldable pub entry_of : Format → Bytes → Entry
entry_of format bytes = record {
  inode = le32_in bytes format.ino_place;
  rec_len = le16_in bytes format.rec_len_place;
  name = take (get_or bytes format.name_len_place 0) (drop format.name_place bytes);
}

-- What reading a record comes to: a return of -1, or the bytes of `*entry`; it is not told what
-- happens at a negative offset, and where the directory ends in front of the name.
pub data EntryOutcome : Type 0 where
  no_entry : EntryOutcome
  entry : Bytes → Volume → EntryOutcome
  unknown : EntryOutcome

-- The bytes that are read take the place of the first ones of `old`.
abbrev pub entry_outcome : Format → Bytes → ReadOutcome → EntryOutcome
entry_outcome format old failed = no_entry
entry_outcome format old (returned bytes volume) =
    if leb format.name_place (length bytes)
    then entry (bytes ++ drop (length bytes) old) volume
    else unknown
entry_outcome format old negative = unknown
entry_outcome format old out_of_fuel = unknown

-- `ext2_dir_entry`. The next index, which it returns, is that of the caller and `rec_len`.
unfoldable pub ext2_dir_entry : Device → Layout → Format → Volume → Inode → ℕ → Bytes → EntryOutcome
ext2_dir_entry dev layout format volume inode index old =
    entry_outcome format old (ext2_read_data dev layout volume inode index format.entry_size)

-- The text is at its end, or goes on with a slash.
abbrev pub at_end : Bytes → Bool
at_end [] = true
at_end (c ∷ s) = c == b'/'

-- The two tests of a name, at the text `name` in front of its final 0: `none` if the name in the
-- record has a 0 where the text ends, and the second test reads behind it.
unfoldable pub is_component : Bytes → Bytes → Option Bool
is_component name [] = some (at_end name)
is_component [] (c ∷ s) = if c == 0 then none else some false
is_component (d ∷ name) (c ∷ s) = if d == c then is_component name s else some false

-- What the search in a directory comes to: the inode, the path behind the component, the record,
-- and the volume; or the return of 0, whose volume is not told.
pub data Sought : Type 0 where
  found : ℕ → Bytes → Bytes → Volume → Sought
  missing : Sought
  undefined : Sought
  endless : Sought

-- The inner `while (1)`; it goes on for ever at a record of length 0, and is then out of fuel.
unfoldable pub search : Device → Layout → Format → ℕ → Volume → Inode → ℕ → Bytes → Bytes → Sought
unfolding ext2_dir_entry entry_of is_component
search dev layout format zero volume inode index old name = endless
search dev layout format (suc fuel) volume inode index old name =
    elim (ext2_dir_entry dev layout format volume inode index old) [
      | no_entry ↦ missing
      | unknown ↦ undefined
      | entry bytes v ↦
          let e = entry_of format bytes in
          elim (is_component name e.name) [
            | none ↦ undefined
            | some true ↦ found e.inode (drop (length e.name) name) bytes v
            | some false ↦ search dev layout format fuel v inode (index + e.rec_len) bytes name
          ]
    ]

unfoldable pub past_slashes : Bytes → Bytes
past_slashes [] = []
past_slashes (c ∷ s) = let rest = past_slashes s in if c == b'/' then rest else c ∷ s

-- The body of the outer `while (1)`: the inode of a directory, and the search in it. A directory has
-- fewer records than bytes.
unfoldable pub look_in : Device → Layout → Format → Volume → ℕ → Bytes → Bytes → Sought
unfolding ext2_get_inode search
look_in dev layout format volume ino old name =
    let (v, inode) = ext2_get_inode dev layout format volume ino in
    search dev layout format (suc inode.i_size) v inode 0 old name

-- The outer `while (1)`, a component a round
unfoldable pub component_loop :
    (Volume → ℕ → Bytes → Bytes → Sought) → ℕ → Volume → ℕ → Bytes → Bytes → Sought
unfolding past_slashes
component_loop look zero volume ino old name = endless
component_loop look (suc fuel) volume ino old name = elim (past_slashes name) [
  | [] ↦ found ino [] old volume
  | c ∷ s ↦ elim (look volume ino old (c ∷ s)) [
    | found ino' rest bytes v ↦ component_loop look fuel v ino' bytes rest
    | missing ↦ missing
    | undefined ↦ undefined
    | endless ↦ endless
  ]
]

-- `ext2_seek_name`, with the bytes that the record on the stack has at first
unfoldable pub ext2_seek_name : Device → Layout → Format → Volume → Bytes → Bytes → Sought
unfolding look_in component_loop
ext2_seek_name dev layout format volume old name =
    component_loop (look_in dev layout format) (suc (length name)) volume format.root_ino old name
