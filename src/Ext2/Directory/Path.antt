-- ===== src/Ext2/Directory/Path.antt =====
-- The search for a path goes from directory to directory, against the tree on the disk.
use mathlib.Core.Path.{subst}
use emile.Common.{
  Option-cases, inl, inr, ℕ, zero, suc, ◌+◌, ◌-◌, ◌*◌, ◌/◌, ◌%◌, ◌^◌, ◌<◌, ◌≡◌, refl, sym, Option,
  none, some, false, List, [], ◌∷◌, ◌++◌, Bytes, arith, ◌==◌, drop, length,
}
use emile.Common.Slice.{slice}
use emile.Device.{Device}
use emile.Ext2.{Layout, Volume, Inode}
use emile.Ext2.Address.{Readable, IsVolume, IsLayout, holding, ext2_read_block-holding}
use emile.Iso.Directory.Walk.{
  components_behind, components_fit, slashes, spell, AreBehind, AreComponents,
}
use emile.Ext2.Directory.{
  Format, Entry, le32_in, inode_of, ext2_get_group_desc, ext2_get_inode, Sought, found, missing,
  look_in, search, past_slashes, component_loop, ext2_seek_name,
}
use emile.Ext2.Directory.Search.{
  lookup, IsName, StopsName, Lists, Answers, IsDirectory, search-lookup,
}

-- The inode that a path leads to in a tree of directories
unfoldable pub resolve : (ℕ → List Entry) → ℕ → List (ℕ × Bytes) → Option ℕ
resolve tree ino [] = some ino
resolve tree ino ((m, name) ∷ components) = elim (lookup (tree ino) name) [
  | none ↦ none
  | some e ↦ resolve tree e.inode components
]

past-slashes : (n : ℕ) → past_slashes (slashes n) ≡ []
unfolding past_slashes
past-slashes zero = refl
past-slashes (suc n) = past-slashes n

past_slashes-append :
    (n c : ℕ) (s : Bytes) → (c == b'/') ≡ false → past_slashes (slashes n ++ (c ∷ s)) ≡ c ∷ s
unfolding past_slashes
past_slashes-append zero c s plain = rw (plain, past_slashes) refl
past_slashes-append (suc n) c s plain = past_slashes-append n c s plain

spell-stops :
    (components : List (ℕ × Bytes)) (n : ℕ) → AreBehind components → StopsName (spell components n)
spell-stops [] zero h = tt
spell-stops [] (suc n) h = refl
spell-stops ((zero, name) ∷ components) n h = absurd (omega arith)
spell-stops ((suc m, name) ∷ components) n h = refl

module _ (dev : Device) (disk : ℕ → ℕ) (layout : Layout) (format : Format) where
  abbrev pub block_bytes : ℕ → Bytes
  block_bytes b = slice disk (b * layout.block_size) layout.block_size

  -- The block of the descriptor of a group, and the table in it
  abbrev pub group_block : ℕ → ℕ
  group_block group = (1 + format.first_data_block + group / format.desc_per_block) % 2 ^ 32

  abbrev pub table_of : ℕ → ℕ
  table_of group =
      le32_in (block_bytes (group_block group))
        (group % format.desc_per_block * format.desc_size + format.inode_table_place)

  -- The inode `suc n` on the disk: its block, and its fields
  abbrev pub inode_block : ℕ → ℕ
  inode_block n =
      (table_of (n / format.inodes_per_group)
        + n % format.inodes_per_group / (layout.block_size / format.inode_size))
      % 2 ^ 32

  abbrev pub inode_at : ℕ → Inode
  inode_at n = inode_of format (
      drop
        (n % format.inodes_per_group % (layout.block_size / format.inode_size) * format.inode_size)
        (block_bytes (inode_block n)))

  -- Each component but the last leads to a directory: its inode can be read, and it has the
  -- records that the tree says.
  abbrev pub Passes : (ℕ → List Entry) → ℕ → List (ℕ × Bytes) → Type 0
  Passes tree ino [] = Unit
  Passes tree ino ((m, name) ∷ components) =
      (0 < ino)
      × (ino < 2 ^ 32)
      × Readable dev disk layout (group_block ((ino - 1) / format.inodes_per_group))
      × Readable dev disk layout (inode_block (ino - 1))
      × IsDirectory dev disk layout format (inode_at (ino - 1))
      × Lists dev disk layout format (inode_at (ino - 1)) 0 (tree ino)
      × IsName name
      × ((e : Entry) → lookup (tree ino) name ≡ some e → Passes tree e.inode components)

  -- The search for a path comes to this inode, or to none.
  abbrev pub Resolves : Sought → Option ℕ → Type 0
  Resolves s none = s ≡ missing
  Resolves s (some ino) =
      (bytes : Bytes) × (v : Volume) × (s ≡ found ino [] bytes v) × IsVolume disk layout v

  pub ext2_get_inode-inode_at :
      (is_layout : IsLayout layout) (volume : Volume) (ino : ℕ)
      → IsVolume disk layout volume
      → 0 < ino
      → ino < 2 ^ 32
      → Readable dev disk layout (group_block ((ino - 1) / format.inodes_per_group))
      → Readable dev disk layout (inode_block (ino - 1))
      → ext2_get_inode dev layout format volume ino
        ≡ (holding dev disk layout is_layout (inode_block (ino - 1)), inode_at (ino - 1))
  unfolding ext2_get_inode ext2_get_group_desc
  ext2_get_inode-inode_at is_layout volume ino h some_ino int r r' =
      let before : (ino + (2 ^ 32 - 1)) % 2 ^ 32 ≡ ino - 1 = omega arith in
      let group =
        ext2_read_block-holding dev disk layout is_layout volume
          (group_block ((ino - 1) / format.inodes_per_group)) h r in
      let table =
        ext2_read_block-holding dev disk layout is_layout
          (holding dev disk layout is_layout (group_block ((ino - 1) / format.inodes_per_group)))
          (inode_block (ino - 1)) (record { cached = refl }) r' in
      rw (before, group, table) refl

  -- The search in the directory that the tree has at `ino`
  look_in-lookup :
      (tree : ℕ → List Entry) (volume : Volume) (ino : ℕ) (old name rest : Bytes)
      (components : List (ℕ × Bytes)) (m : ℕ)
      → Passes tree ino ((m, name) ∷ components)
      → StopsName rest
      → IsVolume disk layout volume
      → Answers dev disk layout format
          (inode_at (ino - 1))
          (look_in dev layout format volume ino old (name ++ rest))
          rest
          (lookup (tree ino) name)
  unfolding look_in
  look_in-lookup tree volume ino old name rest components m p stops h =
      let dir = p.4 in
      subst
        (λ r.
          Answers dev disk layout format (inode_at (ino - 1))
            (search dev layout format (suc r.1.i_size) r.0 r.1 0 old (name ++ rest)) rest
            (lookup (tree ino) name))
        (sym (ext2_get_inode-inode_at dir.is_layout volume ino h p.0 p.1 p.2 p.3))
        (search-lookup dev disk layout format (inode_at (ino - 1)) dir
          (suc (inode_at (ino - 1)).i_size)
          (holding dev disk layout dir.is_layout (inode_block (ino - 1))) 0 old name rest (tree ino)
          (omega arith) (record { cached = refl }) p.5 p.6 stops)

  component_loop-resolve :
      (tree : ℕ → List Entry) (fuel : ℕ) (volume : Volume) (ino : ℕ) (old : Bytes)
      (components : List (ℕ × Bytes)) (n : ℕ)
      → AreComponents components
      → Passes tree ino components
      → length components < fuel
      → IsVolume disk layout volume
      → Resolves
          (component_loop (look_in dev layout format) fuel volume ino old (spell components n))
          (resolve tree ino components)
  unfolding component_loop resolve
  component_loop-resolve tree zero volume ino old components n are p lt h = absurd (omega arith)
  component_loop-resolve tree (suc fuel) volume ino old [] n are p lt h =
      rw (component_loop, past-slashes n) (old, volume, refl, h)
  component_loop-resolve tree (suc fuel) volume ino old ((m, []) ∷ components) n are p lt h =
      absurd (omega arith)
  component_loop-resolve tree (suc fuel) volume ino old ((m, c ∷ name) ∷ components) n are p lt h =
      let rest = spell components n in
      let skip = past_slashes-append m c (name ++ rest) are.1.0 in
      let answer : Answers dev disk layout format (inode_at (ino - 1))
          (look_in dev layout format volume ino old (c ∷ (name ++ rest))) rest
          (lookup (tree ino) (c ∷ name)) =
        look_in-lookup tree volume ino old (c ∷ name) rest components m p
          (spell-stops components n are.2) h in
      elim (Option-cases (lookup (tree ino) (c ∷ name))) [
        | inl gone ↦
            let a : look_in dev layout format volume ino old (c ∷ (name ++ rest)) ≡ missing =
              subst (Answers dev disk layout format (inode_at (ino - 1)) _ rest) gone answer in
            rw (component_loop, skip, a, resolve, gone) refl
        | inr (e, there) ↦
            let (bytes, v', a, h') =
              subst (Answers dev disk layout format (inode_at (ino - 1)) _ rest) there answer in
            rw (component_loop, skip, a, resolve, there)
              (component_loop-resolve tree fuel v' e.inode bytes components n
                (components_behind components are.2) (p.7 e there) (omega arith) h')
      ]

  -- `ext2_seek_name` of a path ends within its fuel. It returns the inode that the path leads to in
  -- the tree, from the root on, where each component is the first record of its name in the directory
  -- before it, and leaves the current block in the buffer; it returns 0 if a directory has no record
  -- of the name. It holds for a buffer that holds the current block, components that are not empty
  -- and set apart by slashes, repeated or not, and names without a slash or a 0; and, for each
  -- directory on the way, a number from 1 to below 2 ^ 32, a size below 2 ^ 31, a descriptor, an inode
  -- and blocks that the device delivers, and records that are not of length 0, one behind the other
  -- to the end of the directory, each with its head in it. Blocks are not empty and have at least
  -- four bytes an address, with a square of the addresses below 2 ^ 32; the structure of a record has
  -- less than 2 ^ 31 bytes, and a head that is not empty in front of the name.
  pub ext2_seek_name-resolve :
      (tree : ℕ → List Entry) (volume : Volume) (old : Bytes) (components : List (ℕ × Bytes))
      (n : ℕ)
      → AreComponents components
      → Passes tree format.root_ino components
      → IsVolume disk layout volume
      → Resolves
          (ext2_seek_name dev layout format volume old (spell components n))
          (resolve tree format.root_ino components)
  unfolding ext2_seek_name
  ext2_seek_name-resolve tree volume old components n are p h =
      component_loop-resolve tree (suc (length (spell components n))) volume format.root_ino old
        components n are p (omega (arith, components_fit components n are)) h
