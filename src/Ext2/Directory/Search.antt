-- ===== src/Ext2/Directory/Search.antt =====
-- The search in a directory, against the list of its records.
use mathlib.Core.Path.{subst}
use mathlib.Core.Bool.{false≢true}
use emile.Common.{
  ℕ, zero, suc, ◌+◌, ◌-◌, ◌*◌, ◌^◌, ◌≤◌, ◌<◌, ◌≡◌, refl, sym, ap, ap₂, ◌∙◌, inl, inr, Bool, true,
  false, ◌&&◌, Option, none, some, List, [], ◌∷◌, ◌++◌, Bytes, arith, leb, ◌==◌, if◌then◌else◌,
  Bool-cases, min, drop, length,
}
use emile.Common.Slice.{slice, length-slice}
use emile.Device.{Device}
use emile.Ext2.{Layout, Volume, Inode, ext2_read_data, failed}
use emile.Ext2.Address.{IsLocated, IsVolume, IsLayout}
use emile.Ext2.Read.{content, block_of, ext2_read_data-bytes}
use emile.Ext2.Directory.{
  Format, Entry, entry_of, no_entry, entry, entry_outcome, ext2_dir_entry, is_component, Sought,
  found, missing, search,
}

abbrev pub same : Bytes → Bytes → Bool
same [] [] = true
same [] (c ∷ s) = false
same (d ∷ name) [] = false
same (d ∷ name) (c ∷ s) = (d == c) && same name s

-- The first record with a name
abbrev pub lookup : List Entry → Bytes → Option Entry
lookup [] name = none
lookup (e ∷ entries) name =
    let rest = lookup entries name in if same name e.name then some e else rest

-- No slash and no 0 is in a name.
abbrev pub IsName : Bytes → Type 0
IsName [] = Unit
IsName (c ∷ s) = ((c == b'/') ≡ false) × ((c == 0) ≡ false) × IsName s

abbrev pub StopsName : Bytes → Type 0
StopsName [] = Unit
StopsName (c ∷ s) = (c == b'/') ≡ true

is_component-same :
    (name rest e : Bytes)
    → IsName name
    → IsName e
    → StopsName rest
    → is_component (name ++ rest) e ≡ some (same name e)
unfolding is_component
is_component-same [] [] [] hn he stops = refl
is_component-same [] (d ∷ rest) [] hn he stops = ap some stops
is_component-same [] [] (c ∷ e) hn he stops = rw (he.1, is_component) refl
is_component-same [] (d ∷ rest) (c ∷ e) hn he stops = rw (differ d c stops he.0, is_component) refl
  where
    differ : (d c : ℕ) → (d == b'/') ≡ true → (c == b'/') ≡ false → (d == c) ≡ false
    differ d c h h' = ground arith
is_component-same (d ∷ name) rest [] hn he stops = ap some hn.0
is_component-same (d ∷ name) rest (c ∷ e) hn he stops = elim (Bool-cases (d == c)) [
  | inl h ↦ rw (h, is_component) (is_component-same name rest e hn.2 he.2 stops)
  | inr h ↦ rw (h, is_component) refl
]

second : (a b : Bool) → (a && b) ≡ true → b ≡ true
second true b h = h
second false b h = absurd (false≢true h)

drop-same : (name rest e : Bytes) → same name e ≡ true → drop (length e) (name ++ rest) ≡ rest
drop-same [] rest [] h = refl
drop-same [] rest (c ∷ e) h = absurd (false≢true h)
drop-same (d ∷ name) rest [] h = absurd (false≢true h)
drop-same (d ∷ name) rest (c ∷ e) h = drop-same name rest e (second (d == c) (same name e) h)

module _ (dev : Device) (disk : ℕ → ℕ) (layout : Layout) (format : Format) (inode : Inode) where
  -- The bytes that are read of the record at an index of the directory
  abbrev pub record_at : ℕ → Bytes
  record_at index =
      slice (content disk layout.block_size (block_of disk layout inode)) index
        (min format.entry_size (inode.i_size - index))

  -- The directory has these records from an index on, one behind the other, to its end; what is
  -- behind the last one does not matter.
  abbrev pub Lists : ℕ → List Entry → Type 0
  Lists index [] = inode.i_size ≤ index
  Lists index (e ∷ entries) =
      (index + format.name_place ≤ inode.i_size)
      × ((rest : Bytes) → entry_of format (record_at index ++ rest) ≡ e)
      × (0 < e.rec_len)
      × IsName e.name
      × Lists (index + e.rec_len) entries

  -- The search for a component, in front of `rest`, comes to this record.
  abbrev pub Answers : Sought → Bytes → Option Entry → Type 0
  Answers s rest none = s ≡ missing
  Answers s rest (some e) =
      (bytes : Bytes) × (v : Volume) × (s ≡ found e.inode rest bytes v) × IsVolume disk layout v

pub record IsDirectory (dev : Device) (disk : ℕ → ℕ) (layout : Layout) (format : Format)
    (inode : Inode) : Type 0 where
  pub is_layout : IsLayout layout
  pub some_bytes : 0 < layout.block_size
  pub ints : inode.i_size < 2 ^ 31
  pub entry_ints : format.entry_size < 2 ^ 31
  pub some_head : 0 < format.name_place
  pub room : format.name_place ≤ format.entry_size
  pub mapped : (l : ℕ) → l * layout.block_size < inode.i_size → IsLocated dev disk layout inode l

module _ (dev : Device) (disk : ℕ → ℕ) (layout : Layout) (format : Format) (inode : Inode)
    (d : IsDirectory dev disk layout format inode) where
  refused :
      (volume : Volume) (index : ℕ)
      → leb inode.i_size index ≡ true
      → ext2_read_data dev layout volume inode index format.entry_size ≡ failed
  unfolding ext2_read_data
  refused volume index e = rw e refl

  pub ext2_dir_entry-end :
      (volume : Volume) (index : ℕ) (old : Bytes)
      → inode.i_size ≤ index
      → ext2_dir_entry dev layout format volume inode index old ≡ no_entry
  unfolding ext2_dir_entry
  ext2_dir_entry-end volume index old h =
      ap (entry_outcome format old) (refused volume index (ground arith))

  pub ext2_dir_entry-record_at :
      (volume : Volume) (index : ℕ) (old : Bytes)
      → IsVolume disk layout volume
      → index + format.name_place ≤ inode.i_size
      → (behind : Bytes) × (v : Volume) × (ext2_dir_entry dev layout format volume inode index old
          ≡ entry (record_at dev disk layout format inode index ++ behind) v)
        × IsVolume disk layout v
  unfolding ext2_dir_entry
  ext2_dir_entry-record_at volume index old h room =
      let (v, e, h') =
        ext2_read_data-bytes dev disk layout d.is_layout inode d.mapped volume index
          format.entry_size d.some_bytes d.ints (omega (arith, d.ints, d.entry_ints)) h
          (omega (arith, d.some_head)) in
      (
        drop (length (record_at dev disk layout format inode index)) old,
        v,
        ap (entry_outcome format old) e ∙ rw whole refl,
        h',
      )
    where
      whole : leb format.name_place (length (record_at dev disk layout format inode index)) ≡ true
      whole =
          rw length-slice
            (holds format.name_place format.entry_size (inode.i_size - index) d.room (omega arith))
        where
          holds : (n m k : ℕ) → n ≤ m → n ≤ k → leb n (min m k) ≡ true
          holds n m k h h' = ground arith

  pub search-lookup :
      (fuel : ℕ) (volume : Volume) (index : ℕ) (old component rest : Bytes) (entries : List Entry)
      → inode.i_size - index < fuel
      → IsVolume disk layout volume
      → Lists dev disk layout format inode index entries
      → IsName component
      → StopsName rest
      → Answers dev disk layout format inode
          (search dev layout format fuel volume inode index old (component ++ rest))
          rest
          (lookup entries component)
  unfolding search
  search-lookup zero volume index old component rest entries lt h l hn stops = absurd (omega arith)
  search-lookup (suc fuel) volume index old component rest [] lt h l hn stops =
      rw (search, ext2_dir_entry-end volume index old l) refl
  search-lookup (suc fuel) volume index old component rest (e ∷ entries) lt h l hn stops =
      let (behind, v, read, h') = ext2_dir_entry-record_at volume index old h l.0 in
      let x : Entry = entry_of format (record_at dev disk layout format inode index ++ behind) in
      let is_e : x ≡ e = l.1 behind in
      let is_name : x.name ≡ e.name = ap (λ t. t.name) is_e in
      let is_ino : x.inode ≡ e.inode = ap (λ t. t.inode) is_e in
      let is_len : x.rec_len ≡ e.rec_len = ap (λ t. t.rec_len) is_e in
      let same_name = is_component-same component rest e.name hn l.3 stops in
      elim (Bool-cases (same component e.name)) [
        | inl y ↦
            rw (search, read, is_name, same_name, y)
              (
                record_at dev disk layout format inode index ++ behind,
                v,
                ap₂ (λ i t. found i t (record_at dev disk layout format inode index ++ behind) v)
                    is_ino
                    (ap (λ n. drop (length n) (component ++ rest)) is_name
                      ∙ drop-same component rest e.name y),
                h',
              )
        | inr n ↦
            rw (search, read, is_name, same_name, n)
              (search-lookup fuel v (index + x.rec_len)
                (record_at dev disk layout format inode index ++ behind) component rest entries
                (omega (arith, is_len, l.2, d.some_head)) h'
                (subst (λ k. Lists dev disk layout format inode (index + k) entries) (sym is_len)
                  l.4)
                hn stops)
      ]
