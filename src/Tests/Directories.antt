-- ===== src/Tests/Directories.antt =====
-- A directory of an ISO 9660 volume with two records.
use emile.Common.{
  ℕ, zero, suc, ◌≡◌, ◌⊎◌, refl, true, none, some, [], ◌∷◌, ◌++◌, Bytes, ◌==◌, if◌then◌else◌, arith,
}
use emile.Device.{Device}
use emile.Unix.{strcmp}
use emile.Iso.Directory.{
  Volume, node, missing, readdir, opendir_node, iso9660_name, seek_name, iso9660_get_node,
}
use emile.Iso.Directory.Walk.{spell, walk, iso9660_get_node-walk}
use emile.Iso.Directory.Ends.{iso9660_get_node_ends}

abbrev zeros : ℕ → Bytes
zeros zero = []
zeros (suc n) = 0 ∷ zeros n

-- A record of 35 bytes with an extent, the size of a directory of one extent, and a name of one byte
abbrev entry : ℕ → ℕ → Bytes
entry extent name =
    (35 ∷ 0 ∷ extent ∷ []) ++ (zeros 7 ++ ((0 ∷ 8 ∷ []) ++ (zeros 20 ++ (1 ∷ name ∷ 0 ∷ []))))

-- The directory in extent 20 has "a" in extent 21, which has "b".
abbrev device : Device
device = record {
  blocksize = 2048;
  read_sector = λ sector n.
      if sector == 20
      then some (entry 20 0 ++ (entry 21 b'a' ++ (0 ∷ [])))
      else if sector == 21
      then some (entry 22 b'b' ++ (0 ∷ []))
      else none;
}

abbrev volume : Volume
volume = record {
  device = device;
  layout = record { extent_at = 2; size_at = 10; name_len_at = 32; name_at = 33 };
  ucs_level = 0;
  allocates = true;
}

-- "//a/b/"
abbrev two_components : Bytes
two_components = spell ((2, b'a' ∷ []) ∷ (1, b'b' ∷ []) ∷ []) 1

found_b : iso9660_get_node volume [] (entry 20 0) two_components ≡ node (entry 22 b'b' ++ (0 ∷ []))
unfolding iso9660_get_node readdir opendir_node iso9660_name strcmp
found_b = refl

walk_example :
    iso9660_get_node volume [] (entry 20 0) two_components
    ≡ walk (seek_name volume []) (entry 20 0) ((2, b'a' ∷ []) ∷ (1, b'b' ∷ []) ∷ [])
walk_example =
    iso9660_get_node-walk volume [] (entry 20 0) ((2, b'a' ∷ []) ∷ (1, b'b' ∷ []) ∷ []) 1 refl
      (omega arith, (refl, tt), (omega arith, omega arith, (refl, tt), tt))
      (omega arith, (omega arith, tt))

path_ends_example :
    ((idr : Bytes) × (iso9660_get_node volume [] (entry 20 0) two_components ≡ node idr))
    ⊎ (iso9660_get_node volume [] (entry 20 0) two_components ≡ missing)
path_ends_example = iso9660_get_node_ends volume [] (entry 20 0) two_components refl (omega arith)
