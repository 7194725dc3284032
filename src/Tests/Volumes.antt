-- ===== src/Tests/Volumes.antt =====
-- A volume with Joliet names: mounting it, and a file on it.
use emile.Common.{
  ℕ, zero, suc, ◌*◌, ◌+◌, ◌/◌, ◌%◌, ◌<◌, ◌≡◌, refl, inr, true, false, some, [], ◌∷◌, ◌++◌, Bytes,
  arith, ◌==◌, if◌then◌else◌, get_or,
}
use emile.Common.Slice.{slice}
use emile.Device.{Device}
use emile.Unix.{strcmp}
use emile.Iso.Directory.{node, seek_name, readdir, opendir_node, iso9660_name}
use emile.Iso.Directory.Walk.{spell, walk}
use emile.Iso.Open.{
  Descriptor, is_last, is_iso9660, is_high_sierra, has_escape, mounted, iso9660_mount, volume_of,
  iso9660_get_root_node,
}
use emile.Iso.Open.Mount.{HasDescriptors}
use emile.Iso.Open.Read.{OpensAndReads, iso9660_mount-iso9660_open-iso9660_read}

abbrev zeros : ℕ → Bytes
zeros zero = []
zeros (suc n) = 0 ∷ zeros n

-- A record with an extent, a size of two bytes, and a Unicode name of one character
abbrev a_record : ℕ → ℕ → ℕ → ℕ → Bytes
a_record extent low high name =
    (36 ∷ 0 ∷ extent ∷ [])
    ++ (zeros 7 ++ ((low ∷ high ∷ []) ++ (zeros 20 ++ (2 ∷ 0 ∷ name ∷ 0 ∷ []))))

abbrev cd001 : Bytes
cd001 = b'C' ∷ b'D' ∷ b'0' ∷ b'0' ∷ b'1' ∷ []

-- The bytes of an extent: the descriptors, the root directory in extent 20, and the file f in 21
abbrev extent_bytes : ℕ → Bytes
extent_bytes extent =
    if extent == 16
    then 1 ∷ (cd001 ++ (1 ∷ []))
    else if extent == 17
    then 2
      ∷ (cd001 ++ ((1 ∷ zeros 13) ++ ((b'%' ∷ b'/' ∷ b'E' ∷ 0 ∷ zeros 8) ++ a_record 20 0 8 0)))
    else if extent == 18
    then 255 ∷ []
    else if extent == 20
    then a_record 21 5 0 b'f'
    else b'h' ∷ b'e' ∷ b'l' ∷ b'l' ∷ b'o' ∷ []

abbrev disk : ℕ → ℕ
disk p = get_or (extent_bytes (p / 2048)) (p % 2048) 0

abbrev device : Device
device = record { blocksize = 2048; read_sector = λ sector n. some (slice disk (sector * 2048) n) }

abbrev descriptor : Descriptor
descriptor = record {
  descriptor_size = 96;
  type_at = 0;
  id_at = 1;
  version_at = 6;
  unused3_at = 20;
  root_directory_record_at = 32;
  vd_primary = 1;
  vd_end = 255;
  standard_id = cd001;
  record_layout = record { extent_at = 2; size_at = 10; name_len_at = 32; name_at = 33 };
}

abbrev sector : ℕ → Bytes
sector i = slice disk ((16 + i) * 2048) 96

mount_runs : iso9660_mount device descriptor true true 3 [] ≡ mounted (sector 1) 3
unfolding iso9660_mount
mount_runs = refl

device-HasDescriptors : HasDescriptors device descriptor sector 2
unfolding is_iso9660 is_high_sierra
device-HasDescriptors = record {
  reads = λ i le. refl;
  goes_on = more;
  ends = refl;
  primary = refl;
  not_sierra = refl;
}
  where
    more : (i : ℕ) → i < 2 → is_last descriptor (sector i) ≡ false
    more zero lt = refl
    more (suc zero) lt = refl
    more (suc (suc i)) lt = absurd (omega arith)

abbrev idr : Bytes
idr = slice disk (20 * 2048) 2048

root_leads :
    walk
      (seek_name (volume_of device descriptor 3) [])
      (iso9660_get_root_node descriptor (sector 1))
      ((1, b'f' ∷ []) ∷ [])
    ≡ node idr
unfolding walk seek_name readdir opendir_node iso9660_name strcmp
root_leads = refl

iso9660_mount-iso9660_open-iso9660_read_example :
    (iso9660_mount device descriptor true true 3 [] ≡ mounted (sector 1) 3)
    × OpensAndReads disk
        (λ p. 0)
        (volume_of device descriptor 3)
        []
        []
        (iso9660_get_root_node descriptor (sector 1))
        (spell ((1, b'f' ∷ []) ∷ []) 0)
        idr
        3
unfolding has_escape
iso9660_mount-iso9660_open-iso9660_read_example =
    iso9660_mount-iso9660_open-iso9660_read disk (λ p. 0) device descriptor sector 2 1 3 3 [] [] []
      idr ((1, b'f' ∷ []) ∷ []) 0 3 (λ block size. refl) device-HasDescriptors (omega arith)
      (omega arith) (first) refl (inr (inr (refl, refl))) (omega arith, (refl, tt), tt)
      (omega arith, tt) root_leads (omega arith)
  where
    first : (i : ℕ) → i < 1 → has_escape descriptor (sector i) ≡ false
    first zero lt = refl
    first (suc i) lt = absurd (omega arith)
