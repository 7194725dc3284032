-- ===== src/Tests/Paths.antt =====
-- The path of a stream.
use emile.Common.{◌≡◌, refl, true, false, none, some, [], ◌∷◌, ◌++◌, Bytes, arith, ◌==◌}
use emile.Unix.{digit_of}
use emile.Unix.Strtol.{number}
use emile.Stream.{
  Support, Host, ext2, scsi, Target, Stream, junk_closed, freed_twice, nothing_held, get_fs,
  get_device, stream_open,
}
use emile.Stream.Path.{fs_word, device_text, partition_of, get_device-device_text}

abbrev booter : Support
booter = record {
  floppy = true;
  scsi = true;
  map = true;
  block = true;
  container = true;
  iso9660 = true;
  ext2 = true;
}

-- "vmlinux" as far as it matters
abbrev file : Bytes
file = b'v' ∷ b'm' ∷ []

-- "ext2:(sd6,12)vm"
abbrev path : Bytes
path = fs_word ext2 ++ device_text scsi (b'6' ∷ []) (some (b'1' ∷ b'2' ∷ [])) file

abbrev target : Target
target = record { device = scsi; unit = 6; partition = some 12; path = some file }

abbrev good_host : Host
good_host = record {
  malloc = true;
  floppy_open = λ u. true;
  scsi_open = λ u. u == 6;
  map_open = true;
  map_read = λ p. p == 12;
  is_ext2 = true;
  is_iso9660 = false;
  mount = λ fs. true;
  open_file = λ fs p. true;
  umount = λ fs. true;
}

abbrev stream : Stream
stream = record { fs_id = ext2; target = target; functions = ext2 }

-- A device without a map
no_map_runs :
    stream_open (record good_host { map_open = false }) booter none path
    ≡ junk_closed (record nothing_held { device = true })
unfolding stream_open
no_map_runs = refl

-- A partition that is not in the map, and a file that is not on it
no_partition_runs :
    (stream_open (record good_host { map_read = λ p. false }) booter none path
      ≡ freed_twice (record nothing_held { device = true }))
    × (stream_open (record good_host { open_file = λ fs p. false }) booter none path
        ≡ freed_twice (record nothing_held { device = true }))
unfolding stream_open
no_partition_runs = (refl, refl)

get_device_example :
    (get_fs booter path ≡ (ext2, device_text scsi (b'6' ∷ []) (some (b'1' ∷ b'2' ∷ [])) file))
    × (get_device booter none (device_text scsi (b'6' ∷ []) (some (b'1' ∷ b'2' ∷ [])) file)
        ≡ some (record {
          device = scsi;
          unit = number 10 (b'6' ∷ []);
          partition = partition_of (some (b'1' ∷ b'2' ∷ []));
          path = some file;
        }))
unfolding digit_of
get_device_example =
    get_device-device_text booter none ext2 scsi (b'6' ∷ []) (some (b'1' ∷ b'2' ∷ [])) file refl
      refl (omega arith) (omega arith) (omega arith) (λ n e. ground arith)
