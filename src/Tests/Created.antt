-- ===== src/Tests/Created.antt =====
-- A container made for a file of two blocks that do not follow one another.
use emile.Common.{ℕ, ◌+◌, ◌*◌, ◌%◌, ◌≡◌, refl, Option, some, [], ◌∷◌, Bytes}
use emile.Common.Slice.{slice}
use emile.LibEmile.{System, emile_scsi_create_container}

abbrev disk : ℕ → ℕ
disk p = p % 251

abbrev read : ℕ → ℕ → Option Bytes
read sector n = some (slice disk (sector * 512) n)

abbrev phys : ℕ → ℕ
phys k = 10 + 5 * k

abbrev system : System
system = record {
  st_size = some 1500;
  first_block = some 63;
  block_size = some 1024;
  fibmap = λ k. some (phys k);
}

create_runs :
    emile_scsi_create_container system 8
    ≡ some (record {
      size = 1500;
      blocks =
          record { offset = 83; count = 2 }
          ∷ record { offset = 93; count = 2 }
          ∷ record { offset = 0; count = 0 }
          ∷ [];
    })
unfolding emile_scsi_create_container
create_runs = refl
