-- ===== src/Stream/Resources.antt =====
-- What `stream_open` and `stream_close` hold and release.
use emile.Common.{ℕ, ◌≡◌, true, false, Option, none, some, Bytes}
use emile.Stream.{
  DeviceId, Target, Host, Held, Stream, Outcome, null, junk_closed, freed_twice, opened,
  has_partition, null_write, nothing_held,
}

abbrev pub all_held : Held
all_held = record { memory = true; device = true; volume = true; file = true }

-- NULL goes with nothing held, and a stream with all. The pointer that was never set is closed only
-- where a partition was asked for and the map cannot be opened, a record is freed twice only where
-- one was and it can; both leave the device open.
abbrev pub Accounts : Host → Target → Outcome → Type 0
Accounts host target (null held) = held ≡ nothing_held
Accounts host target (opened stream held) = (held ≡ all_held) × (stream.target ≡ target)
Accounts host target (junk_closed held) =
    (held ≡ record nothing_held { device = true })
    × ((partition : ℕ) × (target.partition ≡ some partition) × (host.map_open ≡ false))
Accounts host target (freed_twice held) =
    (held ≡ record nothing_held { device = true })
    × (has_partition target ≡ true)
    × (host.map_open ≡ true)
Accounts host target null_write = ⊥

abbrev with_device : Held
with_device = record { memory = true; device = true; volume = false; file = false }

abbrev target_at : DeviceId → ℕ → Option ℕ → Option Bytes → Target
target_at d u p path = record { device = d; unit = u; partition = p; path = path }

-- A partition goes with a map that was opened.
abbrev IsMapped : Host → Option ℕ → Type 0
IsMapped host none = Unit
IsMapped host (some partition) = host.map_open ≡ true
