-- ===== src/Iso/Open/Mount.antt =====
-- Mounting against the sequence of the volume descriptors.
use mathlib.Core.Bool.{false≢true}
use emile.Common.{
  ℕ, zero, suc, ◌+◌, ◌≤◌, ◌<◌, ◌≡◌, ◌⊎◌, inl, inr, Bool-cases, refl, ap, ◌∙◌, Bool, true, false,
  ◌&&◌, ◌||◌, some, Bytes, arith, ◌==◌, if◌then◌else◌,
}
use emile.Common.Arith.{equal_of_test}
use emile.Device.{Device}
use emile.Iso.{fetch}
use emile.Iso.Open.{
  Descriptor, is_high_sierra, is_iso9660, is_last, unused3, has_escape, scan, mounted, null,
  with_level, joliet, again, iso9660_mount,
}

-- The device delivers the descriptors from block 16 on, `n` and then one that ends them. The first
-- is primary.
pub record HasDescriptors (dev : Device) (f : Descriptor) (sector : ℕ → Bytes) (n : ℕ)
    : Type 0 where
  pub reads : (i : ℕ) → i ≤ n → dev.read_sector (16 + i) f.descriptor_size ≡ some (sector i)
  pub goes_on : (i : ℕ) → i < n → is_last f (sector i) ≡ false
  pub ends : is_last f (sector n) ≡ true
  pub primary : is_iso9660 f (sector 0) ≡ true
  pub not_sierra : is_high_sierra (sector 0) ≡ false

-- The level of a letter
abbrev pub IsLevel : ℕ → ℕ → Type 0
IsLevel letter level =
    ((letter ≡ b'@') × (level ≡ 1))
    ⊎ (((letter ≡ b'C') × (level ≡ 2)) ⊎ ((letter ≡ b'E') × (level ≡ 3)))

pub IsLevel-unique : (letter l m : ℕ) → IsLevel letter l → IsLevel letter m → l ≡ m
IsLevel-unique letter l m h h' = omega arith

fourth : (a b c d : Bool) → (a && (b && (c && d))) ≡ true → d ≡ true
fourth true true true d h = h
fourth true true false d h = absurd (false≢true h)
fourth true false c d h = absurd (false≢true h)
fourth false b c d h = absurd (false≢true h)

with_level-mounted :
    (f : Descriptor) (d : Bytes)
    → has_escape f d ≡ true
    → (level : ℕ) × (with_level f true d ≡ mounted d level) × IsLevel (unused3 f d 2) level
unfolding has_escape
with_level-mounted f d h = by_letter (unused3 f d 2) (fourth (unused3 f d 0 == b'%') _ _ _ h)
  where
    by_letter :
        (c : ℕ)
        → (c == b'@' || (c == b'C' || c == b'E')) ≡ true
        → (level : ℕ) × ((if c == b'@'
              then mounted d 1
              else if c == b'C'
              then mounted d 2
              else if c == b'E'
              then mounted d 3
              else null)
            ≡ mounted d level)
          × IsLevel c level
    by_letter c h = elim (Bool-cases (c == b'@')) [
      | inl y ↦ rw y (1, refl, inl (equal_of_test c b'@' y, refl))
      | inr n ↦ elim (Bool-cases (c == b'C')) [
        | inl y ↦ rw (n, y) (2, refl, inr (inl (equal_of_test c b'C' y, refl)))
        | inr n' ↦ elim (Bool-cases (c == b'E')) [
          | inl y ↦ rw (n, n', y) (3, refl, inr (inr (equal_of_test c b'E' y, refl)))
          | inr n'' ↦ absurd (false≢true (rw (n, n', n'') at h))
        ]
      ]
    ]

module _ (dev : Device) (f : Descriptor) (sector : ℕ → Bytes) (n : ℕ)
    (h : HasDescriptors dev f sector n) where
  fetched :
      (i block : ℕ) (d : Bytes)
      → block ≡ 16 + i
      → i ≤ n
      → fetch dev block f.descriptor_size d ≡ sector i
  fetched i block d e le =
      let reads : dev.read_sector block f.descriptor_size ≡ some (sector i) =
        ap (λ b. dev.read_sector b f.descriptor_size) e ∙ h.reads i le in
      rw (fetch, reads) refl

  -- The loop steps to the descriptor where it stops.
  scan-stops :
      (stops : Bytes → Bool) (steps at to block fuel : ℕ)
      → at + steps ≡ to
      → block ≡ 16 + at
      → to ≤ n
      → steps < fuel
      → ((i : ℕ) → i < to → stops (sector i) ≡ false)
      → (is_last f (sector to) ≡ true) ⊎ (stops (sector to) ≡ true)
      → scan dev f stops fuel block (sector at) ≡ some (sector to)
  unfolding scan
  scan-stops stops steps at to block zero e e' le lt before here = absurd (omega arith)
  scan-stops stops zero at to block (suc fuel) e e' le lt before here =
      let same : at ≡ to = omega arith in
      ap (λ i. scan dev f stops (suc fuel) block (sector i)) same ∙ halts here
    where
      halts :
          (is_last f (sector to) ≡ true) ⊎ (stops (sector to) ≡ true)
          → scan dev f stops (suc fuel) block (sector to) ≡ some (sector to)
      halts (inl last) = rw (scan, last) refl
      halts (inr stop) = elim (Bool-cases (is_last f (sector to))) [
        | inl last ↦ rw (scan, last) refl
        | inr more ↦ rw (scan, more, stop) refl
      ]
  scan-stops stops (suc steps) at to block (suc fuel) e e' le lt before here =
      rw
        (
          scan,
          h.goes_on at (omega arith),
          before at (omega arith),
          fetched (at + 1) (block + 1) (sector at) (omega arith) (omega arith),
        )
        (scan-stops stops steps (at + 1) to (block + 1) fuel (omega arith) (omega arith) le
          (omega arith) before here)

  first-ends : (fuel : ℕ) → n < fuel → scan dev f (λ d. false) fuel 16 (sector 0) ≡ some (sector n)
  first-ends fuel lt =
      scan-stops (λ d. false) n 0 n 16 fuel (omega arith) (omega arith) (omega arith) lt
        (λ i below. refl) (inl h.ends)

  -- Behind the tests of the first descriptor
  iso9660_mount-joliet :
      (fuel : ℕ) (old : Bytes)
      → n < fuel
      → iso9660_mount dev f true true fuel old
        ≡ joliet f true (scan dev f (has_escape f) fuel 16 (sector 0))
  unfolding iso9660_mount again
  iso9660_mount-joliet fuel old lt =
      rw
        (
          fetched 0 16 old (omega arith) (omega arith),
          h.not_sierra,
          h.primary,
          iso9660_mount,
          first-ends fuel lt,
          again,
          fetched 0 16 old (omega arith) (omega arith),
          h.primary,
        )
        refl

  -- `iso9660_mount` ends within its fuel. If a descriptor in front of the one that ends them has the
  -- escape sequence of Joliet, it mounts the first one that has, with the level 1, 2 or 3 for its
  -- letter @, C or E; if none has, it returns NULL, also on a volume of ISO 9660.
  pub iso9660_mount-Joliet :
      (fuel : ℕ) (old : Bytes)
      → n < fuel
      → ((k : ℕ)
          → k < n
          → ((i : ℕ) → i < k → has_escape f (sector i) ≡ false)
          → has_escape f (sector k) ≡ true
          → (level : ℕ) × (iso9660_mount dev f true true fuel old ≡ mounted (sector k) level)
            × IsLevel (unused3 f (sector k) 2) level)
        × (((i : ℕ) → i < n → has_escape f (sector i) ≡ false)
            → iso9660_mount dev f true true fuel old ≡ null)
  iso9660_mount-Joliet fuel old lt = (
    λ k below before here.
        let (level, is_mounted, is_level) = with_level-mounted f (sector k) here in
        (
          level,
          iso9660_mount-joliet fuel old lt
              ∙ ap (joliet f true) (
                  scan-stops (has_escape f) k 0 k 16 fuel (omega arith) (omega arith) (omega arith)
                    (omega arith) before (inr here))
              ∙ ap (λ b. if b then null else with_level f true (sector k)) (h.goes_on k below)
              ∙ is_mounted,
          is_level,
        ),
    λ before.
        iso9660_mount-joliet fuel old lt
        ∙ ap (joliet f true) (
            scan-stops (has_escape f) n 0 n 16 fuel (omega arith) (omega arith) (omega arith) lt
              before (inl h.ends))
        ∙ ap (λ b. if b then null else with_level f true (sector n)) h.ends,
  )
