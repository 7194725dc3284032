-- ===== src/LibEmile/Extents.antt =====
-- The extents that are put in the table, against the blocks that the system maps the file to.
use emile.Common.{
  ℕ, zero, suc, ◌+◌, ◌-◌, ◌*◌, ◌/◌, ◌%◌, ◌^◌, ◌≤◌, ◌<◌, ◌≡◌, ◌≢◌, inl, inr, refl, sym, ap, ap₂, ◌∙◌,
  Option, some, List, [], ◌∷◌, ◌++◌, arith, ltb, ◌==◌, if◌then◌else◌, Bool-cases, true, false,
  length, length-append,
}
use mathlib.Core.Path.{subst}
use emile.Common.Arith.{block_split, mod-lt_of_pos, div-lt_of_lt_mul, quotient_of, remainder_of}
use emile.Container.{EmileBlock}
use emile.Container.Map.{contents, total, IsTable}
use emile.LibEmile.{System, sector_size, entry, add_block, end_list, map_loop}

-- The bytes that all entries hold.
abbrev pub size_of : ℕ → List EmileBlock → ℕ
size_of bs [] = 0
size_of bs (b ∷ blocks) = bs * b.count + size_of bs blocks

-- An entry that is not the end of the list, whose blocks are machine words and satisfy `P`.
abbrev pub IsExtent : (ℕ → Type 0) → EmileBlock → Type 0
IsExtent P b =
    (b.offset ≢ 0) × (b.offset + b.count < 2 ^ 32) × ((i : ℕ) → i < b.count → P (b.offset + i))

abbrev pub AllExtents : (ℕ → Type 0) → List EmileBlock → Type 0
AllExtents P [] = Unit
AllExtents P (b ∷ blocks) = IsExtent P b × AllExtents P blocks

pub contents-append :
    (disk : ℕ → ℕ) (bs : ℕ) (xs ys : List EmileBlock) (p : ℕ)
    → contents disk bs (xs ++ ys) p ≡ (
        if ltb p (size_of bs xs)
        then contents disk bs xs p
        else contents disk bs ys (p - size_of bs xs))
contents-append disk bs [] ys p = ground (arith, ap (contents disk bs ys) (zero_size p))
  where
    zero_size : (p : ℕ) → p - 0 ≡ p
    zero_size p = omega arith
contents-append disk bs (b ∷ xs) ys p = ground (
  arith,
  contents-append disk bs xs ys (p - bs * b.count),
  ap (contents disk bs ys) (regroup p (bs * b.count) (size_of bs xs)),
)
  where
    regroup : (p m n : ℕ) → p - m - n ≡ p - (m + n)
    regroup p m n = omega arith

size_of-append :
    (bs : ℕ) (xs ys : List EmileBlock) → size_of bs (xs ++ ys) ≡ size_of bs xs + size_of bs ys
size_of-append bs [] ys = omega arith
size_of-append bs (b ∷ xs) ys = omega (arith, size_of-append bs xs ys)

AllExtents-append :
    (P : ℕ → Type 0) (xs ys : List EmileBlock)
    → AllExtents P xs
    → AllExtents P ys
    → AllExtents P (xs ++ ys)
AllExtents-append P [] ys hx hy = hy
AllExtents-append P (b ∷ xs) ys (h, hx) hy = (h, AllExtents-append P xs ys hx hy)

-- Extents with the end of the list behind them are a table.
pub AllExtents-IsTable :
    (P : ℕ → Type 0) (xs : List EmileBlock) → AllExtents P xs → IsTable P (xs ++ entry 0 0 ∷ [])
AllExtents-IsTable P [] h = inl refl
AllExtents-IsTable P (b ∷ xs) ((n, w, all), h) = inr (w, all, AllExtents-IsTable P xs h)

pub total-size_of :
    (P : ℕ → Type 0) (bs : ℕ) (xs : List EmileBlock)
    → AllExtents P xs
    → total bs (xs ++ entry 0 0 ∷ []) ≡ size_of bs xs
total-size_of P bs [] h = refl
total-size_of P bs (b ∷ xs) ((n, w, all), h) = ground (arith, total-size_of P bs xs h)

module _ (disk phys : ℕ → ℕ) (P : ℕ → Type 0) (first spb n : ℕ) (positive : 0 < spb)
    (small : n * spb < 2 ^ 16) (words : (l : ℕ) → l < n → first + phys l * spb + n * spb < 2 ^ 32)
    (beyond : (l : ℕ) → l < n → 0 < first + phys l * spb)
    (ready : (l i : ℕ) → l < n → i < spb → P (first + phys l * spb + i)) where
  -- The byte of the file at a position.
  abbrev pub file_byte : ℕ → ℕ
  file_byte p =
      disk ((first + phys (p / (spb * sector_size)) * spb) * sector_size + p % (spb * sector_size))

  -- The entries describe the first `l` blocks of the file.
  pub record Describes (blocks : List EmileBlock) (l : ℕ) : Type 0 where
    pub covers : size_of sector_size blocks ≡ l * (spb * sector_size)
    pub bytes :
        (p : ℕ) → p < l * (spb * sector_size) → contents disk sector_size blocks p ≡ file_byte p
    pub extents : AllExtents P blocks
    pub few : length blocks ≤ l

  -- Blocks that follow one another on the disk.
  abbrev pub Run : ℕ → ℕ → ℕ → Type 0
  Run l zone a = (i : ℕ) → i < a → phys (l + i) ≡ zone + i

  abbrev extent : ℕ → ℕ → EmileBlock
  extent zone a = entry (first + zone * spb) (a * spb)

  -- A position in a run, in blocks and in sectors.
  Run-byte :
      (l zone a q : ℕ)
      → Run l zone a
      → q < a * (spb * sector_size)
      → disk ((first + zone * spb) * sector_size + q) ≡ file_byte (l * (spb * sector_size) + q)
  Run-byte l zone a q run lt =
      let size = spb * sector_size in
      let i = q / size in
      let split : i * size + q % size ≡ q = block_split q size (omega arith) in
      let inside : q % size < size = mod-lt_of_pos q size (omega arith) in
      let below : i < a = div-lt_of_lt_mul q size a (omega arith) (grind arith) in
      let place : l * size + q ≡ (l + i) * size + q % size = grind arith in
      let block : (l * size + q) / size ≡ l + i =
        ap (λ t. t / size) place ∙ quotient_of size (l + i) (q % size) inside in
      let rest : (l * size + q) % size ≡ q % size =
        ap (λ t. t % size) place ∙ remainder_of size (l + i) (q % size) inside in
      ap disk (
        spread zone i (q % size) q split
        ∙ sym (ap₂ (λ b r. (first + b * spb) * sector_size + r) (ap phys block ∙ run i below) rest))
    where
      spread :
          (z i r q : ℕ)
          → i * (spb * sector_size) + r ≡ q
          → (first + z * spb) * sector_size + q ≡ (first + (z + i) * spb) * sector_size + r
      spread z i r q e = grind arith

  -- What the entry of a run keeps is the run.
  extent_fields :
      (l zone a : ℕ)
      → Run l zone a
      → 0 < a
      → l + a ≤ n
      → ((extent zone a).offset ≡ first + zone * spb) × ((extent zone a).count ≡ a * spb)
  extent_fields l zone a run some_blocks le =
      let start : phys l ≡ zone = ap phys (omega arith) ∙ run 0 some_blocks ∙ omega arith in
      let less : a * spb ≤ n * spb = grind arith in
      (omega (arith, words l (omega arith), ap (λ t. first + t * spb) start), omega (arith, small))

  extent-IsExtent : (l zone a : ℕ) → Run l zone a → 0 < a → l + a ≤ n → IsExtent P (extent zone a)
  extent-IsExtent l zone a run some_blocks le =
      let start : phys l ≡ zone = ap phys (omega arith) ∙ run 0 some_blocks ∙ omega arith in
      let less : a * spb ≤ n * spb = grind arith in
      let (offset, count) = extent_fields l zone a run some_blocks le in
      rw (offset, count)
        (
          (λ e. omega (arith, beyond l (omega arith), ap (λ t. first + t * spb) start)),
          omega (arith, words l (omega arith), ap (λ t. first + t * spb) start),
          λ i lt.
              let below : i / spb < a = div-lt_of_lt_mul i spb a positive (grind arith) in
              subst P
                (sector (i / spb) (i % spb) i (run (i / spb) below) (block_split i spb positive))
                (ready (l + i / spb) (i % spb) (omega arith) (mod-lt_of_pos i spb positive)),
        )
    where
      sector :
          (j r i : ℕ)
          → phys (l + j) ≡ zone + j
          → j * spb + r ≡ i
          → first + phys (l + j) * spb + r ≡ first + zone * spb + i
      sector j r i e split = rw e (grind arith)

  Describes-extent :
      (blocks : List EmileBlock) (l zone a : ℕ)
      → Describes blocks l
      → Run l zone a
      → 0 < a
      → l + a ≤ n
      → Describes (blocks ++ extent zone a ∷ []) (l + a)
  Describes-extent blocks l zone a h run some_blocks le =
      let (offset, count) = extent_fields l zone a run some_blocks le in
      record {
        covers =
            size_of-append sector_size blocks (extent zone a ∷ [])
            ∙ rw (h.covers, count) (grind arith);
        bytes = λ p lt. joined p lt offset count;
        extents =
            AllExtents-append P blocks (extent zone a ∷ []) h.extents
              (extent-IsExtent l zone a run some_blocks le, tt);
        few = omega (arith, h.few, length-append blocks (extent zone a ∷ []));
      }
    where
      distribute : (x y z : ℕ) → (x + y) * z ≡ x * z + y * z
      distribute x y z = grind arith

      ltb-false : (x y : ℕ) → ltb x y ≡ false → y ≤ x
      ltb-false x y e = ground arith

      joined :
          (p : ℕ)
          → p < (l + a) * (spb * sector_size)
          → (extent zone a).offset ≡ first + zone * spb
          → (extent zone a).count ≡ a * spb
          → contents disk sector_size (blocks ++ extent zone a ∷ []) p ≡ file_byte p
      joined p lt offset count =
          contents-append disk sector_size blocks (extent zone a ∷ []) p
          ∙ rw h.covers (elim (Bool-cases (ltb p (l * (spb * sector_size)))) [
            | inl old ↦ rw old (h.bytes p (ground arith))
            | inr new ↦
                let size = spb * sector_size in
                let q = p - l * size in
                let inside : q < a * size =
                  omega (arith, distribute l a size, ltb-false p (l * size) new) in
                let here : ltb q (sector_size * (extent zone a).count) ≡ true =
                  rw count (grind arith) in
                rw (new, here, offset)
                  (Run-byte l zone a q run inside
                    ∙ ap file_byte (omega (arith, ltb-false p (l * size) new)))
          ])

  -- The table of the whole file.
  abbrev pub Completes : Option (List EmileBlock) → Type 0
  Completes r =
      (blocks : List EmileBlock) × (r ≡ some (blocks ++ entry 0 0 ∷ [])) × Describes blocks n

  module _ (maxblocks : ℕ) (room : n < maxblocks) where
    add_block-some :
        (blocks : List EmileBlock) (a b l : ℕ)
        → length blocks ≤ l
        → l < maxblocks
        → add_block maxblocks blocks a b ≡ some (blocks ++ entry a b ∷ [])
    unfolding add_block
    add_block-some blocks a b l few lt = ground (arith, length-append blocks (entry a b ∷ []))

    end_list-Completes :
        (blocks : List EmileBlock) (l zone a : ℕ)
        → Describes blocks l
        → Run l zone a
        → 0 < a
        → l + a ≡ n
        → Completes (end_list maxblocks first spb blocks zone a)
    unfolding end_list
    end_list-Completes blocks l zone a h run some_blocks e =
        let d = Describes-extent blocks l zone a h run some_blocks (omega arith) in
        (
          blocks ++ extent zone a ∷ [],
          rw
              (
                end_list,
                add_block-some blocks (first + zone * spb) (a * spb) l h.few (omega arith),
                add_block-some (blocks ++ extent zone a ∷ []) 0 0 (l + a) d.few (omega arith),
              )
              refl,
          subst (Describes (blocks ++ extent zone a ∷ [])) e d,
        )

    pub map_loop-Completes :
        (sys : System) (rounds logical l a last : ℕ) (blocks : List EmileBlock) (zone : ℕ)
        → ((k : ℕ) → k < n → sys.fibmap k ≡ some (phys k))
        → Describes blocks l
        → Run l zone a
        → 0 < a
        → last + 1 ≡ zone + a
        → logical ≡ l + a
        → logical + rounds ≡ n
        → Completes (map_loop sys maxblocks first spb rounds logical blocks zone a last)
    unfolding map_loop
    map_loop-Completes sys zero logical l a last blocks zone answers h run some_blocks e here all =
        end_list-Completes blocks l zone a h run some_blocks (omega arith)
    map_loop-Completes sys (suc rounds) logical l a last blocks zone answers h run some_blocks e
          here all =
        elim (Bool-cases (phys logical == last + 1)) [
          | inl next ↦
              rw (map_loop, answers logical (omega arith), next)
                (map_loop-Completes sys rounds (logical + 1) l (a + 1) (phys logical) blocks zone
                  answers h (longer l zone a run (ap phys (sym here) ∙ ground arith)) (omega arith)
                  (ground arith) (omega arith) (omega arith))
          | inr jump ↦
              rw
                (
                  map_loop,
                  answers logical (omega arith),
                  jump,
                  add_block-some blocks (first + zone * spb) (a * spb) l h.few (omega arith),
                )
                (map_loop-Completes sys rounds (logical + 1) logical 1 (phys logical)
                  (blocks ++ extent zone a ∷ []) (phys logical) answers
                  (subst (Describes (blocks ++ extent zone a ∷ [])) (sym here)
                    (Describes-extent blocks l zone a h run some_blocks (omega arith)))
                  (λ i lt. at_start i logical (omega arith)) (omega arith) (omega arith)
                  (omega arith) (omega arith))
        ]
      where
        at_start : (i logical : ℕ) → i ≡ 0 → phys (logical + i) ≡ phys logical + i
        at_start i logical e =
            let eq : logical + i ≡ logical = omega arith in ap phys eq ∙ omega arith

        longer : (l zone a : ℕ) → Run l zone a → phys (l + a) ≡ zone + a → Run l zone (a + 1)
        longer l zone a run end i lt = elim (Bool-cases (i == a)) [
          | inl same ↦
              let eq : i ≡ a = ground arith in
              ap (λ t. phys (l + t)) eq ∙ end ∙ ap (λ t. zone + t) (sym eq)
          | inr before ↦ run i (ground arith)
        ]
