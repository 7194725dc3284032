-- ===== src/BootInfo/Records.antt =====
-- What the kernel reads in the memory that `set_kernel_bootinfo` leaves.

use mathlib.Core.Path.{subst}
use emile.Common.{
  ℕ, ◌+◌, ◌*◌, ◌/◌, ◌%◌, ◌^◌, ◌≤◌, ◌<◌, ◌≡◌, ◌≢◌, ◌⊎◌, refl, ap, ap₂, ◌∙◌, inl, some, List, [], ◌∷◌,
  ◌++◌, Bytes, arith, length, get_or, ◌==◌, true,
}
use emile.Common.Slice.{put_bytes, put_bytes_in, put_bytes_out}
use emile.BootInfo.{Memory, short_bytes, aligned_size, Writer, ◌>>◌, skip, add_v2_boot_record}

abbrev pub short_at : Memory → ℕ → ℕ
short_at m p = 2 ^ 8 * m p + m (p + 1)

-- The kernel goes from record to record by the size that each one says, up to the tag 0.
abbrev pub Parsed : Memory → ℕ → List (ℕ × Bytes) → Type 0
Parsed m p [] = short_at m p ≡ 0
Parsed m p ((tag, bytes) ∷ rest) =
    (short_at m p ≡ tag)
    × (tag ≢ 0)
    × ((i : ℕ) → i < length bytes → m (p + 4 + i) ≡ get_or bytes i 0)
    × Parsed m (p + short_at m (p + 2)) rest

-- The room that records take
abbrev pub room_of : List (ℕ × Bytes) → ℕ
room_of [] = 0
room_of ((tag, bytes) ∷ rest) = 4 + aligned_size (length bytes) + room_of rest

-- Records from `p` on, and what is behind them
abbrev pub Listed : Memory → ℕ → List (ℕ × Bytes) → Type 0
Listed m p [] = Unit
Listed m p ((tag, bytes) ∷ rest) =
    (short_at m p ≡ tag)
    × (short_at m (p + 2) ≡ 4 + aligned_size (length bytes))
    × ((i : ℕ) → i < length bytes → m (p + 4 + i) ≡ get_or bytes i 0)
    × Listed m (p + (4 + aligned_size (length bytes))) rest

Listed-kept :
    (rs : List (ℕ × Bytes)) (m m' : Memory) (p : ℕ)
    → ((q : ℕ) → q < p + room_of rs → m' q ≡ m q)
    → Listed m p rs
    → Listed m' p rs
Listed-kept [] m m' p kept h = tt
Listed-kept ((tag, bytes) ∷ rest) m m' p kept (t, size, body, more) = (
  ap₂ (λ a b. 2 ^ 8 * a + b) (kept p (omega arith)) (kept (p + 1) (omega arith)) ∙ t,
  ap₂ (λ a b. 2 ^ 8 * a + b) (kept (p + 2) (omega arith)) (kept (p + 2 + 1) (omega arith)) ∙ size,
  λ i lt. kept (p + 4 + i) (omega (arith, lt)) ∙ body i lt,
  Listed-kept rest m m' (p + (4 + aligned_size (length bytes))) (λ q lt. kept q (omega (arith, lt)))
      more,
)

Listed-append :
    (rs ss : List (ℕ × Bytes)) (m : Memory) (p : ℕ)
    → Listed m p rs
    → Listed m (p + room_of rs) ss
    → Listed m p (rs ++ ss)
Listed-append [] ss m p h k = subst (λ q. Listed m q ss) (omega arith) k
Listed-append ((tag, bytes) ∷ rest) ss m p (t, size, body, more) k = (
  t,
  size,
  body,
  Listed-append rest ss m (p + (4 + aligned_size (length bytes))) more (
      subst (λ q. Listed m q ss) {y = p + (4 + aligned_size (length bytes)) + room_of rest}
        (omega arith) k),
)

pub room_of-append : (rs ss : List (ℕ × Bytes)) → room_of (rs ++ ss) ≡ room_of rs + room_of ss
room_of-append [] ss = omega arith
room_of-append ((tag, bytes) ∷ rest) ss = omega (arith, room_of-append rest ss)

-- A writer appends records at an aligned address, and writes nothing else.
pub record Adds (f : Writer) (rs : List (ℕ × Bytes)) (dst : ℕ) (m : Memory) : Type 0 where
  pub after : Memory
  pub returns : f (dst, m) ≡ some (dst + room_of rs, after)
  pub listed : Listed after dst rs
  pub kept : (q : ℕ) → (q < dst) ⊎ (dst + room_of rs ≤ q) → after q ≡ m q

room_of-aligned : (rs : List (ℕ × Bytes)) → room_of rs % 4 ≡ 0
room_of-aligned [] = refl
room_of-aligned ((tag, bytes) ∷ rest) = omega (arith, room_of-aligned rest)

abbrev pub AlwaysAdds : Writer → List (ℕ × Bytes) → Type 0
AlwaysAdds f rs = (dst : ℕ) (m : Memory) → dst % 4 ≡ 0 → Adds f rs dst m

pub >>-adds :
    (f g : Writer) (rs ss : List (ℕ × Bytes))
    → AlwaysAdds f rs
    → AlwaysAdds g ss
    → AlwaysAdds (f >> g) (rs ++ ss)
>>-adds f g rs ss hf hg dst m aligned =
    let a = hf dst m aligned in
    let b = hg (dst + room_of rs) a.after (omega (arith, room_of-aligned rs, aligned)) in
    record {
      after = b.after;
      returns =
          rw (a.returns, ◌>>◌)
            (b.returns ∙ ap (λ n. some (n, b.after)) (omega (arith, room_of-append rs ss)));
      listed =
          Listed-append rs ss b.after dst
            (Listed-kept rs a.after b.after dst (λ q lt. b.kept q (inl lt)) a.listed) b.listed;
      kept = λ q out.
          b.kept q (ground (arith, out, room_of-append rs ss))
          ∙ a.kept q (ground (arith, out, room_of-append rs ss));
    }

pub skip-adds : AlwaysAdds skip []
skip-adds dst m aligned = record {
  after = m;
  returns = ap (λ n. some (n, m)) (omega arith);
  listed = tt;
  kept = λ q out. refl;
}

-- A `short` is read back, if what is written behind it leaves it alone.
short_at-written :
    (n : ℕ) (m m' : Memory) (p : ℕ)
    → n < 2 ^ 16
    → ((i : ℕ) → i < 2 → m' (p + i) ≡ put_bytes (short_bytes n) m p (p + i))
    → short_at m' p ≡ n
short_at-written n m m' p lt same =
    let high : m' p ≡ n / 2 ^ 8 % 2 ^ 8 =
      ap m' {y = p + 0} (omega arith)
      ∙ same 0 (omega arith)
      ∙ put_bytes_in (short_bytes n) m p 0 (omega arith) in
    let low : m' (p + 1) ≡ n % 2 ^ 8 =
      same 1 (omega arith) ∙ put_bytes_in (short_bytes n) m p 1 (omega arith) in
    omega (arith, high, low)

pub add_v2_boot_record-adds :
    (tag : ℕ) (bytes : Bytes)
    → tag < 2 ^ 16
    → length bytes < 2 ^ 15
    → AlwaysAdds (add_v2_boot_record tag bytes) ((tag, bytes) ∷ [])
unfolding add_v2_boot_record
add_v2_boot_record-adds tag bytes tag_fits fits dst m aligned =
    let size = aligned_size (length bytes) + 4 in
    let m1 = put_bytes (short_bytes tag) m dst in
    let m2 = put_bytes (short_bytes size) m1 (dst + 2) in
    let m3 = put_bytes bytes m2 (dst + 4) in
    let test : (dst % 4 == 0) ≡ true = ground (arith, aligned) in
    record {
      after = m3;
      returns = rw test (ap (λ n. some (n, m3)) (omega arith));
      listed = (
        short_at-written tag m m3 dst tag_fits (λ i lt.
            put_bytes_out bytes m2 (dst + 4) (dst + i) (inl (omega (arith, lt)))
            ∙ put_bytes_out (short_bytes size) m1 (dst + 2) (dst + i) (inl (omega (arith, lt)))),
        short_at-written size m1 m3 (dst + 2) (omega (arith, fits))
              (λ i lt. put_bytes_out bytes m2 (dst + 4) (dst + 2 + i) (inl (omega (arith, lt))))
            ∙ omega arith,
        (λ i lt. put_bytes_in bytes m2 (dst + 4) i lt),
        tt,
      );
      kept = λ q out.
          put_bytes_out bytes m2 (dst + 4) q (ground (arith, out))
          ∙ put_bytes_out (short_bytes size) m1 (dst + 2) q (ground (arith, out))
          ∙ put_bytes_out (short_bytes tag) m dst q (ground (arith, out));
    }
