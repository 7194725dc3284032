-- ===== src/Unix/Memory.antt =====
-- libunix: memcpy.c and memmove.c, on a memory of numbered bytes.
use emile.Common.{
  ℕ, zero, suc, ◌+◌, ◌<◌, ◌≤◌, ◌≡◌, ◌≢◌, ◌⊎◌, refl, ap, ◌∙◌, inl, inr, arith, ltb, ◌==◌, ◌||◌,
  if◌then◌else◌, Bool-cases,
}

abbrev pub Memory : Type 0
Memory = ℕ → ℕ

abbrev pub store : Memory → ℕ → ℕ → Memory
store m at value p = if p == at then value else m p

-- `*d++ = *s++`, `n` times.
forwards : ℕ → Memory → ℕ → ℕ → Memory
forwards zero m d s = m
forwards (suc n) m d s = forwards n (store m d (m s)) (d + 1) (s + 1)

-- `*--d = *--s`, `n` times, from `n` bytes behind `d` and `s` on.
backwards : ℕ → Memory → ℕ → ℕ → Memory
backwards zero m d s = m
backwards (suc n) m d s = backwards n (store m (d + n) (m (s + n))) d s

-- `memcpy` and `memmove`: the memory after a call with a destination, a source and a size.
unfoldable pub memcpy : Memory → ℕ → ℕ → ℕ → Memory
unfolding forwards
memcpy m dest src n = forwards n m dest src

unfoldable pub memmove : Memory → ℕ → ℕ → ℕ → Memory
unfolding forwards backwards
memmove m dest src n =
    if dest == src || n == 0
    then m
    else if ltb dest src
    then forwards n m dest src
    else backwards n m dest src

-- The `n` bytes at `d` are what was at `s`, and all else is what it was.
pub record Moved (m : Memory) (d s n : ℕ) (m' : Memory) : Type 0 where
  pub moved : (i : ℕ) → i < n → m' (d + i) ≡ m (s + i)
  pub kept : (p : ℕ) → (p < d) ⊎ (d + n ≤ p) → m' p ≡ m p

store_self : (m : Memory) (at value p : ℕ) → p ≡ at → store m at value p ≡ value
store_self m at value p e = ground (arith, e)

store_ne : (m : Memory) (at value p : ℕ) → p ≢ at → store m at value p ≡ m p
store_ne m at value p n = elim (Bool-cases (p == at)) [
  | inl same ↦ absurd (n (ground arith))
  | inr other ↦ rw other refl
]

forwards-Moved :
    (n : ℕ) (m : Memory) (d s : ℕ) → (d ≤ s) ⊎ (s + n ≤ d) → Moved m d s n (forwards n m d s)
unfolding forwards
forwards-Moved zero m d s apart = record {
  moved = λ i lt. absurd (omega arith);
  kept = λ p out. refl;
}
forwards-Moved (suc n) m d s apart =
    let m1 = store m d (m s) in
    let rest = forwards-Moved n m1 (d + 1) (s + 1) (ground (arith, apart)) in
    record {
      moved = λ i lt. step i lt rest;
      kept = λ p out.
          rest.kept p (ground (arith, out)) ∙ store_ne m d (m s) p (λ e. ground (arith, out));
    }
  where
    step :
        (i : ℕ)
        → i < suc n
        → Moved (store m d (m s)) (d + 1) (s + 1) n (forwards n (store m d (m s)) (d + 1) (s + 1))
        → forwards n (store m d (m s)) (d + 1) (s + 1) (d + i) ≡ m (s + i)
    step zero lt rest =
        rest.kept (d + 0) (inl (omega arith))
        ∙ store_self m d (m s) (d + 0) (omega arith)
        ∙ ap m (omega arith)
    step (suc i) lt rest =
        ap (forwards n (store m d (m s)) (d + 1) (s + 1)) (omega arith)
        ∙ rest.moved i (omega arith)
        ∙ store_ne m d (m s) (s + 1 + i) (λ e. ground (arith, apart))
        ∙ ap m (omega arith)

backwards-Moved : (n : ℕ) (m : Memory) (d s : ℕ) → s ≤ d → Moved m d s n (backwards n m d s)
unfolding backwards
backwards-Moved zero m d s le = record {
  moved = λ i lt. absurd (omega arith);
  kept = λ p out. refl;
}
backwards-Moved (suc n) m d s le =
    let m1 = store m (d + n) (m (s + n)) in
    let rest = backwards-Moved n m1 d s le in
    record {
      moved = λ i lt. elim (Bool-cases (i == n)) [
        | inl last ↦
            rest.kept (d + i) (inr (ground arith))
            ∙ store_self m (d + n) (m (s + n)) (d + i) (ground arith)
            ∙ ap m (ground arith)
        | inr earlier ↦
            rest.moved i (ground arith) ∙ store_ne m (d + n) (m (s + n)) (s + i) (λ e. ground arith)
      ];
      kept = λ p out.
          rest.kept p (ground (arith, out))
          ∙ store_ne m (d + n) (m (s + n)) p (λ e. ground (arith, out));
    }

-- `memmove` leaves at the destination what was at the source, and all else alone, however the two
-- overlap.
pub memmove-Moved : (m : Memory) (dest src n : ℕ) → Moved m dest src n (memmove m dest src n)
unfolding memmove
memmove-Moved m dest src n = elim (Bool-cases (dest == src || n == 0)) [
  | inl nothing ↦ rw nothing (record { moved = λ i lt. ap m (ground arith); kept = λ p out. refl })
  | inr some ↦ elim (Bool-cases (ltb dest src)) [
    | inl below ↦ rw (some, below) (forwards-Moved n m dest src (inl (ground arith)))
    | inr above ↦ rw (some, above) (backwards-Moved n m dest src (ground arith))
  ]
]

-- `memcpy` leaves at the destination what was at the source, and all else alone, if the destination
-- does not begin inside the source behind its begin.
pub memcpy-Moved :
    (m : Memory) (dest src n : ℕ)
    → (dest ≤ src) ⊎ (src + n ≤ dest)
    → Moved m dest src n (memcpy m dest src n)
unfolding memcpy
memcpy-Moved m dest src n apart = forwards-Moved n m dest src apart
