-- ===== src/Vga/Scroll.antt =====
-- What scrolling shows.
use emile.Common.{
  ℕ, zero, suc, ◌+◌, ◌-◌, ◌*◌, ◌≤◌, ◌<◌, ◌≡◌, refl, ap, ◌∙◌, [], ◌∷◌, arith, ltb, get_or, ◌⊎◌, inl,
  inr, Bool-cases,
}
use emile.Common.Slice.{put_bytes, put_bytes_in, put_bytes_out}
use emile.Vga.{Memory, Vga, copy_longs, fill_longs, background, vga_scroll}

long_byte :
    (m : Memory) (src i : ℕ)
    → i < 4
    → get_or (m src ∷ m (src + 1) ∷ m (src + 2) ∷ m (src + 3) ∷ []) i 0 ≡ m (src + i)
long_byte m src zero lt = ap m (omega arith)
long_byte m src (suc zero) lt = refl
long_byte m src (suc (suc zero)) lt = refl
long_byte m src (suc (suc (suc zero))) lt = refl
long_byte m src (suc (suc (suc (suc i)))) lt = absurd (omega arith)

copy_longs-keeps :
    (n dst src : ℕ) (m : Memory) (q : ℕ)
    → (q < dst) ⊎ (dst + n * 4 ≤ q)
    → copy_longs n dst src m q ≡ m q
unfolding copy_longs
copy_longs-keeps zero dst src m q out = refl
copy_longs-keeps (suc n) dst src m q out =
    copy_longs-keeps n (dst + 4) (src + 4) _ q (ground (arith, out))
    ∙ put_bytes_out (m src ∷ m (src + 1) ∷ m (src + 2) ∷ m (src + 3) ∷ []) m dst q
        (ground (arith, out))

-- A copy to the front reads nothing that it wrote.
copy_longs-moves :
    (n dst d : ℕ) (m : Memory) (q : ℕ)
    → dst ≤ q
    → q < dst + n * 4
    → copy_longs n dst (dst + d) m q ≡ m (q + d)
unfolding copy_longs
copy_longs-moves zero dst d m q low high = absurd (omega arith)
copy_longs-moves (suc n) dst d m q low high =
    let src = dst + d in
    let first = m src ∷ m (src + 1) ∷ m (src + 2) ∷ m (src + 3) ∷ [] in
    let m' : Memory = put_bytes first m dst in
    elim (Bool-cases (ltb q (dst + 4))) [
      | inl here ↦
          let near : q < dst + 4 = ground (arith, here) in
          copy_longs-keeps n (dst + 4) (src + 4) m' q (inl near)
          ∙ ap m' {y = dst + (q - dst)} (omega arith)
          ∙ put_bytes_in first m dst (q - dst) (omega arith)
          ∙ long_byte m src (q - dst) (omega arith)
          ∙ ap m {y = q + d} (omega arith)
      | inr behind ↦
          let far : dst + 4 ≤ q = ground (arith, behind) in
          ap (λ s. copy_longs n (dst + 4) s m' q) {y = dst + 4 + d} (omega arith)
          ∙ copy_longs-moves n (dst + 4) d m' q far (omega arith)
          ∙ put_bytes_out first m dst (q + d) (inr (omega arith))
    ]

fill_longs-keeps :
    (n dst bg : ℕ) (m : Memory) (q : ℕ)
    → (q < dst) ⊎ (dst + n * 4 ≤ q)
    → fill_longs n dst bg m q ≡ m q
unfolding fill_longs
fill_longs-keeps zero dst bg m q out = refl
fill_longs-keeps (suc n) dst bg m q out =
    fill_longs-keeps n (dst + 4) bg _ q (ground (arith, out))
    ∙ put_bytes_out (bg ∷ bg ∷ bg ∷ bg ∷ []) m dst q (ground (arith, out))

fill_longs-fills :
    (n dst bg : ℕ) (m : Memory) (q : ℕ) → dst ≤ q → q < dst + n * 4 → fill_longs n dst bg m q ≡ bg
unfolding fill_longs
fill_longs-fills zero dst bg m q low high = absurd (omega arith)
fill_longs-fills (suc n) dst bg m q low high =
    let first = bg ∷ bg ∷ bg ∷ bg ∷ [] in
    let m' : Memory = put_bytes first m dst in
    elim (Bool-cases (ltb q (dst + 4))) [
      | inl here ↦
          let near : q < dst + 4 = ground (arith, here) in
          fill_longs-keeps n (dst + 4) bg m' q (inl near)
          ∙ ap m' {y = dst + (q - dst)} (omega arith)
          ∙ put_bytes_in first m dst (q - dst) (omega arith)
          ∙ long_byte (λ _. bg) dst (q - dst) (omega arith)
      | inr behind ↦ fill_longs-fills n (dst + 4) bg m' q (ground (arith, behind)) (omega arith)
    ]

-- The bytes of the lines of characters but the last, and of all lines
abbrev pub upper_bytes : Vga → ℕ
upper_bytes v = (v.siz_h - 1) * (16 * v.row_bytes)

abbrev pub all_bytes : Vga → ℕ
all_bytes v = v.siz_h * (16 * v.row_bytes)

-- Scrolling shows each line of characters where the one above it was, and the background on the
-- last one. What is below the lines is left alone.
pub record Scrolled (v w : Vga) : Type 0 where
  pub lines_up : (q : ℕ) → q < upper_bytes v → w.video q ≡ v.video (q + 16 * v.row_bytes)
  pub last_line : (q : ℕ) → upper_bytes v ≤ q → q < all_bytes v → w.video q ≡ background v
  pub below : (q : ℕ) → all_bytes v ≤ q → w.video q ≡ v.video q

-- `vga_scroll` on a screen of a line at least moves every line of characters up by one, fills the
-- last one with the background, and writes nothing below.
pub vga_scroll-Scrolled : (v : Vga) → 0 < v.siz_h → Scrolled v (vga_scroll v)
unfolding vga_scroll
vga_scroll-Scrolled v some_line =
    let longs = (v.siz_h - 1) * (v.row_bytes * 4) in
    let last : v.siz_h - 1 + 1 ≡ v.siz_h = omega arith in
    let whole : longs * 4 + v.row_bytes * 4 * 4 ≡ all_bytes v =
      omega (arith, ap (λ t. t * (v.row_bytes * 4)) last) in
    let copied = copy_longs longs 0 (v.row_bytes * 16) v.video in
    let bg = background v in
    record {
      lines_up = λ q lt.
          fill_longs-keeps (v.row_bytes * 4) (longs * 4) bg copied q (inl (omega (arith, lt)))
          ∙ ap (λ s. copy_longs longs 0 s v.video q) {y = 0 + v.row_bytes * 16} (omega arith)
          ∙ copy_longs-moves longs 0 (v.row_bytes * 16) v.video q (omega arith) (omega (arith, lt))
          ∙ ap v.video (omega arith);
      last_line = λ q low high.
          fill_longs-fills (v.row_bytes * 4) (longs * 4) bg copied q (omega (arith, low))
            (omega (arith, high, whole));
      below = λ q far.
          fill_longs-keeps (v.row_bytes * 4) (longs * 4) bg copied q
            (inr (omega (arith, far, whole)))
          ∙ copy_longs-keeps longs 0 (v.row_bytes * 16) v.video q (inr (omega (arith, far, whole)));
    }
