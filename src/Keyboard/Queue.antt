-- ===== src/Keyboard/Queue.antt =====
-- The ring of the keyboard is a queue of at most 64 bytes.
use mathlib.Core.List.{append-nil, append_assoc}
use mathlib.Core.Path.{subst}
use emile.Common.{
  ℕ, zero, suc, ◌+◌, ◌-◌, ◌%◌, ◌≤◌, ◌<◌, ◌≡◌, ◌≢◌, refl, sym, ap, ap₂, ◌∙◌, false, [], ◌∷◌, ◌++◌,
  Bytes, arith, length, get_or, set, ◌==◌, length-set, get_or-set_self, get_or-set_ne,
}
use emile.Keyboard.{Keyboard, buffer_put, buffer_get, buffer_putstring}

-- The bytes that wait, the oldest first
abbrev pub waiting : Bytes → ℕ → ℕ → Bytes
waiting buffer head zero = []
waiting buffer head (suc n) = get_or buffer (head % 64) 0 ∷ waiting buffer (head + 1) n

pub record Holds (k : Keyboard) (s : Bytes) : Type 0 where
  pub whole : length k.buffer ≡ 64
  pub inside : k.head < 64
  pub room : k.size ≤ 64
  pub queue : waiting k.buffer k.head k.size ≡ s

length-waiting : (buffer : Bytes) (head n : ℕ) → length (waiting buffer head n) ≡ n
length-waiting buffer head zero = refl
length-waiting buffer head (suc n) = ap suc (length-waiting buffer (head + 1) n)

pub Holds-size : (k : Keyboard) (s : Bytes) → Holds k s → k.size ≡ length s
Holds-size k s h = sym (length-waiting k.buffer k.head k.size) ∙ ap length h.queue

-- A write behind the bytes that wait
waiting-set :
    (buffer : Bytes) (head n at c : ℕ)
    → ((i : ℕ) → i < n → at ≢ (head + i) % 64)
    → waiting (set buffer at c) head n ≡ waiting buffer head n
waiting-set buffer head zero at c out = refl
waiting-set buffer head (suc n) at c out =
    ap₂ ◌∷◌ (get_or-set_ne buffer at (head % 64) c 0 (λ e. out 0 (omega arith) (omega (arith, e))))
      (waiting-set buffer (head + 1) n at c
        (λ i lt e. out (i + 1) (omega arith) (omega (arith, e))))

waiting-snoc :
    (buffer : Bytes) (head n : ℕ)
    → waiting buffer head (suc n) ≡ waiting buffer head n ++ get_or buffer ((head + n) % 64) 0 ∷ []
waiting-snoc buffer head zero = ap (λ p. get_or buffer (p % 64) 0 ∷ []) (omega arith)
waiting-snoc buffer head (suc n) = ap (◌∷◌ (get_or buffer (head % 64) 0)) (
    waiting-snoc buffer (head + 1) n
    ∙ ap (λ p. waiting buffer (head + 1) n ++ get_or buffer (p % 64) 0 ∷ []) (omega arith))

waiting-mod : (buffer : Bytes) (head n : ℕ) → waiting buffer (head % 64) n ≡ waiting buffer head n
waiting-mod buffer head zero = refl
waiting-mod buffer head (suc n) = ap₂ ◌∷◌ (ap (λ p. get_or buffer p 0) (omega arith)) (
    sym (waiting-mod buffer (head % 64 + 1) n)
    ∙ ap (λ p. waiting buffer p n) (omega arith)
    ∙ waiting-mod buffer (head + 1) n)

pub buffer_put-Holds :
    (k : Keyboard) (s : Bytes) (c : ℕ)
    → Holds k s
    → k.size < 64
    → Holds (buffer_put k c) (s ++ c ∷ [])
unfolding buffer_put
buffer_put-Holds k s c h lt =
    let at = (k.head + k.size) % 64 in
    let apart : (i : ℕ) → i < k.size → at ≢ (k.head + i) % 64 =
      λ i less e. omega (arith, e, h.inside) in
    let stored : get_or (set k.buffer at c) at 0 ≡ c =
      get_or-set_self k.buffer at c 0 (omega (arith, h.whole)) in
    record {
      whole = length-set k.buffer at c ∙ h.whole;
      inside = h.inside;
      room = omega arith;
      queue =
          ap (waiting (set k.buffer at c) k.head) {y = suc k.size} (omega arith)
          ∙ waiting-snoc (set k.buffer at c) k.head k.size
          ∙ ap₂ (λ l b. l ++ b ∷ []) (waiting-set k.buffer k.head k.size at c apart ∙ h.queue)
              stored;
    }

pub buffer_putstring-Holds :
    (k : Keyboard) (s t : Bytes)
    → Holds k s
    → k.size + length t ≤ 64
    → Holds (buffer_putstring k t) (s ++ t)
unfolding buffer_putstring
buffer_putstring-Holds k s [] h fits = subst (Holds k) (sym (append-nil s)) h
buffer_putstring-Holds k s (c ∷ t) h fits =
    subst (Holds (buffer_putstring (buffer_put k c) t)) (append_assoc s (c ∷ []) t) (
      buffer_putstring-Holds (buffer_put k c) (s ++ c ∷ []) t
        (buffer_put-Holds k s c h (omega arith)) (grown k c t fits))
  where
    grown :
        (k : Keyboard) (c : ℕ) (t : Bytes)
        → k.size + suc (length t) ≤ 64
        → (buffer_put k c).size + length t ≤ 64
    grown k c t fits = unfold buffer_put in omega arith

-- The oldest byte, and those behind it
oldest :
    (k : Keyboard) (n c : ℕ) (s : Bytes)
    → k.size ≡ n
    → Holds k (c ∷ s)
    → (0 < n)
      × (get_or k.buffer k.head 0 ≡ c)
      × (waiting k.buffer ((k.head + 1) % 64) (k.size - 1) ≡ s)
oldest k zero c s e h =
    absurd (let q : [] ≡ c ∷ s = ap (waiting k.buffer k.head) (sym e) ∙ h.queue in cc)
oldest k (suc n) c s e h =
    let q : get_or k.buffer (k.head % 64) 0 ∷ waiting k.buffer (k.head + 1) n ≡ c ∷ s =
      ap (waiting k.buffer k.head) (sym e) ∙ h.queue in
    let first : get_or k.buffer (k.head % 64) 0 ≡ c = cc in
    let rest : waiting k.buffer (k.head + 1) n ≡ s = cc in
    let inside : k.head < 64 = h.inside in
    (
      omega arith,
      ap (λ p. get_or k.buffer p 0) {y = k.head % 64} (omega arith) ∙ first,
      waiting-mod k.buffer (k.head + 1) (k.size - 1)
          ∙ ap (waiting k.buffer (k.head + 1)) {y = n} (omega arith)
          ∙ rest,
    )

pub buffer_get-Holds :
    (k : Keyboard) (c : ℕ) (s : Bytes)
    → Holds k (c ∷ s)
    → ((buffer_get k).0 ≡ c) × Holds (buffer_get k).1 s
unfolding buffer_get
buffer_get-Holds k c s h =
    let (some_byte, first, rest) = oldest k k.size c s refl h in
    let test : (k.size == 0) ≡ false = ground arith in
    rw (test, buffer_get)
      (
        first,
        record {
          whole = h.whole;
          inside = omega arith;
          room = omega (arith, h.room);
          queue = rest;
        },
      )

pub buffer_get-empty : (k : Keyboard) → Holds k [] → buffer_get k ≡ (0, k)
unfolding buffer_get
buffer_get-empty k h = nothing k.size refl
  where
    nothing : (n : ℕ) → k.size ≡ n → buffer_get k ≡ (0, k)
    nothing zero e = ground arith
    nothing (suc n) e = absurd (
        let q : get_or k.buffer (k.head % 64) 0 ∷ waiting k.buffer (k.head + 1) n ≡ [] =
          ap (waiting k.buffer k.head) (sym e) ∙ h.queue in
        cc)
