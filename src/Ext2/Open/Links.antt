-- ===== src/Ext2/Open/Links.antt =====
-- The path of a symbolic link.
use mathlib.Core.List.{append-nil, append_assoc}
use emile.Common.{
  ℕ, zero, suc, ◌+◌, ◌<◌, ◌≡◌, refl, sym, ap, ◌∙◌, true, some, List, [], ◌∷◌, ◌++◌, Bytes, arith,
  ltb, take, length,
}
use emile.Iso.Directory.Walk.{slashes, spell, AllPlain}
use emile.Ext2.{Inode}
use emile.Ext2.Open.{block_text, c_text, last_slash, buffer_size, link_path}

take-append : (a s : Bytes) → take (length a) (a ++ s) ≡ a
take-append [] s = refl
take-append (c ∷ a) s = ap (◌∷◌ c) (take-append a s)

last_slash-plain : (name : Bytes) (i last : ℕ) → AllPlain name → last_slash name i last ≡ last
unfolding last_slash
last_slash-plain [] i last h = refl
last_slash-plain (c ∷ name) i last h = rw (last_slash, h.0) (last_slash-plain name (suc i) last h.1)

last_slash-append :
    (a name : Bytes) (i last : ℕ)
    → AllPlain name
    → last_slash (a ++ (b'/' ∷ name)) i last ≡ i + length a
unfolding last_slash
last_slash-append [] name i last h = last_slash-plain name (suc i) i h ∙ omega arith
last_slash-append (c ∷ a) name i last h = last_slash-append a name (suc i) _ h ∙ omega arith

-- The text of a link takes the place of the last name of the path.
pub link_path-append :
    (inode : Inode) (a name text : Bytes)
    → AllPlain name
    → c_text (block_text inode.i_block) ≡ some text
    → length (a ++ (b'/' ∷ name)) < buffer_size
    → length (a ++ (b'/' ∷ text)) < buffer_size
    → link_path (a ++ (b'/' ∷ name)) inode ≡ some (a ++ (b'/' ∷ text))
unfolding link_path
link_path-append inode a name text plain is_text fits fits' =
    let here : take (last_slash (a ++ (b'/' ∷ name)) 0 0) (a ++ (b'/' ∷ name)) ≡ a =
      ap (λ n. take n (a ++ (b'/' ∷ name))) (last_slash-append a name 0 0 plain ∙ omega arith)
      ∙ take-append a (b'/' ∷ name) in
    rw (link_path, is_text, here, below _ fits, below _ fits') refl
  where
    below : (n : ℕ) → n < buffer_size → ltb n buffer_size ≡ true
    below n h = ground arith

slashes-add :
    (m k : ℕ) (s : Bytes) → slashes m ++ (b'/' ∷ (slashes k ++ s)) ≡ slashes (suc m + k) ++ s
slashes-add zero k s = ap (λ n. slashes n ++ s) (more k)
  where
    more : (k : ℕ) → suc k ≡ 1 + k
    more k = omega arith
slashes-add (suc m) k s = ap (◌∷◌ b'/') (slashes-add m k s) ∙ ap (λ n. slashes n ++ s) (more m k)
  where
    more : (m k : ℕ) → suc (suc m + k) ≡ suc (suc m) + k
    more m k = omega arith

-- A path behind the slashes at the end of another
pub spell-append :
    (front : List (ℕ × Bytes)) (m k : ℕ) (name : Bytes) (rest : List (ℕ × Bytes)) (n : ℕ)
    → spell front m ++ (b'/' ∷ spell ((k, name) ∷ rest) n)
      ≡ spell (front ++ ((suc m + k, name) ∷ rest)) n
spell-append [] m k name rest n = slashes-add m k (name ++ spell rest n)
spell-append ((j, first) ∷ front) m k name rest n =
    append_assoc (slashes j) _ _
    ∙ ap (◌++◌ (slashes j))
        (append_assoc first _ _ ∙ ap (◌++◌ first) (spell-append front m k name rest n))

pub spell-last :
    (front : List (ℕ × Bytes)) (m : ℕ) (name : Bytes)
    → spell front m ++ (b'/' ∷ name) ≡ spell (front ++ ((suc m, name) ∷ [])) 0
spell-last front m name =
    ap (λ t. spell front m ++ (b'/' ∷ t)) (sym (append-nil name))
    ∙ spell-append front m 0 name [] 0
    ∙ ap (λ k. spell (front ++ ((k, name) ∷ [])) 0) (omega arith)
