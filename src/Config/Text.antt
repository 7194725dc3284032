-- ===== src/Config/Text.antt =====
-- The bytes of a configuration, and what is written over them.
use emile.Common.{
  suc, ◌+◌, ◌≡◌, refl, sym, ap, ◌∙◌, false, List, [], ◌∷◌, ◌++◌, Bytes, arith, ltb, ◌==◌, length,
  take, drop, length-append,
}
use emile.Config.{ok, ◌>>=◌}
use emile.Config.Edit.{text_length, overwrite}
use emile.Config.Lines.{Property, IsProperty, AllWord, AllLine, line, nonzero}
use emile.Config.Search.{text, AllProperties}

-- The text without the final 0.
unfoldable pub lines : List Property → Bytes
lines [] = []
lines (p ∷ []) = line p []
lines (p ∷ q ∷ ps) = line p (b'\n' ∷ lines (q ∷ ps))

pub append_assoc : (r s t : Bytes) → (r ++ s) ++ t ≡ r ++ (s ++ t)
append_assoc [] s t = refl
append_assoc (c ∷ r) s t = ap (◌∷◌ c) (append_assoc r s t)

pub line-append : (p : Property) (s t : Bytes) → line p s ++ t ≡ line p (s ++ t)
line-append p s t =
    append_assoc p.name (b' ' ∷ (p.property ++ s)) t
    ∙ ap (λ r. p.name ++ (b' ' ∷ r)) (append_assoc p.property s t)

pub text-lines : (ps : List Property) (junk : Bytes) → text ps junk ≡ lines ps ++ (0 ∷ junk)
unfolding text lines
text-lines [] junk = refl
text-lines (p ∷ []) junk = sym (line-append p [] (0 ∷ junk))
text-lines (p ∷ q ∷ ps) junk =
    ap (λ t. line p (b'\n' ∷ t)) (text-lines (q ∷ ps) junk)
    ∙ sym (line-append p (b'\n' ∷ lines (q ∷ ps)) (0 ∷ junk))

pub lines_snoc :
    (q : Property) (ps : List Property) (p : Property)
    → lines ((q ∷ ps) ++ (p ∷ [])) ≡ lines (q ∷ ps) ++ (b'\n' ∷ line p [])
unfolding lines
lines_snoc q [] p = sym (line-append q [] (b'\n' ∷ line p []))
lines_snoc q (r ∷ ps) p =
    ap (λ t. line q (b'\n' ∷ t)) (lines_snoc r ps p)
    ∙ sym (line-append q (b'\n' ∷ lines (r ∷ ps)) (b'\n' ∷ line p []))

-- No byte is 0.
abbrev pub AllNonzero : Bytes → Type 0
AllNonzero [] = Unit
AllNonzero (c ∷ s) = ((c == 0) ≡ false) × AllNonzero s

pub AllNonzero-append : (s t : Bytes) → AllNonzero s → AllNonzero t → AllNonzero (s ++ t)
AllNonzero-append [] t hs ht = ht
AllNonzero-append (c ∷ s) t hs ht = (hs.0, AllNonzero-append s t hs.1 ht)

pub word_nonzero : (s : Bytes) → AllWord s → AllNonzero s
word_nonzero [] h = tt
word_nonzero (c ∷ s) h = (nonzero c h.0, word_nonzero s h.1)

pub line_nonzero : (s : Bytes) → AllLine s → AllNonzero s
line_nonzero [] h = tt
line_nonzero (c ∷ s) h = (h.0, line_nonzero s h.2)

pub property_nonzero :
    (p : Property) (t : Bytes) → IsProperty p → AllNonzero t → AllNonzero (line p t)
property_nonzero p t h ht =
    AllNonzero-append p.name _ (word_nonzero p.name h.name_word)
      (refl, AllNonzero-append p.property t (line_nonzero p.property h.property_line) ht)

pub lines_nonzero : (ps : List Property) → AllProperties ps → AllNonzero (lines ps)
unfolding lines
lines_nonzero [] h = tt
lines_nonzero (p ∷ []) h = property_nonzero p [] h.0 tt
lines_nonzero (p ∷ q ∷ ps) h = property_nonzero p _ h.0 (refl, lines_nonzero (q ∷ ps) h.1)

-- `strlen` counts the bytes in front of the first 0.
pub text_length-append :
    (s junk : Bytes) → AllNonzero s → text_length (s ++ (0 ∷ junk)) ≡ ok (length s)
unfolding text_length
text_length-append [] junk h = refl
text_length-append (c ∷ s) junk h =
    rw (h.0, text_length) (ap (λ r. r >>= λ n. ok (suc n)) (text_length-append s junk h.1))

take_first : (s t : Bytes) → take (length s) (s ++ t) ≡ s
take_first [] t = refl
take_first (c ∷ s) t = ap (◌∷◌ c) (take_first s t)

pub drop_first : (s t : Bytes) → drop (length s) (s ++ t) ≡ t
drop_first [] t = refl
drop_first (c ∷ s) t = drop_first s t

-- Bytes of the same number are replaced.
pub overwrite-append :
    (s old new t : Bytes)
    → length old ≡ length new
    → overwrite (s ++ (old ++ t)) (length s) new ≡ ok (s ++ (new ++ t))
unfolding overwrite
overwrite-append s old new t same = rw (inside, take_first s (old ++ t), rest) refl
  where
    inside : ltb (length (s ++ (old ++ t))) (length s + length new) ≡ false
    inside = ground (arith, length-append s (old ++ t), length-append old t, same)

    rest : drop (length s + length new) (s ++ (old ++ t)) ≡ t
    rest =
        ap (λ n. drop n (s ++ (old ++ t))) (omega (arith, same, length-append s old))
        ∙ ap (drop (length (s ++ old))) (sym (append_assoc s old t))
        ∙ drop_first (s ++ old) t
