-- ===== src/LibEmile/Param/Fresh.antt =====
-- Setting a parameter that a configuration does not have.
use emile.Common.{
  ℕ, zero, suc, ◌+◌, ◌-◌, ◌≤◌, ◌≡◌, ◌≢◌, refl, sym, ap, ◌∙◌, some, List, [], ◌∷◌, ◌++◌, Bytes,
  arith, length, length-append, inl, inr,
}
use emile.Config.{Result, ok, ◌>>=◌}
use emile.Config.Edit.{config_set_property}
use emile.Config.Lines.{Property, IsProperty, AllLine, IsStart, line}
use emile.Config.Search.{text, AllProperties, Finds}
use emile.Config.Add.{room, IsAbsent, config_add_property-text}
use emile.Config.Set.{config_set_property-config_add_property}
use emile.LibEmile.Param.{kernel_name, args_name, initrd_name, vga_name, vga_default, set_param}

-- The rest of the array: so many bytes, all 0
abbrev pub zeros : ℕ → Bytes
zeros zero = []
zeros (suc n) = 0 ∷ zeros n

length-zeros : (n : ℕ) → length (zeros n) ≡ n
length-zeros zero = refl
length-zeros (suc n) = ap suc (length-zeros n)

zeros_sum : (m n : ℕ) → zeros (m + n) ≡ zeros m ++ zeros n
zeros_sum zero n = let e : 0 + n ≡ n = omega arith in ap zeros e
zeros_sum (suc m) n =
    let e : suc m + n ≡ suc (m + n) = omega arith in ap zeros e ∙ ap (◌∷◌ 0) (zeros_sum m n)

-- The bytes that a line takes with its end, and those behind the text that a new line takes.
abbrev pub size_of : Property → ℕ
size_of p = length (line p (0 ∷ []))

abbrev pub need : List Property → Property → ℕ
need [] p = size_of p - 1
need (q ∷ ps) p = size_of p

size_of_lem : (p : Property) → 2 ≤ size_of p
size_of_lem p = omega (
  arith,
  length-append p.name (b' ' ∷ (p.property ++ (0 ∷ []))),
  length-append p.property (0 ∷ []),
)

need_some : (ps : List Property) (p : Property) → 1 ≤ need ps p
need_some [] p = omega (arith, size_of_lem p)
need_some (q ∷ ps) p = omega (arith, size_of_lem p)

room-need :
    (ps : List Property) (p : Property) (k : ℕ)
    → suc k ≡ need ps p
    → room ps (zeros (suc k)) ≡ size_of p
room-need [] p k e = omega (arith, length-zeros k, size_of_lem p)
room-need (q ∷ ps) p k e = omega (arith, length-zeros k)

pub need-snoc : (ps : List Property) (q p : Property) → need (ps ++ (q ∷ [])) p ≡ size_of p
need-snoc [] q p = refl
need-snoc (r ∷ ps) q p = refl

-- A new property takes the bytes of its line.
set_new :
    (ps : List Property) (p : Property) (n : ℕ)
    → AllProperties ps
    → IsProperty p
    → IsAbsent p.name ps
    → (config_set_property (text ps (zeros (need ps p + suc n))) p.name p.property
        >>= λ (index, written). ok written)
      ≡ ok (text (ps ++ (p ∷ [])) (zeros (suc n)))
set_new ps p n h hp absent =
    let k = need ps p - 1 in
    let more : suc k ≡ need ps p = omega (arith, need_some ps p) in
    let split : zeros (need ps p + suc n) ≡ (0 ∷ zeros k) ++ (0 ∷ zeros n) =
      ap (λ m. zeros (m + suc n)) (sym more) ∙ zeros_sum (suc k) (suc n) in
    let fits : room ps (zeros (suc k)) ≡ size_of p = room-need ps p k more in
    ap (λ r. r >>= λ (index, written). ok written)
      (ap (λ t. config_set_property (text ps t) p.name p.property) split
        ∙ config_set_property-config_add_property ps p (zeros k) (zeros n) h hp absent fits
        ∙ config_add_property-text ps p (0 ∷ zeros k) (0 ∷ zeros n) h fits)

-- What is found behind lines of other names
pub Finds-append :
    (name : Bytes) (ps qs : List Property) (junk : Bytes) (r : Result (Bytes × Bytes))
    → IsAbsent name ps
    → Finds name (ps ++ qs) junk r
    → Finds name qs junk r
unfolding Finds
Finds-append name [] qs junk r h f = f
Finds-append name (p ∷ ps) qs junk r h (inl (same, e)) = absurd (h.0 same)
Finds-append name (p ∷ ps) qs junk r h (inr (other, f)) = Finds-append name ps qs junk r h.1 f

pub snoc_cons :
    (ps : List Property) (q : Property) (qs : List Property)
    → (ps ++ (q ∷ [])) ++ qs ≡ ps ++ (q ∷ qs)
snoc_cons [] q qs = refl
snoc_cons (p ∷ ps) q qs = ap (◌∷◌ p) (snoc_cons ps q qs)

pub IsAbsent-snoc :
    (name : Bytes) (ps : List Property) (p : Property)
    → IsAbsent name ps
    → name ≢ p.name
    → IsAbsent name (ps ++ (p ∷ []))
IsAbsent-snoc name [] p h other = (other, tt)
IsAbsent-snoc name (q ∷ ps) p h other = (h.0, IsAbsent-snoc name ps p h.1 other)

-- The text of a parameter
pub record IsValue (v : Bytes) : Type 0 where
  pub value_line : AllLine v
  pub value_start : IsStart v

set_param-some :
    (name v configuration : Bytes)
    → IsStart v
    → set_param name (some v) configuration
      ≡ (config_set_property configuration name v >>= λ (index, written). ok written)
unfolding set_param
set_param-some name [] configuration h = absurd h
set_param-some name (c ∷ v) configuration h = refl

abbrev pub kernel_property : Bytes → Property
kernel_property v = record { name = kernel_name; property = v }

abbrev pub args_property : Bytes → Property
args_property v = record { name = args_name; property = v }

abbrev pub initrd_property : Bytes → Property
initrd_property v = record { name = initrd_name; property = v }

abbrev pub vga_property : Property
vga_property = record { name = vga_name; property = vga_default }

pub kernel-IsProperty : (v : Bytes) → IsValue v → IsProperty (kernel_property v)
kernel-IsProperty v h = record {
  name_word = (refl, (refl, (refl, (refl, (refl, (refl, tt))))));
  name_start = (refl, refl);
  name_string = omega arith;
  name_short = omega arith;
  property_line = h.value_line;
  property_start = h.value_start;
}

pub args-IsProperty : (v : Bytes) → IsValue v → IsProperty (args_property v)
args-IsProperty v h = record {
  name_word = (refl, (refl, (refl, (refl, tt))));
  name_start = (refl, refl);
  name_string = omega arith;
  name_short = omega arith;
  property_line = h.value_line;
  property_start = h.value_start;
}

pub initrd-IsProperty : (v : Bytes) → IsValue v → IsProperty (initrd_property v)
initrd-IsProperty v h = record {
  name_word = (refl, (refl, (refl, (refl, (refl, (refl, tt))))));
  name_start = (refl, refl);
  name_string = omega arith;
  name_short = omega arith;
  property_line = h.value_line;
  property_start = h.value_start;
}

pub vga-IsProperty : IsProperty vga_property
vga-IsProperty = record {
  name_word = (refl, (refl, (refl, tt)));
  name_start = (refl, refl);
  name_string = omega arith;
  name_short = omega arith;
  property_line = (
    refl,
    refl,
    (refl, refl, (refl, refl, (refl, refl, (refl, refl, (refl, refl, (refl, refl, tt)))))),
  );
  property_start = (refl, refl);
}

-- A parameter is set behind the others.
pub set_next :
    (ps : List Property) (p : Property) (n m : ℕ)
    → AllProperties ps
    → IsProperty p
    → IsAbsent p.name ps
    → m ≡ need ps p + suc n
    → set_param p.name (some p.property) (text ps (zeros m))
      ≡ ok (text (ps ++ (p ∷ [])) (zeros (suc n)))
set_next ps p n m h hp absent e =
    set_param-some p.name p.property (text ps (zeros m)) hp.property_start
    ∙ ap
        (λ m. config_set_property (text ps (zeros m)) p.name p.property >>= λ (index, written).
          ok written)
        e
    ∙ set_new ps p n h hp absent
