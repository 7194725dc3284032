-- ===== src/LibEmile/Param/Kept.antt =====
-- The parameters that are set are the ones that are read.
use emile.Common.{ℕ, ◌+◌, List, [], ◌∷◌, ◌++◌, Bytes}
use emile.Config.Lines.{Property}
use emile.Config.Search.{AllProperties}
use emile.Config.Add.{IsAbsent}
use emile.LibEmile.Param.{kernel_name, args_name, initrd_name, vga_name}
use emile.LibEmile.Param.Fresh.{
  need, size_of, IsValue, kernel_property, args_property, initrd_property, vga_property,
}

-- None of the lines is a parameter of the second level.
pub record IsFresh (ps : List Property) : Type 0 where
  pub properties : AllProperties ps
  pub no_kernel : IsAbsent kernel_name ps
  pub no_args : IsAbsent args_name ps
  pub no_initrd : IsAbsent initrd_name ps
  pub no_vga : IsAbsent vga_name ps

-- The bytes behind the text that the lines of the parameters take, and `n` more
pub parameter_room : List Property → Bytes → Bytes → Bytes → ℕ → ℕ
parameter_room ps kernel args initrd n =
    need ps (kernel_property kernel)
    + (size_of (args_property args)
        + (size_of (initrd_property initrd) + (size_of vga_property + n)))

module _ (ps : List Property) (kernel args initrd : Bytes) (fresh : IsFresh ps)
    (hk : IsValue kernel) (ha : IsValue args) (hi : IsValue initrd) where
  four : List Property
  four = kernel_property kernel ∷ args_property args ∷ initrd_property initrd ∷ vga_property ∷ []

  with_four : List Property
  with_four =
      (((ps ++ (kernel_property kernel ∷ [])) ++ (args_property args ∷ []))
        ++ (initrd_property initrd ∷ []))
      ++ (vga_property ∷ [])
