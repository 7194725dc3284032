-- ===== src/BootInfo/Kernel.antt =====
-- The records of a boot information, as the kernel finds them.
use mathlib.Core.List.{append_assoc}
use mathlib.Core.Path.{subst}
use emile.Common.{
  ℕ, ◌+◌, ◌%◌, ◌^◌, ◌≤◌, ◌<◌, ◌≡◌, ◌⊎◌, sym, ap, ◌∙◌, inl, inr, some, List, [], ◌∷◌, ◌++◌, Bytes,
  arith, length, length-append, ◌==◌, if◌then◌else◌, Bool-cases,
}
use emile.BootInfo.{
  Memory, Macintosh, MemInfo, BootInfo, long_bytes, mem_info_bytes, Writer, ◌>>◌,
  add_v2_boot_record, add_long, v2_cpu, v2_fpu, add_memory, add_ramdisk, add_video,
  set_kernel_bootinfo,
}
use emile.BootInfo.Records.{
  short_at, Parsed, room_of, Listed, room_of-append, Adds, AlwaysAdds, >>-adds, skip-adds,
  add_v2_boot_record-adds,
}

-- The records of a boot information
abbrev pub chunks : List MemInfo → List (ℕ × Bytes)
chunks [] = []
chunks (mi ∷ rest) = (0x0005, mem_info_bytes mi) ∷ chunks rest

abbrev pub ramdisk : BootInfo → List (ℕ × Bytes)
ramdisk bi =
    if bi.ramdisk_size == 0
    then []
    else (0x0006, long_bytes bi.ramdisk_addr ++ long_bytes bi.ramdisk_size) ∷ []

abbrev pub video : Macintosh → List (ℕ × Bytes)
video mac =
    if mac.videoaddr == 0
    then []
    else (0x8001, long_bytes mac.videoaddr)
      ∷ (0x8002, long_bytes mac.videodepth)
      ∷ (0x8003, long_bytes mac.videorow)
      ∷ (0x8004, long_bytes mac.dimensions)
      ∷ (0x8005, long_bytes mac.videological)
      ∷ []

-- They stand in front of others.
abbrev listing : BootInfo → List (ℕ × Bytes) → List (ℕ × Bytes)
listing bi tail =
    (0x0001, long_bytes bi.machtype)
    ∷ (0x0002, long_bytes (v2_cpu bi.cputype))
    ∷ (0x0003, long_bytes (v2_fpu bi.cputype))
    ∷ (0x0004, long_bytes (v2_cpu bi.cputype))
    ∷ (chunks bi.memory
        ++ (ramdisk bi
            ++ ((0x0007, bi.command_line ++ 0 ∷ [])
                ∷ (0x8000, long_bytes bi.bi_mac.id)
                ∷ (video bi.bi_mac
                    ++ ((0x8006, long_bytes bi.bi_mac.scc_read)
                        ∷ (0x800c, long_bytes bi.bi_mac.scc_write)
                        ∷ (0x8007, long_bytes bi.bi_mac.boottime)
                        ∷ (0x8008, long_bytes bi.bi_mac.gmtbias)
                        ∷ (0x8009, long_bytes bi.bi_mac.memsize)
                        ∷ (0x800a, long_bytes bi.bi_mac.cpuid)
                        ∷ (0x800b, long_bytes bi.bi_mac.rombase)
                        ∷ tail)))))

abbrev pub records : BootInfo → List (ℕ × Bytes)
records bi = listing bi []

listing-append : (bi : BootInfo) (tail : List (ℕ × Bytes)) → listing bi tail ≡ records bi ++ tail
listing-append bi tail = simp append_assoc

add_long-adds : (tag n : ℕ) → tag < 2 ^ 16 → AlwaysAdds (add_long tag n) ((tag, long_bytes n) ∷ [])
add_long-adds tag n lt = add_v2_boot_record-adds tag (long_bytes n) lt (omega arith)

add_memory-adds : (mis : List MemInfo) → AlwaysAdds (add_memory mis) (chunks mis)
unfolding add_memory
add_memory-adds [] = skip-adds
add_memory-adds (mi ∷ rest) =
    >>-adds (add_v2_boot_record 0x0005 (mem_info_bytes mi)) (add_memory rest)
      ((0x0005, mem_info_bytes mi) ∷ []) (chunks rest)
      (add_v2_boot_record-adds 0x0005 (mem_info_bytes mi) (omega arith) (omega arith))
      (add_memory-adds rest)

add_ramdisk-adds : (bi : BootInfo) → AlwaysAdds (add_ramdisk bi) (ramdisk bi)
unfolding add_ramdisk
add_ramdisk-adds bi = elim (Bool-cases (bi.ramdisk_size == 0)) [
  | inl nothing ↦ rw nothing skip-adds
  | inr something ↦ rw something (
      add_v2_boot_record-adds 0x0006 (long_bytes bi.ramdisk_addr ++ long_bytes bi.ramdisk_size)
        (omega arith) (omega arith))
]

-- A `long`, and what is written behind it
long_then :
    (tag n : ℕ) (g : Writer) (ss : List (ℕ × Bytes))
    → tag < 2 ^ 16
    → AlwaysAdds g ss
    → AlwaysAdds (add_long tag n >> g) ((tag, long_bytes n) ∷ ss)
long_then tag n g ss lt h =
    >>-adds (add_long tag n) g ((tag, long_bytes n) ∷ []) ss (add_long-adds tag n lt) h

add_video-adds : (mac : Macintosh) → AlwaysAdds (add_video mac) (video mac)
unfolding add_video
add_video-adds mac = elim (Bool-cases (mac.videoaddr == 0)) [
  | inl nothing ↦ rw nothing skip-adds
  | inr something ↦ rw something (
      long_then 0x8001 mac.videoaddr _ _ (omega arith) (
        long_then 0x8002 mac.videodepth _ _ (omega arith) (
          long_then 0x8003 mac.videorow _ _ (omega arith) (
            long_then 0x8004 mac.dimensions _ _ (omega arith)
              (add_long-adds 0x8005 mac.videological (omega arith))))))
]

-- The list that ends with the tag 0
set_kernel_bootinfo-adds :
    (bi : BootInfo)
    → length bi.command_line < 256
    → AlwaysAdds (set_kernel_bootinfo bi) (listing bi ((0x0000, []) ∷ []))
unfolding set_kernel_bootinfo
set_kernel_bootinfo-adds bi short =
    let mac = bi.bi_mac in
    let line = bi.command_line ++ 0 ∷ [] in
    let fits : length line < 2 ^ 15 = omega (arith, length-append bi.command_line (0 ∷ [])) in
    long_then 0x0001 bi.machtype _ _ (omega arith) (
      long_then 0x0002 (v2_cpu bi.cputype) _ _ (omega arith) (
        long_then 0x0003 (v2_fpu bi.cputype) _ _ (omega arith) (
          long_then 0x0004 (v2_cpu bi.cputype) _ _ (omega arith) (
            >>-adds (add_memory bi.memory) _ (chunks bi.memory) _ (add_memory-adds bi.memory) (
              >>-adds (add_ramdisk bi) _ (ramdisk bi) _ (add_ramdisk-adds bi) (
                >>-adds (add_v2_boot_record 0x0007 line) _ ((0x0007, line) ∷ []) _
                  (add_v2_boot_record-adds 0x0007 line (omega arith) fits)
                  (long_then 0x8000 mac.id _ _ (omega arith) (
                    >>-adds (add_video mac) _ (video mac) _ (add_video-adds mac) (
                      long_then 0x8006 mac.scc_read _ _ (omega arith) (
                        long_then 0x800c mac.scc_write _ _ (omega arith) (
                          long_then 0x8007 mac.boottime _ _ (omega arith) (
                            long_then 0x8008 mac.gmtbias _ _ (omega arith) (
                              long_then 0x8009 mac.memsize _ _ (omega arith) (
                                long_then 0x800a mac.cpuid _ _ (omega arith) (
                                  long_then 0x800b mac.rombase _ _ (omega arith) (
                                    add_v2_boot_record-adds 0x0000 [] (omega arith)
                                      (omega arith)))))))))))))))))

-- No record in front of the end has the tag 0.
abbrev Tagged : List (ℕ × Bytes) → Type 0
Tagged [] = Unit
Tagged ((tag, bytes) ∷ rest) = (0 < tag) × Tagged rest

Listed-Parsed :
    (rs : List (ℕ × Bytes)) (m : Memory) (p : ℕ)
    → Tagged rs
    → Listed m p (rs ++ (0x0000, []) ∷ [])
    → Parsed m p rs
Listed-Parsed [] m p t (e, size, body, more) = e
Listed-Parsed ((tag, bytes) ∷ rest) m p (some_tag, t) (e, size, body, more) = (
  e,
  (λ z. omega (arith, some_tag, z)),
  body,
  Listed-Parsed rest m (p + short_at m (p + 2)) t
      (subst (λ n. Listed m (p + n) (rest ++ (0x0000, []) ∷ [])) (sym size) more),
)

Tagged-append : (rs ss : List (ℕ × Bytes)) → Tagged rs → Tagged ss → Tagged (rs ++ ss)
Tagged-append [] ss hr hs = hs
Tagged-append ((tag, bytes) ∷ rest) ss (h, hr) hs = (h, Tagged-append rest ss hr hs)

chunks-Tagged : (mis : List MemInfo) → Tagged (chunks mis)
chunks-Tagged [] = tt
chunks-Tagged (mi ∷ rest) = (omega arith, chunks-Tagged rest)

ramdisk-Tagged : (bi : BootInfo) → Tagged (ramdisk bi)
ramdisk-Tagged bi = elim (Bool-cases (bi.ramdisk_size == 0)) [
  | inl nothing ↦ rw nothing tt
  | inr something ↦ rw something (omega arith, tt)
]

video-Tagged : (mac : Macintosh) → Tagged (video mac)
video-Tagged mac = elim (Bool-cases (mac.videoaddr == 0)) [
  | inl nothing ↦ rw nothing tt
  | inr something ↦
      rw something (omega arith, (omega arith, (omega arith, (omega arith, (omega arith, tt)))))
]

records-Tagged : (bi : BootInfo) → Tagged (records bi)
records-Tagged bi =
    let mac = bi.bi_mac in
    let last : Tagged (
        (0x8006, long_bytes mac.scc_read)
        ∷ (0x800c, long_bytes mac.scc_write)
        ∷ (0x8007, long_bytes mac.boottime)
        ∷ (0x8008, long_bytes mac.gmtbias)
        ∷ (0x8009, long_bytes mac.memsize)
        ∷ (0x800a, long_bytes mac.cpuid)
        ∷ (0x800b, long_bytes mac.rombase)
        ∷ []) =
      (
        omega arith,
        (
          omega arith,
          (omega arith, (omega arith, (omega arith, (omega arith, (omega arith, tt))))),
        ),
      ) in
    (
      omega arith,
      (
        omega arith,
        (
          omega arith,
          (
            omega arith,
            Tagged-append (chunks bi.memory) _ (chunks-Tagged bi.memory) (
                Tagged-append (ramdisk bi) _ (ramdisk-Tagged bi) (
                  omega arith,
                  (omega arith, Tagged-append (video mac) _ (video-Tagged mac) last),
                )),
          ),
        ),
      ),
    )

-- What `set_kernel_bootinfo` leaves at an aligned address: the kernel, which goes from record to
-- record by their sizes, finds the ones of the boot information in their order, each with its tag
-- and its data, and then the end; and no byte in front of the list or behind it changes. It holds
-- for a command line of fewer than 256 bytes.
pub set_kernel_bootinfo-Parsed :
    (bi : BootInfo) (dst : ℕ) (m : Memory)
    → dst % 4 ≡ 0
    → length bi.command_line < 256
    → (m' : Memory) × (set_kernel_bootinfo bi (dst, m)
        ≡ some (dst + (room_of (records bi) + 4), m'))
      × Parsed m' dst (records bi)
      × ((q : ℕ) → (q < dst) ⊎ (dst + (room_of (records bi) + 4) ≤ q) → m' q ≡ m q)
set_kernel_bootinfo-Parsed bi dst m aligned short =
    let end : List (ℕ × Bytes) = (0x0000, []) ∷ [] in
    let a =
      subst (λ rs. Adds (set_kernel_bootinfo bi) rs dst m) (listing-append bi end)
        (set_kernel_bootinfo-adds bi short dst m aligned) in
    let size : room_of (records bi ++ end) ≡ room_of (records bi) + 4 =
      room_of-append (records bi) end in
    (
      a.after,
      a.returns ∙ ap (λ n. some (dst + n, a.after)) size,
      Listed-Parsed (records bi) a.after dst (records-Tagged bi) a.listed,
      λ q out. a.kept q (subst (λ n. (q < dst) ⊎ (dst + n ≤ q)) (sym size) out),
    )
