-- ===== src/BootInfo/Laws.antt =====
-- The offsets that `create_boot_info` of uefi-bootloader/src/boot_info.rs computes.
use uefi_bootloader.Prelude.{
  ℕ, ◌+◌, ◌-◌, ◌*◌, ◌%◌, ◌^◌, ◌≤◌, ◌<◌, max, ◌≡◌, refl, true, some, arith, leb, Outcome, ok,
}
use native.Mathlib.Nat.{mod-lt, div-add-mod'}
use uefi_bootloader.BootInfo.{Layout, isize_max, array, padded, extend, Layouts, Offsets, offsets}

-- An alignment of a type: at most a page.
pub record IsAlign (n : ℕ) : Type 0 where
  pub pos : 0 < n
  pub small : n ≤ 4096

-- A whole number of steps of `n`, at most `n - 1` past `size`.
pub record IsPadded (size n p : ℕ) : Type 0 where
  pub aligned : p % n ≡ 0
  pub after : size ≤ p
  pub near : p < size + n

padded-IsPadded : (size n : ℕ) → 0 < n → IsPadded size n (padded size n)
padded-IsPadded size n pos = record {
  aligned = grind arith;
  after = omega (arith, div-add-mod' (size + (n - 1)) n, mod-lt (size + (n - 1)) pos, pos);
  near = omega (arith, div-add-mod' (size + (n - 1)) n, mod-lt (size + (n - 1)) pos, pos);
}

array-eq :
    (t : Layout) (n : ℕ)
    → IsAlign t.align
    → t.size * n ≤ 2 ^ 62
    → array t n ≡ some (record { size = t.size * n; align = t.align })
unfolding array
array-eq t n h k =
    let fits : leb (t.size * n + (t.align - 1)) isize_max ≡ true = ground (arith, h.small, k) in
    rw fits refl

extend-eq :
    (l next : Layout)
    → IsAlign l.align
    → IsAlign next.align
    → l.size + next.size ≤ 2 ^ 62 + 2 ^ 16
    → extend l next
      ≡ some (
        record { size = padded l.size next.align + next.size; align = max l.align next.align },
        padded l.size next.align,
      )
unfolding extend
extend-eq l next h h' k =
    let p = padded-IsPadded l.size next.align h'.pos in
    let fits : leb (padded l.size next.align + next.size + (max l.align next.align - 1)) isize_max
        ≡ true =
      ground (arith, h.small, h'.small, k, p.near) in
    rw (extend, fits) refl

-- What the parts are for so many elements: each alignment and each size in bounds.
pub record IsBounded (t : Layouts) (regions modules sections : ℕ) : Type 0 where
  pub boot_information : IsAlign t.boot_information.align
  pub memory_region : IsAlign t.memory_region.align
  pub module_info : IsAlign t.module_info.align
  pub elf_section : IsAlign t.elf_section.align
  pub small :
      t.boot_information.size
        + t.memory_region.size * regions
        + t.module_info.size * modules
        + t.elf_section.size * sections
      ≤ 2 ^ 62

-- The parts follow each other, each aligned, and end where the whole ends.
pub record Disjoint (t : Layouts) (regions modules sections : ℕ) (r : Outcome Offsets)
    : Type 0 where
  pub made : Offsets
  pub returns : r ≡ ok made
  pub regions_after : t.boot_information.size ≤ made.memory_regions_offset
  pub modules_after :
      made.memory_regions_offset + t.memory_region.size * regions ≤ made.modules_offset
  pub sections_after : made.modules_offset + t.module_info.size * modules ≤ made.elf_sections_offset
  pub end : made.elf_sections_offset + t.elf_section.size * sections ≡ made.combined.size
  pub regions_aligned : made.memory_regions_offset % t.memory_region.align ≡ 0
  pub modules_aligned : made.modules_offset % t.module_info.align ≡ 0
  pub sections_aligned : made.elf_sections_offset % t.elf_section.align ≡ 0

max-IsAlign : (a b : ℕ) → IsAlign a → IsAlign b → IsAlign (max a b)
max-IsAlign a b h k = record {
  pos = omega (arith, h.pos, k.pos);
  small = omega (arith, h.small, k.small);
}

-- For types aligned to at most a page, and so many elements that their sizes add up to at most `2 ^
-- 62`, the layout is computed without a panic: the boot information, the regions, the modules and
-- the sections follow each other without overlap, each aligned, and end where the whole ends.
pub offsets-Disjoint :
    (t : Layouts) (regions modules sections : ℕ)
    → IsBounded t regions modules sections
    → Disjoint t regions modules sections (offsets t regions modules sections)
unfolding offsets
offsets-Disjoint t regions modules sections h =
    let r : Layout = record {
      size = t.memory_region.size * regions;
      align = t.memory_region.align;
    } in
    let m : Layout = record { size = t.module_info.size * modules; align = t.module_info.align } in
    let s : Layout = record { size = t.elf_section.size * sections; align = t.elf_section.align } in
    let o1 = padded t.boot_information.size r.align in
    let l1 : Layout = record { size = o1 + r.size; align = max t.boot_information.align r.align } in
    let o2 = padded l1.size m.align in
    let l2 : Layout = record { size = o2 + m.size; align = max l1.align m.align } in
    let o3 = padded l2.size s.align in
    let p1 = padded-IsPadded t.boot_information.size r.align h.memory_region.pos in
    let p2 = padded-IsPadded l1.size m.align h.module_info.pos in
    let p3 = padded-IsPadded l2.size s.align h.elf_section.pos in
    let a1 = max-IsAlign t.boot_information.align r.align h.boot_information h.memory_region in
    let a2 = max-IsAlign l1.align m.align a1 h.module_info in
    let x1 =
      extend-eq t.boot_information r h.boot_information h.memory_region (omega (arith, h.small)) in
    let x2 =
      extend-eq l1 m a1 h.module_info (omega (arith, h.small, p1.near, h.memory_region.small)) in
    let x3 =
      extend-eq l2 s a2 h.elf_section
        (omega (arith, h.small, p1.near, p2.near, h.memory_region.small, h.module_info.small)) in
    record {
      made = record {
        combined = record { size = o3 + s.size; align = max l2.align s.align };
        memory_regions_offset = o1;
        modules_offset = o2;
        elf_sections_offset = o3;
      };
      returns =
          rw
            (
              array-eq t.memory_region regions h.memory_region (omega (arith, h.small)),
              x1,
              array-eq t.module_info modules h.module_info (omega (arith, h.small)),
              x2,
              array-eq t.elf_section sections h.elf_section (omega (arith, h.small)),
              x3,
            )
            refl;
      regions_after = p1.after;
      modules_after = p2.after;
      sections_after = p3.after;
      end = refl;
      regions_aligned = p1.aligned;
      modules_aligned = p2.aligned;
      sections_aligned = p3.aligned;
    }
