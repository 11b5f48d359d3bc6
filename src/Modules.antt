-- ===== src/Modules.antt =====
-- uefi-bootloader/src/modules.rs, with calculate_pages of uefi-bootloader/src/util.rs and the
-- allocation of slices of uefi-bootloader/src/context.rs. `Firmware` stands for the services of the
-- crate `uefi` and of `core` that these use. Reading the directory and opening files succeeds.
pub mod Buffer
pub mod Names
pub mod Files
pub mod Load
mod Tests
use uefi_bootloader.Prelude.{
  ℕ, zero, suc, ◌+◌, ◌/◌, ◌≤◌, Bool, Option, none, some, List, [], ◌∷◌, ◌++◌, ltb, leb, ◌==◌,
  if◌then◌else◌, length, replicate, ◌+w◌, ◌-w◌, ◌*w◌, Outcome, ◌>>=◌, ◌>>◌, expect, guard, ok,
}

unfoldable pub calculate_pages : ℕ → ℕ
calculate_pages bytes = ((bytes -w 1) / 4096) +w 1

-- An entry of a directory: its name in 16-bit characters, and what `read` finds in its file.
pub record FileInfo : Type 0 where
  pub is_directory : Bool
  pub file_size : ℕ
  pub file_name : List ℕ
  pub contents : List ℕ

-- `allocate_pages` gives the address of so many pages of a memory type; a character has at most 4
-- bytes of UTF-8.
pub record Firmware : Type 0 where
  pub loader_data : ℕ
  pub allocate_pages : ℕ → ℕ → Option ℕ
  pub encode_utf8 : ℕ → List ℕ
  pub encode_utf8-size : (c : ℕ) → length (encode_utf8 c) ≤ 4

pub record Module : Type 0 where
  pub name : List ℕ
  pub offset : ℕ
  pub len : ℕ

-- `size_of::<Module>()`
abbrev pub size_of_module : ℕ
size_of_module = 80

abbrev pub modules_memory : ℕ
modules_memory = 0x8000_0000

-- Writing `ys` into `xs` from an index on, as far as there is room.
unfoldable pub overwrite : List ℕ → ℕ → List ℕ → List ℕ
overwrite [] at ys = []
overwrite (x ∷ xs) zero [] = x ∷ xs
overwrite (x ∷ xs) zero (y ∷ ys) = y ∷ overwrite xs zero ys
overwrite (x ∷ xs) (suc at) ys = x ∷ overwrite xs at ys

-- The names' bytes, character by character; each needs 4 bytes of room.
unfoldable pub write_name : Firmware → List ℕ → List ℕ → ℕ → Outcome (List ℕ)
write_name fw [] name_buf name_idx = ok name_buf
write_name fw (c16 ∷ rest) name_buf name_idx =
    let s = fw.encode_utf8 c16 in
    let next = write_name fw rest (overwrite name_buf name_idx s) (name_idx + length s) in
    guard (leb (name_idx + 4) (length name_buf)) >> next

-- `allocate_slice_inner`: the pages for `len` elements of some size, zeroed.
unfoldable pub allocate_slice : Firmware → ℕ → ℕ → ℕ → Outcome ℕ
unfolding calculate_pages
allocate_slice fw size_of memory_type len =
    expect (fw.allocate_pages memory_type (calculate_pages (size_of *w len)))

unfoldable pub allocate_byte_slice : Firmware → ℕ → ℕ → Outcome (List ℕ)
unfolding allocate_slice
allocate_byte_slice fw memory_type len =
    allocate_slice fw 1 memory_type len >>= λ pointer. ok (replicate len 0)

-- The first loop: the number of files, and of pages for them.
unfoldable pub count_pages : List FileInfo → ℕ → ℕ → ℕ × ℕ
unfolding calculate_pages
count_pages [] num_modules num_pages = (num_modules, num_pages)
count_pages (info ∷ rest) num_modules num_pages =
    let skipped = count_pages rest num_modules num_pages in
    let counted =
      count_pages rest (num_modules + 1) (num_pages +w calculate_pages info.file_size) in
    if info.is_directory then skipped else counted

-- The second loop's state: the modules written to a slice of `capacity` of them, the files' bytes,
-- and the pages that these take so far.
pub record LoadState : Type 0 where
  pub capacity : ℕ
  pub modules : List Module
  pub raw_bytes : List ℕ
  pub num_pages : ℕ

-- The body of the second loop for a file.
unfoldable pub load_module : Firmware → FileInfo → LoadState → Outcome LoadState
unfolding calculate_pages write_name
load_module fw info s = do
  let offset = s.num_pages *w 4096
  guard (leb offset (length s.raw_bytes))
  name ← write_name fw info.file_name (replicate 64 0) 0
  guard (ltb (length s.modules) s.capacity)
  ok (record s {
    modules = s.modules ++ record { name = name; offset = offset; len = info.file_size } ∷ [];
    raw_bytes = overwrite s.raw_bytes offset info.contents;
    num_pages = s.num_pages +w calculate_pages info.file_size;
  })

unfoldable pub load_each : Firmware → List FileInfo → LoadState → Outcome LoadState
unfolding load_module
load_each fw [] s = ok s
load_each fw (info ∷ rest) s =
    (if info.is_directory then ok s else load_module fw info s) >>= load_each fw rest

-- The modules and the bytes of their files. Without the directory there are none.
unfoldable pub load_modules : Firmware → Option (List FileInfo) → Outcome (List Module × List ℕ)
unfolding count_pages allocate_slice allocate_byte_slice load_each
load_modules fw none = ok ([], [])
load_modules fw (some dir) = do
  let counts = count_pages dir 0 0
  modules ← allocate_slice fw size_of_module fw.loader_data counts.0
  raw_bytes ← allocate_byte_slice fw modules_memory (counts.1 *w 4096)
  let start : LoadState = record {
    capacity = counts.0;
    modules = [];
    raw_bytes = raw_bytes;
    num_pages = 0;
  }
  end ← load_each fw dir start
  guard (length end.modules == counts.0)
  ok (end.modules, end.raw_bytes)
