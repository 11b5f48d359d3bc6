-- ===== src/Modules/Tests.antt =====
-- A directory of two files, with a directory between them.
use uefi_bootloader.Prelude.{
  ℕ, ◌*◌, ◌^◌, ◌≤◌, ◌≡◌, refl, ap, true, false, some, List, [], ◌∷◌, map, arith, length, replicate,
  ok, panic,
}
use uefi_bootloader.Modules.{
  FileInfo, Firmware, calculate_pages, allocate_slice, write_name, load_modules, overwrite,
}
use uefi_bootloader.Modules.Files.{AllFiles, files, total_pages}
use uefi_bootloader.Modules.Load.{LoadsAll, load_modules-LoadsAll}
use uefi_bootloader.Modules.Names.{encoded}
use uefi_bootloader.Api.Names.{Utf8, module_name}
use uefi_bootloader.Api.Laws.{IsUtf8, texts, module_name-load_modules}

abbrev ascii : ℕ → List ℕ
ascii c = c ∷ []

ascii_size : (c : ℕ) → length (ascii c) ≤ 4
ascii_size c = omega arith

abbrev firmware : Firmware
firmware = record {
  loader_data = 2;
  allocate_pages = λ memory_type pages. some 0x5000;
  encode_utf8 = ascii;
  encode_utf8-size = ascii_size;
}

abbrev first_file : FileInfo
first_file = record {
  is_directory = false;
  file_size = 3;
  file_name = 97 ∷ [];
  contents = 1 ∷ 2 ∷ 3 ∷ [];
}

abbrev folder : FileInfo
folder = record { is_directory = true; file_size = 0; file_name = 98 ∷ []; contents = [] }

abbrev second_file : FileInfo
second_file = record {
  is_directory = false;
  file_size = 2;
  file_name = 99 ∷ [];
  contents = 8 ∷ 9 ∷ [];
}

abbrev directory : List FileInfo
directory = first_file ∷ folder ∷ second_file ∷ []

directory_files : AllFiles directory
directory_files = (
  λ e. record { not_empty = omega arith; whole = refl; short_name = omega arith },
  (
    λ e. absurd (cc e),
    (λ e. record { not_empty = omega arith; whole = refl; short_name = omega arith }, tt),
  ),
)

slice_for_modules : allocate_slice firmware 80 2 (files directory) ≡ ok 0x5000
unfolding allocate_slice
slice_for_modules = refl

slice_for_bytes : allocate_slice firmware 1 0x8000_0000 (total_pages directory * 4096) ≡ ok 0x5000
unfolding allocate_slice
slice_for_bytes = refl

two_pages : total_pages directory ≡ 2
unfolding total_pages
two_pages = refl

-- An empty file counts as 2 ^ 52 pages.
empty_file : calculate_pages 0 ≡ 2 ^ 52
unfolding calculate_pages
empty_file = refl

-- The 4 bytes of room that each character needs end before the buffer does.
long_name : write_name firmware (replicate 62 97) (replicate 64 0) 0 ≡ panic
unfolding write_name overwrite
long_name = refl

load_modules-LoadsAll_example : LoadsAll firmware directory (load_modules firmware (some directory))
load_modules-LoadsAll_example =
    load_modules-LoadsAll firmware directory 0x5000 0x5000 directory_files
      (omega (arith, two_pages)) slice_for_modules slice_for_bytes

-- Text as its characters.
abbrev ascii_text : Utf8
ascii_text = record { Str = List ℕ; from_utf8 = λ bytes. some bytes }

encoded_ascii : (cs : List ℕ) → encoded firmware cs ≡ cs
unfolding encoded
encoded_ascii [] = refl
encoded_ascii (c ∷ cs) = ap (λ l. c ∷ l) (encoded_ascii cs)

abbrev ascii_text-IsUtf8 : IsUtf8 firmware ascii_text
ascii_text-IsUtf8 = record {
  text = λ cs. cs;
  no_zero = λ c h. (h, tt);
  decodes = λ cs. ap (λ l. some l) (encoded_ascii cs);
}

module_name-load_modules_example :
    (l : LoadsAll firmware directory (load_modules firmware (some directory))) × (map
        (module_name ascii_text)
        l.modules
      ≡ texts firmware ascii_text ascii_text-IsUtf8 directory)
module_name-load_modules_example =
    module_name-load_modules firmware ascii_text ascii_text-IsUtf8 directory 0x5000 0x5000
      directory_files
      (
        ((λ e. omega (arith, e)), tt),
        (((λ e. omega (arith, e)), tt), (((λ e. omega (arith, e)), tt), tt)),
      )
      (omega (arith, two_pages)) slice_for_modules slice_for_bytes
