-- ===== src/Modules/Files.antt =====
-- The files of a directory, the pages they need, and what it is for modules to hold them.
use uefi_bootloader.Prelude.{
  ℕ, ◌+◌, ◌*◌, ◌/◌, ◌^◌, ◌≤◌, ◌<◌, ◌≡◌, ◌∙◌, inl, inr, true, false, List, [], ◌∷◌, arith,
  if◌then◌else◌, Bool-cases, length, get_or, All, ◌+w◌,
}
use mathlib.Core.Path.{ap₂}
use uefi_bootloader.Modules.{calculate_pages, FileInfo, Firmware, Module, count_pages}
use uefi_bootloader.Modules.Names.{padded_name}
use uefi_bootloader.Modules.Buffer.{calculate_pages-eq}

-- The pages that a file's bytes need.
abbrev pub pages_of : FileInfo → ℕ
pages_of info = (info.file_size + 4095) / 4096

unfoldable pub files : List FileInfo → ℕ
files [] = 0
files (info ∷ rest) = (if info.is_directory then 0 else 1) + files rest

unfoldable pub total_pages : List FileInfo → ℕ
total_pages [] = 0
total_pages (info ∷ rest) = (if info.is_directory then 0 else pages_of info) + total_pages rest

-- A file that is not empty, whose name has at most 16 characters.
pub record IsFile (info : FileInfo) : Type 0 where
  pub not_empty : 0 < info.file_size
  pub whole : length info.contents ≡ info.file_size
  pub short_name : length info.file_name ≤ 16

abbrev pub AllFiles : List FileInfo → Type 0
AllFiles infos = All (λ info. info.is_directory ≡ false → IsFile info) infos

-- The modules are those of the files from the page `p` on: each starts on the page after the last
-- one of the file before it, the bytes there are the file's, and so is the name.
pub data Holds (fw : Firmware) (raw : List ℕ) : ℕ → List FileInfo → List Module → Type 0 where
  done : {p : ℕ} → Holds fw raw p [] []
  skipped :
      {p : ℕ} {info : FileInfo} {rest : List FileInfo} {ms : List Module}
      → info.is_directory ≡ true
      → Holds fw raw p rest ms
      → Holds fw raw p (info ∷ rest) ms
  loaded :
      {p : ℕ} {info : FileInfo} {rest : List FileInfo} {m : Module} {ms : List Module}
      → info.is_directory ≡ false
      → m.name ≡ padded_name fw info.file_name
      → m.offset ≡ p * 4096
      → m.len ≡ info.file_size
      → ((i : ℕ) → i < m.len → get_or raw (m.offset + i) 0 ≡ get_or info.contents i 0)
      → Holds fw raw (p + pages_of info) rest ms
      → Holds fw raw p (info ∷ rest) (m ∷ ms)

pub count_pages-eq :
    (infos : List FileInfo) (m p : ℕ)
    → AllFiles infos
    → p + total_pages infos < 2 ^ 51
    → count_pages infos m p ≡ (m + files infos, p + total_pages infos)
unfolding count_pages files total_pages
count_pages-eq [] m p h k = ap₂ (λ a b. (a, b)) (omega arith) (omega arith)
count_pages-eq (info ∷ rest) m p h k = elim (Bool-cases info.is_directory) [
  | inl e ↦
      let k0 : p + (0 + total_pages rest) < 2 ^ 51 = rw e at k in
      rw e (
        count_pages-eq rest m p h.1 (omega (arith, k0))
        ∙ ap₂ (λ a b. (a, b)) (omega arith) (omega arith))
  | inr e ↦
      let f = h.0 e in
      let room : p + (pages_of info + total_pages rest) < 2 ^ 51 = rw e at k in
      let next : p +w calculate_pages info.file_size ≡ p + pages_of info =
        omega (arith, room, calculate_pages-eq info.file_size f.not_empty (omega (arith, room))) in
      rw (e, next)
        (count_pages-eq rest (m + 1) (p + pages_of info) h.1 (omega (arith, room))
          ∙ ap₂ (λ a b. (a, b)) (omega arith) (omega arith))
]
