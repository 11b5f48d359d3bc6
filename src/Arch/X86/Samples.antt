-- ===== src/Arch/X86/Samples.antt =====
-- A crate that keeps its promises, with one table for all pages, for the runs.
use uefi_bootloader.Prelude.{
  ℕ, ◌+◌, ◌*◌, ◌/◌, ◌%◌, ◌^◌, ◌<◌, ◌≡◌, refl, Bool, true, false, ◌&&◌, Option, none, some, List, [],
  ◌∷◌, arith, ltb, ◌==◌, if◌then◌else◌, Outcome, ok, panic,
}
use uefi_bootloader.Memory.Address.{Address}
use uefi_bootloader.Memory.Chunk.{Chunk}
use uefi_bootloader.FrameAllocator.Source.{FrameAllocator, IsQueue}
use uefi_bootloader.FrameAllocator.Queue.{Dequeues}
use uefi_bootloader.PageAllocator.X86.{Paging}
use uefi_bootloader.Arch.X86.{canonicalize_virtual_address}
use uefi_bootloader.Arch.X86.Flags.{PageTableFlags}
use uefi_bootloader.Arch.X86.Mapper.{FrameSource, Crate}
use uefi_bootloader.Arch.X86.Mapper.Laws.{IsCrate}

abbrev pub Entry : Type 0
Entry = Option (Address × ℕ)

abbrev pub only_if : Bool → ℕ → Outcome ℕ
only_if true a = ok a
only_if false a = panic

abbrev pub some_if : Bool → ℕ → Option ℕ
some_if true a = some a
some_if false a = none

-- The entry of a page stands in the root, after the entries of a real table.
abbrev pub place : Address → ℕ
place page = 512 + page

abbrev pub write_root : (Address → ℕ → Entry) → Address → ℕ → Entry → Address → ℕ → Entry
write_root tables root index e t i = if t == root && i == index then e else tables t i

abbrev pub map_one :
    (g : FrameSource)
    → (Address → ℕ → Entry)
    → Address
    → Address
    → Address
    → ℕ
    → g.State
    → Outcome (Option ((Address → ℕ → Entry) × g.State))
map_one g tables root page frame flags s = ok (elim (tables root (place page)) [
  | none ↦ some (write_root tables root (place page) (some (frame, flags)), s)
  | some e ↦ none
])

abbrev pub small_crate : Crate
small_crate = record {
  virt_addr = λ a. only_if (canonicalize_virtual_address a == a) a;
  phys_addr = λ a. only_if (ltb a (2 ^ 52)) a;
  page_from_start_address = λ a. some_if (a % 4096 == 0) a;
  frame_from_start_address = λ a. some_if (a % 4096 == 0) a;
  p4_index = λ a. a / 2 ^ 39 % 512;
  from_bits_truncate = λ f. f;
  Entry = Entry;
  unused = none;
  set_frame = λ f n. ok (some (f, n));
  map_to = map_one;
}

abbrev pub address_in : Entry → Address
address_in none = 0
address_in (some e) = e.0

abbrev pub flags_in : Entry → ℕ
flags_in none = 0
flags_in (some e) = e.1

pub small_crate-IsCrate : IsCrate small_crate
small_crate-IsCrate = record {
  virt_addr-ok = λ a h e.
      let same : (canonicalize_virtual_address a == a) ≡ true = ground (arith, e) in rw same refl;
  phys_addr-ok = λ a h. let lt : ltb a (2 ^ 52) ≡ true = ground (arith, h) in rw lt refl;
  page_from_start_address-some =
      λ a h. let same : (a % 4096 == 0) ≡ true = ground (arith, h) in rw same refl;
  frame_from_start_address-some =
      λ a h. let same : (a % 4096 == 0) ≡ true = ground (arith, h) in rw same refl;
  p4_index_lem = λ a h. refl;
  from_bits_truncate_lem = λ f h e. refl;
  entry = λ f n. some (f, n);
  addr = address_in;
  flags = flags_in;
  set_frame-ok = λ f n h e z. refl;
  addr-entry = λ f n h e. refl;
  flags-entry = λ f n h. refl;
}

abbrev pub index : ℕ → Outcome ℕ
index i = only_if (ltb i 512) i

pub index-ok : (i : ℕ) → i < 512 → index i ≡ ok i
index-ok i h = let lt : ltb i 512 ≡ true = ground (arith, h) in rw lt refl

abbrev pub paging : Paging
paging = record {
  page_table_index = index;
  page_table_index-ok = index-ok;
  start_of_1gib = λ p4 p3. canonicalize_virtual_address (p4 * 2 ^ 39 + p3 * 2 ^ 30);
  start_of_1gib_lem = λ p4 p3 h k. refl;
}

abbrev pub page_table_flags : PageTableFlags
page_table_flags = record {
  present = 1;
  writable = 2;
  no_execute = 2 ^ 63;
  present_lem = refl;
  writable_lem = refl;
  no_execute_lem = refl;
}

-- An allocator that gives the frames of a list.
abbrev pub pop : List Chunk → List Chunk × Option Chunk
pop [] = ([], none)
pop (f ∷ fs) = (fs, some f)

abbrev pub frame_list : FrameAllocator
frame_list = record { State = List Chunk; allocate_frame = pop }

pub pop-Dequeues : (s : List Chunk) → Dequeues s (pop s).1 (pop s).0
pop-Dequeues [] = (refl, refl)
pop-Dequeues (f ∷ fs) = refl

abbrev pub in_order : IsQueue frame_list
in_order = record {
  Valid = λ s. Unit {0};
  left = λ s. s;
  keeps = λ s h. tt;
  dequeues = λ s h. pop-Dequeues s;
}
