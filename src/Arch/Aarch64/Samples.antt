-- ===== src/Arch/Aarch64/Samples.antt =====
-- A list of frames as an allocator, for the runs.
use uefi_bootloader.Prelude.{
  ℕ, zero, suc, ◌+◌, ◌^◌, ◌≤◌, ◌<◌, refl, ◌≢◌, Option, none, some, List, [], ◌∷◌, arith, All, range,
}
use uefi_bootloader.Memory.Chunk.{Chunk}
use uefi_bootloader.Arch.Aarch64.Mapper.Supply.{Fresh}
use uefi_bootloader.FrameAllocator.Queue.{Dequeues}
use uefi_bootloader.FrameAllocator.Source.{FrameAllocator, IsQueue}

-- An allocator that hands out the frames of a list.
abbrev pub pop : List Chunk → List Chunk × Option Chunk
pop [] = ([], none)
pop (f ∷ fs) = (fs, some f)

abbrev pub frame_list : FrameAllocator
frame_list = record { State = List Chunk; allocate_frame = pop }

pub pop-Dequeues : (s : List Chunk) → Dequeues s (pop s).1 (pop s).0
pop-Dequeues [] = (refl, refl)
pop-Dequeues (f ∷ fs) = refl

abbrev pub in_order : IsQueue frame_list
in_order = record {
  Valid = λ s. Unit {0};
  left = λ s. s;
  keeps = λ s h. tt;
  dequeues = λ s h. pop-Dequeues s;
}

pub All-above : (b c n : ℕ) → b < c → All (λ g. g ≢ b) (range c n)
All-above b c zero h = tt
All-above b c (suc n) h = ((λ e. omega (arith, e, h)), All-above b (c + 1) n (omega (arith, h)))

pub Fresh-range : (b n : ℕ) → b + n ≤ 2 ^ 36 → Fresh (λ x. none) (range b n)
Fresh-range b zero h = tt
Fresh-range b (suc n) h = (
  omega (arith, h),
  refl,
  All-above b (b + 1) n (omega arith),
  Fresh-range (b + 1) n (omega (arith, h)),
)
