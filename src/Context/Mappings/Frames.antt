-- ===== src/Context/Mappings/Frames.antt =====
-- Which frame `set_up_mappings` maps a page of the stack or of the frame buffer to.
use uefi_bootloader.Prelude.{
  ℕ, ◌+◌, ◌-◌, ◌*◌, ◌/◌, ◌^◌, ◌≡◌, refl, ◌≢◌, inl, inr, true, false, Option, none, some, List,
  arith, ltb, leb, if◌then◌else◌, leb→le, Bool-cases, length, get_elem?,
}
use uefi_bootloader.Context.Zip.{get_elem?-past}
use uefi_bootloader.Api.{FrameBuffer}
use uefi_bootloader.Memory.Chunk.{Chunk}
use uefi_bootloader.Context.Mappings.Buffer.{IsBuffer, pages_before_last}

-- The frame of a page of the stack.
abbrev pub stack_frame : ℕ → List Chunk → Chunk → Option Chunk
stack_frame slot frames p =
    if leb (slot * 2 ^ 27 + 1) p then get_elem? frames (p - (slot * 2 ^ 27 + 1)) else none

module _ (slot : ℕ) (frames : List Chunk) (many : length frames ≡ 17) where
  pub stack_frame_at :
      (k : ℕ) → stack_frame slot frames (slot * 2 ^ 27 + 1 + k) ≡ get_elem? frames k
  stack_frame_at k =
      let le : leb (slot * 2 ^ 27 + 1) (slot * 2 ^ 27 + 1 + k) ≡ true = ground arith in
      let at : slot * 2 ^ 27 + 1 + k - (slot * 2 ^ 27 + 1) ≡ k = omega arith in rw (le, at) refl

  pub stack_frame_guard : stack_frame slot frames (slot * 2 ^ 27) ≡ none
  stack_frame_guard =
      let lt : leb (slot * 2 ^ 27 + 1) (slot * 2 ^ 27) ≡ false = ground arith in rw lt refl

  pub stack_frame_elsewhere : (p : Chunk) → p / 2 ^ 27 ≢ slot → stack_frame slot frames p ≡ none
  stack_frame_elsewhere p h = elim (Bool-cases (leb (slot * 2 ^ 27 + 1) p)) [
    | inl e ↦
        let le = leb→le (slot * 2 ^ 27 + 1) p e in
        rw e (get_elem?-past frames (p - (slot * 2 ^ 27 + 1)) (omega (arith, le, h, many)))
    | inr e ↦ rw e refl
  ]

-- The frame of a page of the frame buffer.
abbrev pub buffer_frame : ℕ → FrameBuffer → Chunk → Option Chunk
buffer_frame slot fb p =
    if leb (slot * 2 ^ 27) p
    then (if ltb (p - slot * 2 ^ 27) (pages_before_last fb)
        then some (fb.physical / 4096 + (p - slot * 2 ^ 27))
        else none)
    else none

module _ (slot : ℕ) (fb : FrameBuffer) (is_buffer : IsBuffer fb) where
  pub buffer_frame_at :
      (k : ℕ)
      → buffer_frame slot fb (slot * 2 ^ 27 + k)
        ≡ (if ltb k (pages_before_last fb) then some (fb.physical / 4096 + k) else none)
  buffer_frame_at k =
      let le : leb (slot * 2 ^ 27) (slot * 2 ^ 27 + k) ≡ true = ground arith in
      let at : slot * 2 ^ 27 + k - slot * 2 ^ 27 ≡ k = omega arith in rw (le, at) refl

  pub buffer_frame_elsewhere : (p : Chunk) → p / 2 ^ 27 ≢ slot → buffer_frame slot fb p ≡ none
  buffer_frame_elsewhere p h = elim (Bool-cases (leb (slot * 2 ^ 27) p)) [
    | inl e ↦
        let le = leb→le (slot * 2 ^ 27) p e in
        let lt : ltb (p - slot * 2 ^ 27) (pages_before_last fb) ≡ false =
          ground (arith, le, h, is_buffer.small) in
        rw (e, lt) refl
    | inr e ↦ rw e refl
  ]
