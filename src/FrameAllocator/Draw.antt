-- ===== src/FrameAllocator/Draw.antt =====
-- What is left of a queue of frames after some were taken.
use uefi_bootloader.Prelude.{
  ℕ, ◌+◌, ◌≤◌, ◌≡◌, refl, sym, ap, ◌∙◌, Option, none, some, List, [], ◌∷◌, ◌++◌, arith, length,
  length-append,
}
use mathlib.Core.List.{append_assoc}
use uefi_bootloader.Memory.Chunk.{Chunk}
use uefi_bootloader.FrameAllocator.Queue.{Dequeues}
use uefi_bootloader.FrameAllocator.Source.{FrameAllocator, IsQueue}

-- `later` is what is left of `earlier` after at most `n` frames.
pub record Drops (n : ℕ) (earlier later : List Chunk) : Type 0 where
  pub taken : List Chunk
  pub split : earlier ≡ taken ++ later
  pub few : length taken ≤ n

pub Drops-none : (l : List Chunk) → Drops 0 l l
Drops-none l = record { taken = []; split = refl; few = omega arith }

pub Drops-trans : {n k : ℕ} {x y z : List Chunk} → Drops n x y → Drops k y z → Drops (n + k) x z
Drops-trans {n} {k} {x} {y} {z} d e = record {
  taken = d.taken ++ e.taken;
  split = d.split ∙ ap (λ l. d.taken ++ l) e.split ∙ sym (append_assoc d.taken e.taken z);
  few = omega (arith, d.few, e.few, length-append d.taken e.taken);
}

pub Drops-weaken : {n k : ℕ} {x y : List Chunk} → n ≤ k → Drops n x y → Drops k x y
Drops-weaken h d = record { taken = d.taken; split = d.split; few = omega (arith, h, d.few) }

pub length-Drops : {n : ℕ} {x y : List Chunk} → Drops n x y → length x ≤ n + length y
length-Drops {n} {x} {y} d = omega (arith, d.few, ap length d.split, length-append d.taken y)

module _ (a : FrameAllocator) (q : IsQueue a) where
  open q use {Valid, left}

  -- What `allocate_frame` returns: the first frame left, or none if none is left.
  pub data Allocates (s : a.State) : a.State × Option Chunk → Type 0 where
    got : (s' : a.State) (f : Chunk) → Valid s' → left s ≡ f ∷ left s' → Allocates s (s', some f)
    out : (s' : a.State) → left s ≡ [] → Allocates s (s', none)

  Allocates-of :
      (s s' : a.State) (o : Option Chunk)
      → Valid s'
      → Dequeues (left s) o (left s')
      → Allocates s (s', o)
  Allocates-of s s' none v d = out s' d.0
  Allocates-of s s' (some f) v d = got s' f v d

  pub allocates : (s : a.State) → Valid s → Allocates s (a.allocate_frame s)
  allocates s h =
      Allocates-of s (a.allocate_frame s).0 (a.allocate_frame s).1 (q.keeps s h) (q.dequeues s h)
