-- ===== src/PageAllocator/Slots.antt =====
-- Reserving free slots and marking those of a segment, on both architectures.
use uefi_bootloader.Prelude.{
  ℕ, ◌+◌, ◌-◌, ◌*◌, ◌/◌, ◌%◌, ◌^◌, ◌≤◌, ◌<◌, ◌≡◌, refl, ◌∙◌, ◌≢◌, ◌⊎◌, inl, inr, Bool, true, Option,
  arith, ltb, ◌==◌, ltb→lt, ltb→le, ==→≡, ==→≢, Bool-cases, length, get_or, bit_and_ones, Outcome,
  ◌>>=◌, expect, ok, panic,
}
use uefi_bootloader.Memory.Address.{AddressSpace, new_canonical, add, sub}
use uefi_bootloader.Memory.Address.Laws.{add-canonical, sub-canonical}
use mathlib.Core.Path.{subst}
use native.Mathlib.Nat.{add-zero}
use uefi_bootloader.Memory.Chunk.{containing_address}
use uefi_bootloader.PageAllocator.{
  ProgramHeader, PageAllocator, top_index, first_unused, windows, use_entries, get_free_entries,
  mark_segment_as_used,
}
use uefi_bootloader.PageAllocator.Windows.{
  Free, Finds, found, missed, first_unused-Finds, use_entries-Uses,
}

-- Whether an entry is marked; what lies past the last one counts as marked.
abbrev pub is_used : PageAllocator → ℕ → Bool
is_used s i = get_or s.entries i true

-- `r` reserved the first `n` free entries in a row: they were free, they are now marked, nothing else
-- changed, and no lower place had as many.
pub record Reserves (s : PageAllocator) (n : ℕ) (r : Outcome (PageAllocator × ℕ)) : Type 0 where
  pub after : PageAllocator
  pub index : ℕ
  pub returns : r ≡ ok (after, index)
  pub size : length after.entries ≡ length s.entries
  pub was_free : Free s.entries index n
  pub lowest : (j : ℕ) → j < index → ¬ Free s.entries j n
  pub marked : (k : ℕ) → index ≤ k → k < index + n → is_used after k ≡ true
  pub others : (k : ℕ) → (k < index) ⊎ (index + n ≤ k) → is_used after k ≡ is_used s k

get_free_entries-eq :
    (s : PageAllocator) (n : ℕ)
    → 0 < n
    → get_free_entries s n ≡ (do
      idx ← expect (first_unused 0 (windows n s.entries))
      entries ← use_entries s.entries idx n
      ok (record { entries = entries }, idx))
unfolding get_free_entries
get_free_entries-eq s n h = ground arith

-- What follows the search.
abbrev reserve : PageAllocator → ℕ → Option ℕ → Outcome (PageAllocator × ℕ)
reserve s n o = do
  idx ← expect o
  entries ← use_entries s.entries idx n
  ok (record { entries = entries }, idx)

reserve-Reserves :
    (s : PageAllocator) (n : ℕ) {o : Option ℕ}
    → Finds 0 n s.entries o
    → Reserves s n (reserve s n o) ⊎ ((reserve s n o ≡ panic) × ((j : ℕ) → ¬ Free s.entries j n))
reserve-Reserves s n (found i at e f least) =
    let same : i ≡ at = omega (arith, e) in
    let free : Free s.entries at n = subst (λ k. Free s.entries k n) same f in
    let u = use_entries-Uses s.entries at n free.0 in
    inl (record {
      after = record { entries = u.out };
      index = at;
      returns = rw u.returns;
      size = u.size;
      was_free = free;
      lowest = λ j lt. least j (omega arith);
      marked = u.inside;
      others = u.outside;
    })
reserve-Reserves s n (missed none_free) = inr (refl, none_free)

-- `get_free_entries` for at least one entry reserves the lowest free entries in a row, if there are
-- as many in a row, and panics exactly if not; for no entry it panics.
pub get_free_entries-Reserves :
    (s : PageAllocator) (n : ℕ)
    → (get_free_entries s 0 ≡ panic)
      × (0 < n
          → Reserves s n (get_free_entries s n)
            ⊎ ((get_free_entries s n ≡ panic) × ((j : ℕ) → ¬ Free s.entries j n)))
get_free_entries-Reserves s n = (
  unfold get_free_entries in refl,
  λ h. rw (get_free_entries-eq s n h) (reserve-Reserves s n (first_unused-Finds 0 n s.entries h)),
)

-- The slot of an address.
abbrev pub slot_of : ℕ → ℕ
slot_of a = a / 2 ^ 39 % 512

pub top_index-eq : (a : ℕ) → top_index (containing_address a) ≡ slot_of a
unfolding top_index containing_address
top_index-eq a = bit_and_ones 9 (a / 4096 / 2 ^ 27) ∙ omega arith

-- The addresses from `v` to `v + n`, that of the byte after the last one included, are canonical and of
-- one half of the address space. So a segment that ends where the address space does is left out.
pub record InHalf (space : AddressSpace) (v n : ℕ) : Type 0 where
  pub below : v + n < 2 ^ 64
  pub canonical : (k : ℕ) → k ≤ n → space.canonicalize (v + k) ≡ v + k
  pub half : v / 2 ^ 48 ≡ (v + n) / 2 ^ 48

-- `r` marked the slots of the bytes from `v` to `v + n - 1`, and no other.
pub record Marks (s : PageAllocator) (v n : ℕ) (r : Outcome PageAllocator) : Type 0 where
  pub after : PageAllocator
  pub returns : r ≡ ok after
  pub size : length after.entries ≡ 512
  pub bytes : (k : ℕ) → k < n → is_used after (slot_of (v + k)) ≡ true
  pub kept : (i : ℕ) → is_used s i ≡ true → is_used after i ≡ true
  pub others : (i : ℕ) → ((k : ℕ) → k < n → slot_of (v + k) ≢ i) → is_used after i ≡ is_used s i

mark_segment_as_used-eq :
    (space : AddressSpace) (s : PageAllocator) (segment : ProgramHeader)
    → 0 < segment.p_memsz
    → InHalf space segment.p_vaddr segment.p_memsz
    → mark_segment_as_used space s segment ≡ (
        let first = slot_of segment.p_vaddr in
        let last = slot_of (segment.p_vaddr + segment.p_memsz - 1) in
        use_entries s.entries first (last + 1 - first) >>= λ out. ok (record { entries = out }))
unfolding mark_segment_as_used
mark_segment_as_used-eq space s segment pos half =
    let v = segment.p_vaddr in
    let n = segment.p_memsz in
    let at : new_canonical space v ≡ v =
      unfold new_canonical in
      subst (λ a. space.canonicalize a ≡ a) (add-zero v) (half.canonical 0 (omega arith)) in
    let end : add space v n ≡ v + n =
      add-canonical space v n half.below (half.canonical n (omega arith)) in
    let sum : v + (n - 1) ≡ v + n - 1 = omega arith in
    let last : sub space (v + n) 1 ≡ v + n - 1 =
      sub-canonical space (v + n) 1
        (subst (λ a. space.canonicalize a ≡ a) sum (half.canonical (n - 1) (omega arith))) in
    rw (at, end, last, top_index-eq v, top_index-eq (v + n - 1))

-- An entry between the first and the last slot of a run of bytes is the slot of one of them.
slot_in_run :
    (v n i : ℕ)
    → 0 < n
    → v / 2 ^ 48 ≡ (v + n) / 2 ^ 48
    → slot_of v < i
    → i ≤ slot_of (v + n - 1)
    → let k = v / 2 ^ 48 * 2 ^ 48 + i * 2 ^ 39 - v in (k < n) × (slot_of (v + k) ≡ i)
slot_in_run v n i pos h p q = omega arith

outside_of :
    (v n i : ℕ)
    → 0 < n
    → v / 2 ^ 48 ≡ (v + n) / 2 ^ 48
    → ((k : ℕ) → k < n → slot_of (v + k) ≢ i)
    → (i < slot_of v) ⊎ (slot_of v + (slot_of (v + n - 1) + 1 - slot_of v) ≤ i)
outside_of v n i pos half none_there = elim (Bool-cases (ltb i (slot_of v))) [
  | inl e ↦ inl (ltb→lt i (slot_of v) e)
  | inr from ↦ elim (Bool-cases (ltb (slot_of (v + n - 1)) i)) [
    | inl e ↦ inr (omega (arith, ltb→lt (slot_of (v + n - 1)) i e, half))
    | inr to ↦ elim (Bool-cases (i == slot_of v)) [
      | inl e ↦ absurd (none_there 0 pos (omega (arith, ==→≡ i (slot_of v) e)))
      | inr ne ↦
          let above : slot_of v < i =
            omega (arith, ltb→le i (slot_of v) from, ==→≢ i (slot_of v) ne) in
          let there = slot_in_run v n i pos half above (ltb→le (slot_of (v + n - 1)) i to) in
          absurd (none_there _ there.0 there.1)
    ]
  ]
]

-- `mark_segment_as_used` marks exactly the slots that hold a byte of the segment, without a panic,
-- for a segment of at least one byte whose addresses, that of the byte after its last one included, are
-- canonical and of one half of the address space.
pub mark_segment_as_used-Marks :
    (space : AddressSpace) (s : PageAllocator) (segment : ProgramHeader)
    → length s.entries ≡ 512
    → 0 < segment.p_memsz
    → InHalf space segment.p_vaddr segment.p_memsz
    → Marks s segment.p_vaddr segment.p_memsz (mark_segment_as_used space s segment)
mark_segment_as_used-Marks space s segment size pos half =
    let v = segment.p_vaddr in
    let n = segment.p_memsz in
    let u =
      use_entries-Uses s.entries (slot_of v) (slot_of (v + n - 1) + 1 - slot_of v)
        (omega (arith, half.half, size)) in
    record {
      after = record { entries = u.out };
      returns = mark_segment_as_used-eq space s segment pos half ∙ rw u.returns;
      size = u.size ∙ size;
      bytes =
          λ k lt. u.inside (slot_of (v + k)) (omega (arith, half.half)) (omega (arith, half.half));
      kept = λ i h. ground (arith, u.inside i, u.outside i);
      others = λ i h. u.outside i (outside_of v n i pos half.half h);
    }
