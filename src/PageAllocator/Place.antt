-- ===== src/PageAllocator/Place.antt =====
-- What `get_free_address` promises for up to one slot of memory, on both architectures.
use uefi_bootloader.Prelude.{
  ℕ, ◌+◌, ◌%◌, ◌^◌, ◌≤◌, ◌<◌, ◌≡◌, sym, ap, ◌∙◌, ◌≢◌, inl, inr, true, false, arith, ltb, ltb→lt,
  ltb→le, Bool-cases, length, get_or_past, Outcome, ok, panic,
}
use uefi_bootloader.Memory.Address.{AddressSpace}
use uefi_bootloader.PageAllocator.{PageAllocator, get_free_entries, slots_for}
use uefi_bootloader.PageAllocator.Windows.{Free}
use uefi_bootloader.PageAllocator.Slots.{is_used, get_free_entries-Reserves, slot_of}

-- `r` gave out the start of the lowest slot that was free, with `len` canonical bytes all in it, and
-- marked that slot alone.
pub record Places (space : AddressSpace) (s : PageAllocator) (len : ℕ)
    (r : Outcome (PageAllocator × ℕ)) : Type 0 where
  pub after : PageAllocator
  pub address : ℕ
  pub slot : ℕ
  pub returns : r ≡ ok (after, address)
  pub size : length after.entries ≡ 512
  pub was_free : is_used s slot ≡ false
  pub lowest : (j : ℕ) → j < slot → is_used s j ≡ true
  pub marked : is_used after slot ≡ true
  pub others : (i : ℕ) → i ≢ slot → is_used after i ≡ is_used s i
  pub aligned : address % 2 ^ 39 ≡ 0
  pub bytes :
      (k : ℕ)
      → k < len
      → (slot_of (address + k) ≡ slot) × (space.canonicalize (address + k) ≡ address + k)

-- Memory that was placed shares no address with one whose slot was marked before.
pub Places-apart :
    {space : AddressSpace} {s : PageAllocator} {len : ℕ} {r : Outcome (PageAllocator × ℕ)}
    (p : Places space s len r) (x : ℕ)
    → is_used s (slot_of x) ≡ true
    → (k : ℕ) → k < len
    → p.address + k ≢ x
Places-apart {s} p x used k lt e =
    let same : slot_of x ≡ p.slot = ap slot_of (sym e) ∙ (p.bytes k lt).0 in
    cc (ap (is_used s) same, p.was_free, used)

pub slots_for_one : (len : ℕ) → 0 < len → len ≤ 2 ^ 39 → slots_for len ≡ 1
unfolding slots_for
slots_for_one len pos small = omega arith

-- The search for one entry, in terms of single entries.
pub data OneSlot (s : PageAllocator) : Outcome (PageAllocator × ℕ) → Type 0 where
  got :
      (after : PageAllocator) (i : ℕ)
      → i < 512
      → length after.entries ≡ 512
      → is_used s i ≡ false
      → ((j : ℕ) → j < i → is_used s j ≡ true)
      → is_used after i ≡ true
      → ((j : ℕ) → j ≢ i → is_used after j ≡ is_used s j)
      → OneSlot s (ok (after, i))
  full : ((j : ℕ) → is_used s j ≡ true) → OneSlot s panic

used_otherwise : (s : PageAllocator) (j : ℕ) → ¬ Free s.entries j 1 → is_used s j ≡ true
used_otherwise s j h = elim (Bool-cases (is_used s j)) [
  | inl e ↦ e
  | inr e ↦ absurd (
      h (
        elim (Bool-cases (ltb j (length s.entries))) [
          | inl lt ↦ omega (arith, ltb→lt j (length s.entries) lt)
          | inr past ↦
              absurd (cc (e, get_or_past s.entries j true (ltb→le j (length s.entries) past)))
        ],
        λ k p q. let k_is_j : k ≡ j = omega arith in rw k_is_j e,
      ))
]

pub get_free_entries-OneSlot :
    (s : PageAllocator) → length s.entries ≡ 512 → OneSlot s (get_free_entries s 1)
get_free_entries-OneSlot s size = elim ((get_free_entries-Reserves s 1).1 (omega arith)) [
  | inl r ↦ rw r.returns (
      got r.after r.index (omega (arith, r.was_free.0, size)) (r.size ∙ size)
        (r.was_free.1 r.index (omega arith) (omega arith))
        (λ j lt. used_otherwise s j (r.lowest j lt)) (r.marked r.index (omega arith) (omega arith))
        (λ j ne. r.others j (omega (arith, ne))))
  | inr e ↦ rw e.0 (full λ j. used_otherwise s j (e.1 j))
]
