-- ===== src/Context/Loops.antt =====
-- The loops of uefi-bootloader/src/context.rs and mappings.rs: what each page is mapped to afterwards.
use uefi_bootloader.Prelude.{
  ℕ, zero, suc, ◌+◌, ◌-◌, ◌*◌, ◌≤◌, ◌<◌, ◌≡◌, refl, sym, ap, ◌∙◌, ◌≢◌, inl, inr, true, false,
  Option, none, some, List, [], ◌∷◌, arith, leb, ◌==◌, if◌then◌else◌, leb→le, leb→lt, ==→≡, ==→≢,
  Bool-cases, length, get_elem?, All, range, Outcome, ◌>>=◌, ok,
}
use mathlib.Core.Path.{subst}
use uefi_bootloader.Memory.Chunk.{Chunk}
use uefi_bootloader.Arch.Machine.{Machine, PageView, Mapped, IsPageMap}
use uefi_bootloader.Context.{zip, map_to_frames}
use uefi_bootloader.FrameAllocator.Source.{FrameAllocator, IsQueue}
use uefi_bootloader.FrameAllocator.Draw.{Drops, Drops-none, Drops-trans, Drops-weaken, length-Drops}

abbrev pub firsts : List (Chunk × Chunk) → List Chunk
firsts [] = []
firsts ((page, frame) ∷ pairs) = page ∷ firsts pairs

-- The frame that a page is mapped to by a list of pages with their frames: the last one counts.
unfoldable pub mapped_to : List (Chunk × Chunk) → Chunk → Option Chunk
mapped_to [] c = none
mapped_to ((page, frame) ∷ pairs) c = elim (mapped_to pairs c) [
  | none ↦ if c == page then some frame else none
  | some f ↦ some f
]

mapped_to_or_none : (o x : Option Chunk) → x ≡ none → elim o [ none ↦ x | some f ↦ some f ] ≡ o
mapped_to_or_none none x h = h
mapped_to_or_none (some f) x h = refl

-- Pages that follow each other get their frames in order.
pub mapped_to-range :
    (p : Chunk) (n : ℕ) (fs : List Chunk) (c : Chunk)
    → length fs ≤ n
    → mapped_to (zip (range p n) fs) c ≡ (if leb p c then get_elem? fs (c - p) else none)
unfolding mapped_to
mapped_to-range p zero [] c h = ground arith
mapped_to-range p zero (f ∷ fs) c h = absurd (omega (arith, h))
mapped_to-range p (suc n) [] c h = ground arith
mapped_to-range p (suc n) (f ∷ fs) c h =
    let rest = mapped_to-range (p + 1) n fs c (omega (arith, h)) in
    elim (Bool-cases (leb (p + 1) c)) [
      | inl e ↦
          let lt = leb→le (p + 1) c e in
          let ne : (c == p) ≡ false = ground (arith, lt) in
          let le : leb p c ≡ true = ground (arith, lt) in
          let next : c - p ≡ suc (c - (p + 1)) = omega (arith, lt) in
          rw (rest, e, le, next) (mapped_to_or_none (get_elem? fs (c - (p + 1))) _ (rw ne refl))
      | inr e ↦
          let lt = leb→lt (p + 1) c e in
          rw (rest, e)
            (elim (Bool-cases (c == p)) [
              | inl f ↦
                  let le : leb p c ≡ true = ground (arith, ==→≡ c p f) in
                  let at : c - p ≡ 0 = omega (arith, ==→≡ c p f) in rw (f, le, at) refl
              | inr f ↦ let le : leb p c ≡ false = ground (arith, lt, ==→≢ c p f) in rw (f, le) refl
            ])
    ]

module _ (machine : Machine) (a : FrameAllocator) (q : IsQueue a) (v : PageView machine)
    (law : IsPageMap machine a q v) where
  open machine use {Mapper, PteFlags}
  open q use {left}
  open v use {Entry, entry_of, leaf, InReach, IsOpen}

  -- The entry of a page, from its entry before.
  abbrev pub entry_after : Option Chunk → PteFlags → Entry → Entry
  entry_after none flags e = e
  entry_after (some f) flags e = leaf f flags

  -- A run that returns with these pages mapped and at most `n` frames gone.
  pub record Ran (m : Mapper) (s : a.State) (n : ℕ) (pairs : List (Chunk × Chunk))
      (flags : PteFlags) (r : Outcome (Mapper × a.State)) : Type 0 where
    pub mapper : Mapper
    pub after : a.State
    pub returns : r ≡ ok (mapper, after)
    pub valid : v.Valid a q mapper after
    pub drops : Drops n (left s) (left after)
    pub entries :
        (c : Chunk)
        → InReach c
        → entry_of mapper c ≡ entry_after (mapped_to pairs c) flags (entry_of m c)

  pub entry_of_cons :
      (page frame : Chunk) (pairs : List (Chunk × Chunk)) (flags : PteFlags) (c : Chunk) (e : Entry)
      → entry_after (mapped_to pairs c) flags (if c == page then leaf frame flags else e)
        ≡ entry_after (mapped_to ((page, frame) ∷ pairs) c) flags e
  unfolding mapped_to
  entry_of_cons page frame pairs flags c e =
      elim (mapped_to pairs c)
        as (λ (o : Option Chunk).
          entry_after o flags (if c == page then leaf frame flags else e)
          ≡ entry_after (elim o [ none ↦ if c == page then some frame else none | some f ↦ some f ])
              flags e) [
                | none ↦ elim (Bool-cases (c == page)) [ inl f ↦ rw f | inr f ↦ rw f ]
                | some f ↦ refl
              ]

  pub Ran-none :
      (m : Mapper) (s : a.State) (flags : PteFlags)
      → v.Valid a q m s
      → Ran m s 0 [] flags (ok (m, s))
  unfolding mapped_to
  Ran-none m s flags h = record {
    mapper = m;
    after = s;
    returns = refl;
    valid = h;
    drops = Drops-none (left s);
    entries = λ c r. refl;
  }

  -- One call, and the rest of the loop.
  module _ (m : Mapper) (page frame : Chunk) (flags : PteFlags) (s : a.State)
      (r : Outcome (Mapper × a.State)) (rest : Mapper × a.State → Outcome (Mapper × a.State)) where
    pub Ran-cons :
        (n total : ℕ) (pairs : List (Chunk × Chunk))
        (k : Mapped machine a q v m page frame flags s r)
        → Ran k.mapper k.after n pairs flags (rest (k.mapper, k.after))
        → 3 + n ≤ total
        → Ran m s total ((page, frame) ∷ pairs) flags (r >>= rest)
    Ran-cons n total pairs k g h = record {
      mapper = g.mapper;
      after = g.after;
      returns = ap (λ x. x >>= rest) k.returns ∙ g.returns;
      valid = g.valid;
      drops = Drops-weaken h (Drops-trans k.drops g.drops);
      entries = λ c h.
          g.entries c h
          ∙ ap (entry_after (mapped_to pairs c) flags) (k.entries c h)
          ∙ entry_of_cons page frame pairs flags c (entry_of m c);
    }

  -- Pages that are open, none of them twice.
  abbrev pub Opens : Mapper → List Chunk → Type 0
  Opens m [] = Unit
  Opens m (p ∷ ps) = IsOpen (entry_of m p) × All (λ c. c ≢ p) ps × Opens m ps

  -- The pages that are still to be mapped stay open.
  pub Opens-step :
      (m : Mapper) (page frame : Chunk) (flags : PteFlags) (s : a.State)
      {r : Outcome (Mapper × a.State)} (k : Mapped machine a q v m page frame flags s r)
      (ps : List Chunk)
      → All InReach ps
      → All (λ c. c ≢ page) ps
      → Opens m ps
      → Opens k.mapper ps
  Opens-step m page frame flags s k [] reach apart h = tt
  Opens-step m page frame flags s k (p ∷ ps) reach apart h =
      let other : (p == page) ≡ false = ground (arith, apart.0) in
      let same : entry_of k.mapper p ≡ entry_of m p = k.entries p reach.0 ∙ rw other refl in
      (subst IsOpen (sym same) h.0, h.1, Opens-step m page frame flags s k ps reach.1 apart.1 h.2)

  range_later : (b n p : ℕ) → p < b → All (λ c. c ≢ p) (range b n)
  range_later b zero p lt = tt
  range_later b (suc n) p lt =
      (λ e. omega (arith, e, lt), range_later (b + 1) n p (omega (arith, lt)))

  -- Pages that follow each other.
  pub Opens-range :
      (m : Mapper) (b n : ℕ)
      → ((i : ℕ) → b ≤ i → i < b + n → IsOpen (entry_of m i))
      → Opens m (range b n)
  Opens-range m b zero h = tt
  Opens-range m b (suc n) h = (
    h b (omega arith) (omega arith),
    range_later (b + 1) n b (omega arith),
    Opens-range m (b + 1) n (λ i lo hi. h i (omega (arith, lo)) (omega (arith, hi))),
  )

  zip_later : (b n p : ℕ) (fs : List Chunk) → p < b → All (λ c. c ≢ p) (firsts (zip (range b n) fs))
  zip_later b zero p fs lt = tt
  zip_later b (suc n) p [] lt = tt
  zip_later b (suc n) p (f ∷ fs) lt =
      (λ e. omega (arith, e, lt), zip_later (b + 1) n p fs (omega (arith, lt)))

  pub Opens-zip :
      (m : Mapper) (b n : ℕ) (fs : List Chunk)
      → ((i : ℕ) → b ≤ i → i < b + n → IsOpen (entry_of m i))
      → Opens m (firsts (zip (range b n) fs))
  Opens-zip m b zero fs h = tt
  Opens-zip m b (suc n) [] h = tt
  Opens-zip m b (suc n) (f ∷ fs) h = (
    h b (omega arith) (omega arith),
    zip_later (b + 1) n b fs (omega arith),
    Opens-zip m (b + 1) n fs (λ i lo hi. h i (omega (arith, lo)) (omega (arith, hi))),
  )

  All-firsts :
      (P : Chunk → Type 0) (ps : List (Chunk × Chunk)) → All (λ p. P p.0) ps → All P (firsts ps)
  All-firsts P [] h = tt
  All-firsts P (p ∷ ps) h = (h.0, All-firsts P ps h.1)

  pub map_to_frames-Ran :
      (pairs : List (Chunk × Chunk)) (flags : PteFlags) (m : Mapper) (s : a.State)
      → v.Valid a q m s
      → All (λ p. InReach p.0) pairs
      → Opens m (firsts pairs)
      → length pairs * 3 ≤ length (left s)
      → Ran m s (length pairs * 3) pairs flags (map_to_frames machine a pairs flags m s)
  unfolding map_to_frames
  map_to_frames-Ran [] flags m s h reach opens n = Ran-none m s flags h
  map_to_frames-Ran ((page, frame) ∷ pairs) flags m s h reach opens n =
      let k = law.maps m page frame flags s h reach.0 opens.0 (omega (arith, n)) in
      let g =
        map_to_frames-Ran pairs flags k.mapper k.after k.valid reach.1
          (Opens-step m page frame flags s k (firsts pairs) (All-firsts InReach pairs reach.1)
            opens.1 opens.2)
          (omega (arith, n, length-Drops k.drops)) in
      Ran-cons m page frame flags s _ (λ r. map_to_frames machine a pairs flags r.0 r.1)
        (length pairs * 3) _ pairs k g (omega arith)
