-- ===== src/Arch/Aarch64/Mapper/Step.antt =====
-- `create_next_table` of uefi-bootloader/src/arch/aarch64/memory.rs, on an entry of a tree.
use uefi_bootloader.Prelude.{
  ℕ, ◌*◌, ◌/◌, ◌%◌, ◌^◌, ◌≤◌, ◌<◌, ◌≡◌, refl, sym, ap, ◌∙◌, ◌≢◌, inl, inr, true, false, ◌&&◌,
  Option, none, some, [], ◌∷◌, arith, ltb, ◌==◌, ==→≡, Bool-cases, length, All, Outcome, ◌>>=◌, ok,
}
use mathlib.Core.Path.{ap₂, subst}
use uefi_bootloader.Memory.Address.{Address}
use uefi_bootloader.Memory.Chunk.{Chunk, start_address}
use uefi_bootloader.Memory.Chunk.Laws.{start_address_below}
use uefi_bootloader.Arch.{BitField}
use uefi_bootloader.Arch.Aarch64.Canonical.{physical_space}
use uefi_bootloader.Arch.Aarch64.Flags as Flags
use uefi_bootloader.Arch.Aarch64.Flags.{
  PteFlags, present, page_descriptor, writable, accessed, no_execute,
}
use uefi_bootloader.Arch.Aarch64.Entry.{
  PageTableEntry, is_unused, as_page_table, set_entry, output_address-set_entry,
}
use uefi_bootloader.Arch.Aarch64.Mapper.{
  Tables, write, zero_table, page_table_flags, new_entry, create_next_table,
}
use uefi_bootloader.Arch.Aarch64.Mapper.Tree.{Place, Places, put, InTree, IsTree}
use uefi_bootloader.Arch.Aarch64.Mapper.Create.{Grows, grown-SameWalks, grown-IsTree}
use uefi_bootloader.Arch.Aarch64.Mapper.Supply.{Fresh, Fresh-put, Supply, Creates}
use uefi_bootloader.FrameAllocator.Draw.{Drops, Allocates, got, out, allocates}
use uefi_bootloader.FrameAllocator.Source.{FrameAllocator, IsQueue}

-- The flags of an entry that leads to a table have none of the bits of its address.
page_table_flags_lem : (page_table_flags < 2 ^ 64) × (page_table_flags / 2 ^ 12 % 2 ^ 40 ≡ 0)
unfolding page_table_flags Flags.new present page_descriptor writable accessed no_execute
page_table_flags_lem = (omega arith, refl)

pub start_lem :
    (bits : BitField) (f : Chunk) → f < 2 ^ 36 → start_address (physical_space bits) f ≡ f * 4096
start_lem bits f h =
    start_address_below (physical_space bits) f (unfold physical_space in omega arith)

module _ (bits : BitField) (a : FrameAllocator) (q : IsQueue a) (places : Places) (tables : Tables)
    (root table : Address) (π : Place) (index : ℕ) (s : a.State)
    (tree : IsTree bits places tables root) (at : places table ≡ some π) (short : length π < 3)
    (bound : index < 512) (within : InTree π index) (supply : Supply bits a q places s) where
  open q use {left}

  abbrev Result : Outcome (Tables × Address × a.State) → Type 0
  Result = Creates bits a q places tables root table π index s

  written : (ts : Tables) (e : PageTableEntry) → write ts table index e table index ≡ e
  written ts e = ground arith

  put_at : (b : Address) → put places b (index ∷ π) b ≡ some (index ∷ π)
  put_at b = ground arith

  module _ (b : Address) (e : PageTableEntry) (s' : a.State)
      (g : Grows bits places tables table π index b e)
      (supply' : Supply bits a q (put places b (index ∷ π)) s')
      (drops' : Drops 1 (left s) (left s'))
      (far : (x : Address) → All (λ f. x ≢ f * 4096) (left s) → x ≢ b) where
    abbrev grown : Tables
    grown = write (zero_table tables b) table index e

    extended : (x : Address) (ρ : Place) → places x ≡ some ρ → put places b (index ∷ π) x ≡ some ρ
    extended x ρ h = elim (Bool-cases (x == b)) [
      | inl f ↦ absurd (cc (g.fresh, h, ap places (==→≡ x b f)))
      | inr f ↦ rw f h
    ]

    kept :
        (x : Address) (ρ : Place) (i : ℕ)
        → places x ≡ some ρ
        → is_unused bits (tables x i) ≡ false
        → grown x i ≡ tables x i
    kept x ρ i h u = elim (Bool-cases (x == b)) [
      | inl f ↦ absurd (cc (g.fresh, h, ap places (==→≡ x b f)))
      | inr f ↦ elim (Bool-cases ((x == table) && (i == index))) [
        | inl here ↦
            let s : x ≡ table = ==→≡ x table (ground arith) in
            let t : i ≡ index = ==→≡ i index (ground arith) in
            absurd (cc (u, g.unused, ap (is_unused bits) (ap₂ tables s t)))
        | inr other ↦ rw (other, f)
      ]
    ]

    untouched :
        (x : Address) (i : ℕ)
        → places x ≡ none
        → All (λ f. x ≢ f * 4096) (left s)
        → (put places b (index ∷ π) x ≡ none) × (grown x i ≡ tables x i)
    untouched x i none_here apart =
        let new : (x == b) ≡ false = ground (arith, far x apart) in
        let old : ((x == table) && (i == index)) ≡ false = elim (Bool-cases (x == table)) [
          | inl f ↦ absurd (cc (none_here, at, ap places (==→≡ x table f)))
          | inr f ↦ rw f refl
        ] in
        (rw new none_here, rw (old, new) refl)

    grown-Creates : Result (ok (grown, as_page_table bits (grown table index), s'))
    grown-Creates = record {
      new_tables = grown;
      address = b;
      after = s';
      new_places = put places b (index ∷ π);
      returns =
          ap (λ x. ok (grown, as_page_table bits x, s')) (written (zero_table tables b) e)
          ∙ ap (λ x. ok (grown, x, s')) g.leads;
      tree = grown-IsTree bits places tables table π index b e g root tree;
      walks = grown-SameWalks bits places tables table π index b e g root tree;
      extends = extended;
      here = put_at b;
      used = ap (is_unused bits) (written (zero_table tables b) e) ∙ g.used;
      leads = ap (as_page_table bits) (written (zero_table tables b) e) ∙ g.leads;
      keeps = kept;
      outside = untouched;
      supply = supply';
      drops = drops';
    }

  used-Creates :
      is_unused bits (tables table index) ≡ false
      → Result (ok (tables, as_page_table bits (tables table index), s))
  used-Creates u = record {
    new_tables = tables;
    address = as_page_table bits (tables table index);
    after = s;
    new_places = places;
    returns = refl;
    tree = tree;
    walks = λ js x ρ i h depth within bound below. refl;
    extends = λ x ρ h. h;
    here = tree.child table π index at short bound within u;
    used = u;
    leads = refl;
    keeps = λ x ρ i h u. refl;
    outside = λ x i h apart. (h, refl);
    supply = supply;
    drops = record { taken = []; split = refl; few = omega arith };
  }

  abbrev result : Tables × a.State → Outcome (Tables × Address × a.State)
  result made = ok (made.0, as_page_table bits (made.0 table index), made.1)

  got-Creates :
      (s' : a.State) (f : Chunk)
      → is_unused bits (tables table index) ≡ true
      → q.Valid s'
      → left s ≡ f ∷ left s'
      → Result (new_entry bits a tables table index page_table_flags (s', some f) >>= result)
  unfolding new_entry
  got-Creates s' f u v l =
      let fresh : Fresh places (f ∷ left s') = subst (Fresh places) l supply.fresh in
      let set =
        output_address-set_entry bits f page_table_flags fresh.0 page_table_flags_lem.0
          page_table_flags_lem.1 in
      let b = start_address (physical_space bits) f in
      let e : b ≡ f * 4096 = start_lem bits f fresh.0 in
      grown-Creates b (set_entry bits f page_table_flags) s'
        (record {
          at = at;
          short = short;
          unused = u;
          fresh = ap places e ∙ fresh.1;
          leads = set.0 ∙ sym e;
          used = set.2;
        })
        (record {
          valid = v;
          fresh =
              subst (λ x. Fresh (put places x (index ∷ π)) (left s')) (sym e)
                (Fresh-put places f (index ∷ π) (left s') fresh.2 fresh.3);
        })
        (record { taken = f ∷ []; split = l; few = omega arith })
        (λ x apart z. (subst (All (λ g. x ≢ g * 4096)) l apart).0 (z ∙ e))

  new-Creates :
      (g : a.State × Option Chunk)
      → is_unused bits (tables table index) ≡ true
      → 1 ≤ length (left s)
      → Allocates a q s g
      → Result (new_entry bits a tables table index page_table_flags g >>= result)
  new-Creates _ u n (got s' f v l) = got-Creates s' f u v l
  new-Creates _ u n (out s' l) = absurd (omega (arith, ap length l, n))

  pub create_next_table-Creates :
      1 ≤ length (left s) → Result (create_next_table bits a tables table index page_table_flags s)
  unfolding create_next_table
  create_next_table-Creates n =
      let in_range : ltb index 512 ≡ true = ground arith in
      rw in_range (elim (Bool-cases (is_unused bits (tables table index))) [
        | inl u ↦ rw u (new-Creates (a.allocate_frame s) u n (allocates a q s supply.valid))
        | inr u ↦ rw u (used-Creates u)
      ])
