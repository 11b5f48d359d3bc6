-- ===== src/Arch/Aarch64/Mapper/NewBeside.antt =====
-- `Mapper::new` of uefi-bootloader/src/arch/aarch64/memory.rs, beside a mapper whose tables stand in the
-- same memory.
use uefi_bootloader.Prelude.{
  ◌*◌, ◌≤◌, ◌≡◌, refl, ap, inl, inr, false, Option, none, some, List, [], ◌∷◌, arith, ◌==◌, ==→≡,
  Bool-cases, length, Outcome, ◌>>=◌, expect, ok,
}
use mathlib.Core.Path.{subst}
use uefi_bootloader.Memory.Address.{Address}
use uefi_bootloader.Memory.Chunk.{Chunk, start_address}
use uefi_bootloader.Arch.{BitField}
use uefi_bootloader.Arch.Aarch64.Canonical.{physical_space}
use uefi_bootloader.Arch.Aarch64.Mapper.{Tables, new, Mapper, zero_table}
use uefi_bootloader.Arch.Aarch64.Mapper.Tree.{Place, Places, put, entry_of}
use uefi_bootloader.Arch.Aarch64.Mapper.Supply.{Fresh, Fresh-put}
use uefi_bootloader.Arch.Aarch64.Mapper.Step.{start_lem}
use uefi_bootloader.Arch.Aarch64.Mapper.Maps.{InReach, IsMapper}
use uefi_bootloader.Arch.Aarch64.Mapper.Recursive.{made, made-IsTree, made_empty}
use uefi_bootloader.Arch.Aarch64.Mapper.Beside.{SameTables, IsTree-same, entry_of-same, IsBeside}
use uefi_bootloader.FrameAllocator.Source.{FrameAllocator, IsQueue}
use uefi_bootloader.FrameAllocator.Draw.{Allocates, got, out, allocates}

Fresh-none : (places : Places) (fs : List Chunk) → Fresh places fs → Fresh (λ x. none) fs
Fresh-none places [] h = tt
Fresh-none places (f ∷ fs) h = (h.0, refl, h.2, Fresh-none places fs h.3)

module _ (bits : BitField) (a : FrameAllocator) (q : IsQueue a) where
  open q use {left}

  -- A new mapper that maps nothing, beside the old one, which maps what it mapped.
  pub record NewBeside (l : Mapper) (s : a.State) (r : Outcome (Mapper × a.State)) : Type 0 where
    pub mapper : Mapper
    pub after : a.State
    pub root : Chunk
    pub returns : r ≡ ok (mapper, after)
    pub taken : left s ≡ root ∷ left after
    pub beside : IsBeside bits a q mapper (record l { tables = mapper.tables }) after
    pub empty : (c : Chunk) → entry_of bits mapper c ≡ 0
    pub others :
        (c : Chunk)
        → InReach c
        → entry_of bits (record l { tables = mapper.tables }) c ≡ entry_of bits l c

  module _ (l : Mapper) (s s' : a.State) (f : Chunk) (i : IsMapper bits a q l s) (v : q.Valid s')
      (e : left s ≡ f ∷ left s') where
    fresh : Fresh i.places (f ∷ left s')
    fresh = subst (Fresh i.places) e i.supply.fresh

    abbrev unmapped : Fresh (λ x. none) (f ∷ left s')
    unmapped = Fresh-none i.places (f ∷ left s') fresh

    -- No table in use is the new root.
    other_table : (x : Address) (π : Place) → i.places x ≡ some π → (x == f * 4096) ≡ false
    other_table x π at = elim (Bool-cases (x == f * 4096)) [
      | inl here ↦ absurd (cc (fresh.1, at, ap i.places (==→≡ x (f * 4096) here)))
      | inr other ↦ other
    ]

    abbrev new_mapper : Mapper
    new_mapper = made bits a q l.tables s s' f v e unmapped

    same_tables : SameTables bits i.places l.tables new_mapper.tables
    same_tables x π n at = rw (other_table x π at) refl

    made_beside : NewBeside l s (ok (new_mapper, s'))
    made_beside = record {
      mapper = new_mapper;
      after = s';
      root = f;
      returns = refl;
      taken = e;
      beside = record {
        one = record {
          places = put (λ x. none) (f * 4096) [];
          tree = made-IsTree bits a q l.tables s s' f v e unmapped;
          supply = record {
            valid = v;
            fresh = Fresh-put (λ x. none) f [] (left s') unmapped.2 unmapped.3;
          };
        };
        two = record {
          places = i.places;
          tree =
              IsTree-same bits i.places l.tables new_mapper.tables l.level_zero_page_table
                same_tables i.tree;
          supply = record { valid = v; fresh = fresh.3 };
        };
        same = refl;
        apart = λ x π at. rw (other_table x π at) refl;
      };
      empty = made_empty bits a q l.tables s s' f v e unmapped;
      others = λ c r. entry_of-same bits i.places l new_mapper.tables c same_tables i.tree r;
    }

  abbrev newly : Tables → a.State × Option Chunk → Outcome (Mapper × a.State)
  newly tables g = expect g.1 >>= λ f.
      let address = start_address (physical_space bits) f in
      ok (record { tables = zero_table tables address; level_zero_page_table = address }, g.0)

  newly_beside :
      (l : Mapper) (s : a.State) (g : a.State × Option Chunk)
      → IsMapper bits a q l s
      → 1 ≤ length (left s)
      → Allocates a q s g
      → NewBeside l s (newly l.tables g)
  newly_beside l s _ i n (got s' f v e) =
      rw (start_lem bits f (fresh l s s' f i v e).0) (made_beside l s s' f i v e)
  newly_beside l s _ i n (out s' e) = absurd (omega (arith, ap length e, n))

  -- On aarch64, `new`, in the memory of a mapper whose tables are a tree, with a frame left and no
  -- frame left in use as a table: it takes the first one and makes a mapper that maps no page, its
  -- tables are a tree and share no table with those of the other mapper, no frame left is a table of
  -- either, and the other mapper keeps its entry for every page of a canonical address outside the
  -- recursive entry.
  pub new-NewBeside :
      (l : Mapper) (s : a.State)
      → IsMapper bits a q l s
      → 1 ≤ length (left s)
      → NewBeside l s (new bits a l.tables s)
  unfolding new
  new-NewBeside l s i n = newly_beside l s (a.allocate_frame s) i n (allocates a q s i.supply.valid)
