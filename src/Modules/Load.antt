-- ===== src/Modules/Load.antt =====
-- What load_modules leaves in memory.
use uefi_bootloader.Prelude.{
  ℕ, ◌+◌, ◌*◌, ◌^◌, ◌≤◌, ◌<◌, ◌≡◌, refl, sym, ap, ◌∙◌, inl, inr, true, false, some, List, [], ◌∷◌,
  ◌++◌, arith, ltb, leb, ◌==◌, Bool-cases, length, get_or, replicate, length-append,
  length-replicate, ◌+w◌, ◌*w◌, Outcome, ◌>>=◌, ◌>>◌, guard, ok,
}
use mathlib.Core.Path.{ap₂}
use mathlib.Core.List.{append_assoc, append-nil}
use uefi_bootloader.Modules.{
  calculate_pages, FileInfo, Firmware, Module, size_of_module, modules_memory, overwrite,
  allocate_slice, allocate_byte_slice, count_pages, LoadState, load_module, load_each, load_modules,
}
use uefi_bootloader.Modules.Buffer.{
  length-overwrite, overwrite_inside, overwrite_before, calculate_pages-eq,
}
use uefi_bootloader.Modules.Names.{padded_name, write_name-padded_name}
use uefi_bootloader.Modules.Files.{
  pages_of, files, total_pages, IsFile, AllFiles, Holds, done, skipped, loaded, count_pages-eq,
}

module _ (fw : Firmware) where
  pub record Loads (infos : List FileInfo) (s : LoadState) (r : Outcome LoadState) : Type 0 where
    pub after : LoadState
    pub more : List Module
    pub returns : r ≡ ok after
    pub modules : after.modules ≡ s.modules ++ more
    pub count : length more ≡ files infos
    pub size : length after.raw_bytes ≡ length s.raw_bytes
    pub before :
        (i : ℕ) → i < s.num_pages * 4096 → get_or after.raw_bytes i 0 ≡ get_or s.raw_bytes i 0
    pub holds : Holds fw after.raw_bytes s.num_pages infos more

  record LoadsOne (info : FileInfo) (s : LoadState) : Type 0 where
    name : List ℕ
    is_name : name ≡ padded_name fw info.file_name
    returns :
        load_module fw info s
        ≡ ok (record s {
          modules =
              s.modules
              ++ record { name = name; offset = s.num_pages * 4096; len = info.file_size } ∷ [];
          raw_bytes = overwrite s.raw_bytes (s.num_pages * 4096) info.contents;
          num_pages = s.num_pages + pages_of info;
        })

  -- The state after it.
  abbrev next : {info : FileInfo} {s : LoadState} → LoadsOne info s → LoadState
  next {info} {s} one = record s {
    modules =
        s.modules
        ++ record { name = one.name; offset = s.num_pages * 4096; len = info.file_size } ∷ [];
    raw_bytes = overwrite s.raw_bytes (s.num_pages * 4096) info.contents;
    num_pages = s.num_pages + pages_of info;
  }

  load_module-LoadsOne :
      (info : FileInfo) (s : LoadState)
      → IsFile info
      → length s.modules < s.capacity
      → (s.num_pages + pages_of info) * 4096 ≤ length s.raw_bytes
      → length s.raw_bytes < 2 ^ 63
      → LoadsOne info s
  unfolding load_module
  load_module-LoadsOne info s f room fits small =
      let e = write_name-padded_name fw info.file_name f.short_name in
      let at : s.num_pages *w 4096 ≡ s.num_pages * 4096 = omega arith in
      let inside : leb (s.num_pages * 4096) (length s.raw_bytes) ≡ true = ground arith in
      let free : ltb (length s.modules) s.capacity ≡ true = ground arith in
      let next : s.num_pages +w calculate_pages info.file_size ≡ s.num_pages + pages_of info =
        omega (arith, calculate_pages-eq info.file_size f.not_empty (omega arith)) in
      record {
        name = padded_name fw info.file_name;
        is_name = refl;
        returns = rw (at, inside, e, free, next);
      }

  skip-Loads :
      (info : FileInfo) (rest : List FileInfo) (s : LoadState)
      → info.is_directory ≡ true
      → Loads rest s (load_each fw rest s)
      → Loads (info ∷ rest) s (load_each fw (info ∷ rest) s)
  unfolding load_each files
  skip-Loads info rest s e l = record {
    after = l.after;
    more = l.more;
    returns = rw e l.returns;
    modules = l.modules;
    count = rw e (l.count ∙ omega arith);
    size = l.size;
    before = l.before;
    holds = skipped e l.holds;
  }

  load-Loads :
      (info : FileInfo) (rest : List FileInfo) (s : LoadState) (one : LoadsOne info s)
      → info.is_directory ≡ false
      → IsFile info
      → (s.num_pages + pages_of info) * 4096 ≤ length s.raw_bytes
      → Loads rest (next one) (load_each fw rest (next one))
      → Loads (info ∷ rest) s (load_each fw (info ∷ rest) s)
  unfolding load_each files
  load-Loads info rest s one e f fits l =
      let at = s.num_pages * 4096 in
      let m : Module = record { name = one.name; offset = at; len = info.file_size } in
      record {
        after = l.after;
        more = m ∷ l.more;
        returns = rw (e, one.returns) l.returns;
        modules = l.modules ∙ append_assoc s.modules (m ∷ []) l.more;
        count = rw e (omega (arith, l.count));
        size = l.size ∙ length-overwrite s.raw_bytes at info.contents;
        before =
            λ i k. l.before i (omega arith) ∙ overwrite_before s.raw_bytes at info.contents i 0 k;
        holds =
            loaded e one.is_name refl refl
              (λ i k.
                l.before (at + i) (omega arith)
                ∙ overwrite_inside s.raw_bytes at info.contents i 0 (omega (arith, f.whole))
                    (omega (arith, f.whole, fits)))
              l.holds;
      }

  load_each-Loads :
      (infos : List FileInfo) (s : LoadState)
      → AllFiles infos
      → length s.modules + files infos ≤ s.capacity
      → (s.num_pages + total_pages infos) * 4096 ≤ length s.raw_bytes
      → length s.raw_bytes < 2 ^ 63
      → Loads infos s (load_each fw infos s)
  unfolding files total_pages
  load_each-Loads [] s h room fits small =
      unfold load_each in
      record {
        after = s;
        more = [];
        returns = refl;
        modules = sym (append-nil s.modules);
        count = refl;
        size = refl;
        before = λ i k. refl;
        holds = done;
      }
  load_each-Loads (info ∷ rest) s h room fits small = elim (Bool-cases info.is_directory) [
    | inl e ↦
        let room0 : length s.modules + (0 + files rest) ≤ s.capacity = rw e at room in
        let fits0 : (s.num_pages + (0 + total_pages rest)) * 4096 ≤ length s.raw_bytes =
          rw e at fits in
        skip-Loads info rest s e
          (load_each-Loads rest s h.1 (omega (arith, room0)) (omega (arith, fits0)) small)
    | inr e ↦
        let f = h.0 e in
        let room' : length s.modules + (1 + files rest) ≤ s.capacity = rw e at room in
        let fits' : (s.num_pages + (pages_of info + total_pages rest)) * 4096 ≤ length s.raw_bytes =
          rw e at fits in
        let one =
          load_module-LoadsOne info s f (omega (arith, room')) (omega (arith, fits')) small in
        let m : Module = record {
          name = one.name;
          offset = s.num_pages * 4096;
          len = info.file_size;
        } in
        let same = length-overwrite s.raw_bytes (s.num_pages * 4096) info.contents in
        load-Loads info rest s one e f (omega (arith, fits')) (
          load_each-Loads rest (next one) h.1
            (omega (arith, room', length-append s.modules (m ∷ []))) (omega (arith, fits', same))
            (omega (arith, same, small)))
  ]

  -- The slice of bytes, for a length that fits.
  bytes-eq :
      (n b : ℕ)
      → allocate_slice fw 1 modules_memory n ≡ ok b
      → allocate_byte_slice fw modules_memory n ≡ ok (replicate n 0)
  unfolding allocate_byte_slice
  bytes-eq n b e = rw e

  -- What load_modules is to return for a directory: one module per file, in the bytes of all their
  -- pages.
  pub record LoadsAll (dir : List FileInfo) (r : Outcome (List Module × List ℕ)) : Type 0 where
    pub modules : List Module
    pub raw_bytes : List ℕ
    pub returns : r ≡ ok (modules, raw_bytes)
    pub count : length modules ≡ files dir
    pub size : length raw_bytes ≡ total_pages dir * 4096
    pub holds : Holds fw raw_bytes 0 dir modules

  start : (capacity n : ℕ) → LoadState
  start capacity n = record {
    capacity = capacity;
    modules = [];
    raw_bytes = replicate n 0;
    num_pages = 0;
  }

  checked : ℕ → Outcome LoadState → Outcome (List Module × List ℕ)
  checked n r = do end ← r; guard (length end.modules == n); ok (end.modules, end.raw_bytes)

  checked-LoadsAll :
      (dir : List FileInfo) {r : Outcome LoadState}
      → Loads dir (start (files dir) (total_pages dir * 4096)) r
      → LoadsAll dir (checked (files dir) r)
  unfolding start checked
  checked-LoadsAll dir l =
      let count : length l.after.modules ≡ files dir = ap length l.modules ∙ l.count in
      let all : (length l.after.modules == files dir) ≡ true = ground (arith, count) in
      record {
        modules = l.after.modules;
        raw_bytes = l.after.raw_bytes;
        returns = rw (l.returns, all);
        count = count;
        size = l.size ∙ length-replicate {A = ℕ} (total_pages dir * 4096) 0;
        holds = rw l.modules l.holds;
      }

  -- If no file is empty or has a name of more than 16 characters, the files take less than `2 ^ 50`
  -- pages and the firmware has the memory for both slices, `load_modules` returns one module per file
  -- of the directory, in order; each has its file's name, starts at the page after the last page of the
  -- one before it, has its file's length, and the bytes there are the file's. The bytes are as many as the pages hold.
  pub load_modules-LoadsAll :
      (dir : List FileInfo) (a b : ℕ)
      → AllFiles dir
      → total_pages dir < 2 ^ 50
      → allocate_slice fw size_of_module fw.loader_data (files dir) ≡ ok a
      → allocate_slice fw 1 modules_memory (total_pages dir * 4096) ≡ ok b
      → LoadsAll dir (load_modules fw (some dir))
  unfolding load_modules start checked
  load_modules-LoadsAll dir a b h small ea eb =
      let n = total_pages dir in
      let counted : count_pages dir 0 0 ≡ (files dir, n) =
        count_pages-eq dir 0 0 h (omega (arith, small))
        ∙ ap₂ (λ a b. (a, b)) (omega arith) (omega arith) in
      let bytes : n *w 4096 ≡ n * 4096 = omega (arith, small) in
      let long = length-replicate {A = ℕ} (n * 4096) 0 in
      let l =
        load_each-Loads dir (start (files dir) (n * 4096)) h (omega arith) (omega (arith, long))
          (omega (arith, long, small)) in
      rw (counted, ea, bytes, bytes-eq (n * 4096) b eb) (checked-LoadsAll dir l)
