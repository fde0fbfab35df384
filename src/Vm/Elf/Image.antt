-- ===== src/Vm/Elf/Image.antt =====
-- The address space after all segments of an ELF file are loaded.
use rasperry_pi_os.Prelude.{
  ℕ, ◌+◌, ◌/◌, ◌%◌, ◌^◌, ◌≤◌, ◌<◌, ◌≡◌, refl, ◌∙◌, ◌⊎◌, inl, inr, List, [], ◌∷◌, arith, length,
  get_or, All, returns, OnReturn, OnReturn->>=, OnReturn-map,
}
use rasperry_pi_os.Vm.Tables.{page_bits, table_length, new, PageTable}
use rasperry_pi_os.Vm.Tables.Laws.{KeepsPa}
use rasperry_pi_os.Vm.Elf.{ProgramHeader}
use rasperry_pi_os.Vm.Elf.Load.{
  page_round_up, page_round_down, Loading, Loaded, loaded, failed, Source, load_header,
  load_headers,
}
use rasperry_pi_os.Vm.Elf.Laws.{translate}
use rasperry_pi_os.Vm.Elf.Segment.{
  first_page, pages, Placed, InPlace, HeaderMaps, load_header-HeaderMaps,
}

-- Two segments with no page in common.
abbrev pub ApartFrom : ProgramHeader → ProgramHeader → Type 0
ApartFrom h h' =
    (first_page h + pages h ≤ first_page h') ⊎ (first_page h' + pages h' ≤ first_page h)

abbrev pub Apart : List ProgramHeader → Type 0
Apart [] = Unit
Apart (h ∷ hs) = All (ApartFrom h) hs × Apart hs

-- A page that no segment has is not changed.
abbrev pub OutsideAll : List ProgramHeader → ℕ → Type 0
OutsideAll hs j = All (λ h. (j < first_page h) ⊎ (first_page h + pages h ≤ j)) hs

-- The loop over the headers.
abbrev pub AllMap : Source → List ProgramHeader → PageTable → Loaded (Unit {0}) × Loading → Type 0
AllMap source hs table answer =
    answer.0 ≡ loaded tt
    → (length answer.1.table ≡ length table)
      × ((j : ℕ) → OutsideAll hs j → get_or answer.1.table j new ≡ get_or table j new)
      × All (InPlace source answer.1.table) hs

-- A header's bytes stay in place while only pages of others change.
InPlace-kept :
    (source : Source) (h : ProgramHeader) (table table' : PageTable)
    → Placed source h
    → ((j : ℕ)
        → first_page h ≤ j
        → j < first_page h + pages h
        → get_or table' j new ≡ get_or table j new)
    → InPlace source table h
    → InPlace source table' h
unfolding translate page_round_down page_round_up
InPlace-kept source h table table' (fits, low) same holds x is lt =
    let page = (h.va + x) / 2 ^ page_bits in
    let kept : get_or table' page new ≡ get_or table page new =
      same page (omega arith) (omega (arith, fits, lt)) in
    rw kept (holds x is lt)

apart-OutsideAll :
    (h : ProgramHeader) (hs : List ProgramHeader) (j : ℕ)
    → All (ApartFrom h) hs
    → first_page h ≤ j
    → j < first_page h + pages h
    → OutsideAll hs j
apart-OutsideAll h [] j apart lo hi = tt
apart-OutsideAll h (h' ∷ hs) j (inl before, apart) lo hi =
    (inl (omega (arith, before, hi)), apart-OutsideAll h hs j apart lo hi)
apart-OutsideAll h (h' ∷ hs) j (inr after, apart) lo hi =
    (inr (omega (arith, after, lo)), apart-OutsideAll h hs j apart lo hi)

-- What follows a header, when the headers after it map their segments.
next-AllMap :
    (source : Source) (entry : ℕ) (h : ProgramHeader) (hs : List ProgramHeader) (table : PageTable)
    → Placed source h
    → All (ApartFrom h) hs
    → length table ≡ table_length
    → ((s : Loading)
        → length s.table ≡ table_length
        → OnReturn (AllMap source hs s.table) (load_headers source entry hs s))
    → (answer : Loaded (Unit {0}) × Loading) → HeaderMaps source h table answer
    → OnReturn (AllMap source (h ∷ hs) table) (elim answer.0 [
      | failed e ↦ returns (failed e, answer.1)
      | loaded _ ↦ load_headers source entry hs answer.1
    ])
next-AllMap source entry h hs table placed apart whole rest (failed e, s) maps = λ f. absurd (cc)
next-AllMap source entry h hs table placed apart whole rest (loaded tt, s) maps =
    let (len, out, here) = maps refl in
    OnReturn-map (load_headers source entry hs s) (rest s (len ∙ whole)) (λ final all e.
      let (len', out', others) = all e in
      (
        len' ∙ len,
        λ j away. out' j away.1 ∙ out j away.0,
        (
          InPlace-kept source h s.table final.1.table placed
              (λ j lo hi. out' j (apart-OutsideAll h hs j apart lo hi)) here,
          others,
        ),
      ))

-- When the loop over the program headers ends without an error, each byte of each segment stands at its
-- virtual address, with the permissions of its flags, and no page but the segments' has changed: for
-- headers that lie in the address space and share no page, in a file that starts on a page.
pub load_headers-AllMap :
    (source : Source) (entry : ℕ) (hs : List ProgramHeader) (s : Loading)
    → KeepsPa source.with_pa
    → source.elf_pa % 2 ^ page_bits ≡ 0
    → length s.table ≡ table_length
    → All (Placed source) hs
    → Apart hs
    → OnReturn (AllMap source hs s.table) (load_headers source entry hs s)
unfolding load_headers
load_headers-AllMap source entry [] s keeps start whole placed apart =
    λ e. (refl, λ j away. refl, tt)
load_headers-AllMap source entry (h ∷ hs) s keeps start whole (placed, rest) (apart, aparts) =
    OnReturn->>= (HeaderMaps source h s.table) (AllMap source (h ∷ hs) s.table)
      (load_header source entry h s) _
      (load_header-HeaderMaps source entry h s keeps whole start placed)
      (λ answer _ maps.
        next-AllMap source entry h hs s.table placed apart whole
          (λ s' whole'. load_headers-AllMap source entry hs s' keeps start whole' rest aparts)
          answer maps)
