-- ===== src/Vm/Tables/Laws.antt =====
-- What an address space translates to after `map_range`.
use rasperry_pi_os.Prelude.{
  ℕ, zero, suc, ◌+◌, ◌-◌, ◌*◌, ◌/◌, ◌%◌, ◌^◌, ◌≤◌, ◌<◌, ◌≡◌, refl, ◌∙◌, ◌⊎◌, inl, inr, true, not,
  arith, ltb, ◌==◌, if◌then◌else◌, ltb→lt, lt→ltb, Bool-cases, Option-cases, length, get_or, set,
  length-set, get_or-set_self, get_or-set_ne, expectation, returns, panics,
}
use rasperry_pi_os.Vm.Tables.{
  page_bits, table_length, normal, device, PageTableEntry, new, valid_base, inner, PageTable,
  Attributes, map_page, map_pages, page_count, map_range,
}

-- The entry of a page of physical memory.
abbrev pub page_entry : ℕ → Attributes → PageTableEntry
page_entry pa attributes = record new {
  valid = true;
  res1 = true;
  memory_type = if attributes.is_device then device else normal;
  el0_accessible = true;
  writeable_never = not attributes.writeable;
  shareability = inner;
  access = true;
  not_global = true;
  pa = pa / 2 ^ 12;
  execute_never = not attributes.executable;
}

-- `with_pa` keeps what fits into the 36 bits of the field.
abbrev pub KeepsPa : (ℕ → ℕ) → Type 0
KeepsPa with_pa = (n : ℕ) → n < 2 ^ 36 → with_pa n ≡ n

map_page_lem :
    (with_pa : ℕ → ℕ) (va pa offset : ℕ) (attributes : Attributes) (table : PageTable)
    → KeepsPa with_pa
    → va + offset < 2 ^ 64
    → pa + offset < 2 ^ 48
    → (va + offset) / 2 ^ page_bits < length table
    → map_page with_pa va pa attributes offset table
      ≡ returns (set table ((va + offset) / 2 ^ page_bits) (page_entry (pa + offset) attributes))
unfolding map_page valid_base
map_page_lem with_pa va pa offset attributes table keeps low small inside =
    let at : (va + offset) % 2 ^ 64 ≡ va + offset = omega (arith, low) in
    let at' : (pa + offset) % 2 ^ 64 ≡ pa + offset = omega (arith, small) in
    rw
      (
        at,
        at',
        lt→ltb (pa + offset) 4503599627370496 (omega (arith, small)),
        keeps ((pa + offset) / 2 ^ 12) (omega (arith, small)),
      )
      (rw (lt→ltb _ _ inside) refl)

-- The entries from a first one on are those of consecutive pages, and the others are as before.
pub record Maps (first count pa : ℕ) (attributes : Attributes) (before after : PageTable)
    : Type 0 where
  pub length_kept : length after ≡ length before
  pub inside :
      (i : ℕ) (d : PageTableEntry)
      → i < count
      → get_or after (first + i) d ≡ page_entry (pa + 2 ^ page_bits * i) attributes
  pub outside :
      (j : ℕ) (d : PageTableEntry)
      → (j < first) ⊎ (first + count ≤ j)
      → get_or after j d ≡ get_or before j d

Maps-suc :
    (first count pa : ℕ) (attributes : Attributes) (before after : PageTable)
    → first < length before
    → Maps
        (first + 1)
        count
        (pa + 2 ^ page_bits)
        attributes
        (set before first (page_entry pa attributes))
        after
    → Maps first (suc count) pa attributes before after
Maps-suc first count pa attributes before after short m = record {
  length_kept = m.length_kept ∙ length-set before first _;
  inside = λ i d lt. elim (Bool-cases (i == 0)) [
    | inl z ↦
        let zero_i : i ≡ 0 = ground arith in
        let at : first + 0 ≡ first = omega arith in
        let still : pa + 2 ^ page_bits * 0 ≡ pa = omega arith in
        rw (zero_i, at, still)
          (m.outside first d (inl (omega arith))
            ∙ get_or-set_self before first (page_entry pa attributes) d short)
    | inr pos ↦
        let one : first + i ≡ first + 1 + (i - 1) = ground arith in
        let next : pa + 2 ^ page_bits * i ≡ pa + 2 ^ page_bits + 2 ^ page_bits * (i - 1) =
          ground arith in
        rw (one, next) (m.inside (i - 1) d (ground (arith, lt, pos)))
  ];
  outside = λ j d away.
      m.outside j d
        (elim away [ inl lt ↦ inl (omega (arith, lt)) | inr ge ↦ inr (omega (arith, ge)) ])
      ∙ get_or-set_ne before first j (page_entry pa attributes) d
          (λ e. elim away [ inl lt ↦ omega (arith, lt, e) | inr ge ↦ omega (arith, ge, e) ]);
}

map_pages-Maps :
    (with_pa : ℕ → ℕ) (va pa : ℕ) (attributes : Attributes) (count offset : ℕ) (table : PageTable)
    → KeepsPa with_pa
    → va % 2 ^ page_bits ≡ 0
    → offset % 2 ^ page_bits ≡ 0
    → (va + offset) / 2 ^ page_bits + count ≤ length table
    → length table ≤ 2 ^ 40
    → pa + offset + 2 ^ page_bits * count ≤ 2 ^ 48
    → (table' : PageTable) × (map_pages with_pa va pa attributes count offset table
        ≡ returns table')
      × Maps ((va + offset) / 2 ^ page_bits) count (pa + offset) attributes table table'
unfolding map_pages
map_pages-Maps with_pa va pa attributes zero offset table keeps aligned aligned' fits small low = (
  table,
  refl,
  record {
    length_kept = refl;
    inside = λ i d lt. absurd (omega (arith, lt));
    outside = λ j d away. refl;
  },
)
map_pages-Maps with_pa va pa attributes (suc count) offset table keeps aligned aligned' fits small
      low =
    let first = (va + offset) / 2 ^ page_bits in
    let entry = page_entry (pa + offset) attributes in
    let mapped =
      map_page_lem with_pa va pa offset attributes table keeps (omega arith) (omega arith)
        (omega arith) in
    let (table', rest, maps) =
      map_pages-Maps with_pa va pa attributes count (offset + 2 ^ page_bits) (set table first entry)
        keeps aligned (omega arith) (omega (arith, length-set table first entry, fits))
        (omega (arith, length-set table first entry)) (omega arith) in
    let next : (va + (offset + 2 ^ page_bits)) / 2 ^ page_bits ≡ first + 1 = omega arith in
    let next' : pa + (offset + 2 ^ page_bits) ≡ pa + offset + 2 ^ page_bits = omega arith in
    (
      table',
      rw mapped rest,
      Maps-suc first count (pa + offset) attributes table table' (omega arith)
          (rw (← next, ← next') maps),
    )

Maps-same :
    (first first' count pa pa' : ℕ) (attributes : Attributes) (before after : PageTable)
    → first ≡ first'
    → pa ≡ pa'
    → Maps first count pa attributes before after
    → Maps first' count pa' attributes before after
Maps-same first first' count pa pa' attributes before after e e' m = rw (← e, ← e') m

-- `map_range` of an aligned address whose pages are all in the table, to physical addresses below
-- 2^48, gives each page in order the entry of its physical page, with the attributes asked for, and
-- leaves all other entries alone. There is one page for each started 64 KiB of the size.
pub map_range-Maps :
    (with_pa : ℕ → ℕ) (va pa size : ℕ) (attributes : Attributes) (table : PageTable)
    → KeepsPa with_pa
    → va % 2 ^ page_bits ≡ 0
    → va / 2 ^ page_bits + page_count size ≤ length table
    → length table ≡ table_length
    → pa + 2 ^ page_bits * page_count size ≤ 2 ^ 48
    → (table' : PageTable) × (map_range with_pa va pa size attributes table ≡ returns table')
      × Maps (va / 2 ^ page_bits) (page_count size) pa attributes table table'
unfolding map_range
map_range-Maps with_pa va pa size attributes table keeps aligned fits small low =
    let at : va + 0 ≡ va = omega arith in
    let at' : pa + 0 ≡ pa = omega arith in
    let mapped =
      map_pages-Maps with_pa va pa attributes (page_count size) 0 table keeps aligned (omega arith)
        (rw at fits) (omega (arith, small)) (rw at' low) in
    (mapped.0, mapped.1, Maps-same _ _ _ _ _ _ _ _ (omega arith) at' mapped.2)

map_pages_beyond :
    (with_pa : ℕ → ℕ) (va pa : ℕ) (attributes : Attributes) (count offset : ℕ) (table : PageTable)
    → va + offset < 2 ^ 64
    → length table < 2 ^ 40
    → length table < (va + offset) / 2 ^ page_bits + suc count
    → map_pages with_pa va pa attributes (suc count) offset table ≡ panics expectation
unfolding map_pages map_page
map_pages_beyond with_pa va pa attributes zero offset table low small far =
    let at : (va + offset) % 2 ^ 64 ≡ va + offset = omega (arith, low) in
    elim (Option-cases (valid_base with_pa ((pa + offset) % 2 ^ 64))) [
      | inl e ↦ rw e refl
      | inr (base, e) ↦ elim (Bool-cases (ltb ((va + offset) / 2 ^ page_bits) (length table))) [
        | inl lt ↦ absurd (omega (arith, ltb→lt _ _ lt, far))
        | inr ge ↦ rw (e, at) (rw ge refl)
      ]
    ]
map_pages_beyond with_pa va pa attributes (suc count) offset table low small far =
    let at : (va + offset) % 2 ^ 64 ≡ va + offset = omega (arith, low) in
    elim (Option-cases (valid_base with_pa ((pa + offset) % 2 ^ 64))) [
      | inl e ↦ rw e refl
      | inr (base, e) ↦ elim (Bool-cases (ltb ((va + offset) / 2 ^ page_bits) (length table))) [
        | inl lt ↦
            rw (e, at)
              (rw lt (
                map_pages_beyond with_pa va pa attributes count (offset + 2 ^ page_bits) _
                  (omega (arith, ltb→lt _ _ lt, small)) (omega (arith, length-set table _ _, small))
                  (omega (arith, length-set table _ _, far))))
        | inr ge ↦ rw (e, at) (rw ge refl)
      ]
    ]

-- `map_range` panics when the range goes on past the last page of the table, at whatever physical
-- address, so that no page outside of the address space is ever mapped.
pub map_range_beyond :
    (with_pa : ℕ → ℕ) (va pa size : ℕ) (attributes : Attributes) (table : PageTable)
    → va < 2 ^ 64
    → 0 < size
    → length table ≡ table_length
    → table_length < va / 2 ^ page_bits + page_count size
    → map_range with_pa va pa size attributes table ≡ panics expectation
unfolding map_range
map_range_beyond with_pa va pa size attributes table low some_size whole far =
    let count : page_count size ≡ suc (page_count size - 1) = omega (arith, some_size) in
    rw count (
      map_pages_beyond with_pa va pa attributes (page_count size - 1) 0 table (omega (arith, low))
        (omega (arith, whole)) (omega (arith, whole, far)))
