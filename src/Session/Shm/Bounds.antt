-- ===== src/Session/Shm/Bounds.antt =====
-- What a checked mapping guarantees.
use pipewire_native_rs.Prelude.{
  ℕ, ◌+◌, ◌-◌, ◌*◌, ◌/◌, ◌≤◌, ◌<◌, ◌≡◌, ◌≢◌, ◌⊎◌, ◌%◌, refl, Bool, false, not, ◌&&◌, ok, inl, inr,
  Result-cases, arith,
}
use native.Mathlib.Nat.{div-add-mod, mod-lt, mul-mod_left}
use pipewire_native_rs.Prelude.Words.{isize_max}
use pipewire_native_rs.Prelude.Int.{pos, ℤ-cases}
use pipewire_native_rs.Session.Shm.{
  Kernel, FileStat, MappedRegion, ShrinkPolicy, allow, require_sealed, requires_seal,
  prevents_shrink, seal_status, map_shared_with_policy,
}

-- A region that was mapped: what the kernel was asked for, in whole pages from `mapping_offset` on,
-- and where in it the bytes asked for are.
pub record IsMapped (k : Kernel) (fd offset len : ℕ) (writable : Bool) (region : MappedRegion)
    : Type 0 where
  pub page : ℕ
  pub file_size : ℕ
  pub mapping_offset : ℕ
  pub stat : FileStat
  pub page_known : k.page_size ≡ pos page
  pub page_pos : 0 < page
  pub stat_known : k.fstat fd ≡ ok stat
  pub size_known : stat.size ≡ pos file_size
  pub len_exact : region.len ≡ len
  pub not_empty : 0 < len
  pub in_file : offset + len ≤ file_size
  pub not_null : region.mapping_ptr ≢ 0
  pub asked : k.mmap fd region.mapping_len mapping_offset writable ≡ ok region.mapping_ptr
  pub page_aligned : mapping_offset % page ≡ 0
  pub same_start : mapping_offset + (region.ptr - region.mapping_ptr) ≡ offset
  pub same_stop : mapping_offset + region.mapping_len ≡ offset + len
  pub slice_size : region.mapping_len ≤ isize_max
  pub same_end : region.ptr + len ≡ region.mapping_ptr + region.mapping_len
  pub less_than_page : region.ptr < region.mapping_ptr + page
  pub ptr_in : region.mapping_ptr ≤ region.ptr

-- The file carries a seal against shrinking, in the mask that the kernel reported.
pub IsSealed : Kernel → ℕ → Type 0
IsSealed k fd = (mask : ℕ) × (k.get_seals fd ≡ pos mask) × (mask / 2 % 2 ≡ 1)

policy-IsSealed :
    (k : Kernel) (fd : ℕ) (policy : ShrinkPolicy)
    → requires_seal policy && not (prevents_shrink (seal_status k fd)) ≡ false
    → (policy ≡ allow) ⊎ IsSealed k fd
unfolding IsSealed prevents_shrink seal_status
policy-IsSealed k fd allow e = inl refl
policy-IsSealed k fd require_sealed e = elim (ℤ-cases (k.get_seals fd)) [
  | inl (mask, f) ↦ inr (mask, f, ground arith)
  | inr (mask, f) ↦ absurd (ground arith)
]

-- The page arithmetic: the start is rounded down to a page.
page_split :
    (offset page : ℕ)
    → 0 < page
    → (offset / page * page ≤ offset) × (offset - offset / page * page < page)
page_split offset page h =
    let d = div-add-mod offset page in
    let m = mod-lt offset h in (omega (arith, d), omega (arith, d, m))

module _ (k : Kernel) (fd offset len : ℕ) (writable : Bool) (policy : ShrinkPolicy)
    (region : MappedRegion)
    (e : map_shared_with_policy k fd offset len writable policy ≡ ok region) where
  stat_of : (stat : FileStat) × (k.fstat fd ≡ ok stat)
  unfolding map_shared_with_policy
  stat_of = elim (Result-cases (k.fstat fd)) [ inl s ↦ s | inr (x, f) ↦ absurd (ground arith) ]

  size_of : (n : ℕ) × (stat_of.0.size ≡ pos n)
  unfolding map_shared_with_policy
  size_of = elim (ℤ-cases stat_of.0.size) [
    | inl s ↦ s
    | inr (x, f) ↦ absurd (ground (arith, stat_of.1))
  ]

  page_of : (n : ℕ) × (k.page_size ≡ pos n)
  unfolding map_shared_with_policy
  page_of = elim (ℤ-cases k.page_size) [
    | inl s ↦ s
    | inr (x, f) ↦ absurd (ground (arith, stat_of.1, size_of.1))
  ]

  mmap_of :
      (addr : ℕ) × (k.mmap fd
          (offset - offset / page_of.0 * page_of.0 + len)
          (offset / page_of.0 * page_of.0)
          writable
        ≡ ok addr)
  unfolding map_shared_with_policy
  mmap_of =
      elim (Result-cases (
        k.mmap fd (offset - offset / page_of.0 * page_of.0 + len) (offset / page_of.0 * page_of.0)
          writable)) [
            | inl s ↦ s
            | inr (x, f) ↦ absurd (ground (arith, stat_of.1, size_of.1, page_of.1))
          ]

  facts :
      (len ≢ 0)
      × (page_of.0 ≢ 0)
      × (offset + len ≤ size_of.0)
      × (mmap_of.0 ≢ 0)
      × (offset - offset / page_of.0 * page_of.0 + len ≤ isize_max)
      × (requires_seal policy && not (prevents_shrink (seal_status k fd)) ≡ false)
  unfolding map_shared_with_policy
  facts = ground (arith, stat_of.1, size_of.1, page_of.1, mmap_of.1)

  region_of : region ≡ record {
    mapping_ptr = mmap_of.0;
    mapping_len = offset - offset / page_of.0 * page_of.0 + len;
    ptr = mmap_of.0 + (offset - offset / page_of.0 * page_of.0);
    len = len;
    seal_status = seal_status k fd;
  }
  unfolding map_shared_with_policy
  region_of = ground (arith, stat_of.1, size_of.1, page_of.1, mmap_of.1)

  -- A successful mapping is not empty and lies in the file as `fstat` measured it. `mmap` was
  -- asked for it from a page boundary on, less than a page before the first byte asked for, up to
  -- the end of the last one, and the region starts in the mapped pages where the first byte asked
  -- for is and ends where they end. It keeps the seals that were read, and where the policy asks
  -- for it the kernel reported the seal against shrinking.
  pub map-IsMapped :
      IsMapped k fd offset len writable region
      × (region.seal_status ≡ seal_status k fd)
      × ((policy ≡ allow) ⊎ IsSealed k fd)
  map-IsMapped =
      let page : 0 < page_of.0 = omega (arith, facts) in
      let split = page_split offset page_of.0 page in
      rw region_of (
        record {
          page = page_of.0;
          file_size = size_of.0;
          mapping_offset = offset / page_of.0 * page_of.0;
          stat = stat_of.0;
          page_known = page_of.1;
          page_pos = page;
          stat_known = stat_of.1;
          size_known = size_of.1;
          len_exact = refl;
          not_empty = omega (arith, facts);
          in_file = facts.2;
          not_null = facts.3;
          asked = mmap_of.1;
          page_aligned = mul-mod_left (offset / page_of.0) page_of.0;
          same_start = omega (arith, split);
          same_stop = omega (arith, split);
          slice_size = facts.4;
          same_end = omega arith;
          less_than_page = omega (arith, split);
          ptr_in = omega arith;
        },
        refl,
        policy-IsSealed k fd policy facts.5,
      )
