-- ===== src/Session/Memory/Overlap.antt =====
-- `MemoryInterval::overlaps` against the bytes that the intervals cover, and mapped intervals.
use pipewire_native_rs.Prelude.{
  ℕ, ◌+◌, ◌≤◌, ◌<◌, max, ◌≡◌, ◌↔◌, inl, inr, refl, Bool, true, ok, arith, Result-cases,
}
use pipewire_native_rs.Prelude.Words.{isize_max}
use pipewire_native_rs.Session.Shm.{Kernel, ShrinkPolicy, map_shared_with_policy}
use pipewire_native_rs.Session.Shm.Bounds.{map-IsMapped, IsMapped}
use pipewire_native_rs.Session.Memory.{
  MemoryInterval, MemoryEntry, MemoryMapping, overlaps, region_valid, map_entry, interval,
}

-- Byte `x` of the backing object lies in the interval.
pub record Covers (a : MemoryInterval) (x : ℕ) : Type 0 where
  pub from : a.start ≤ x
  pub to : x < a.end

-- Two intervals that are not empty overlap exactly when they have a backing object and a byte of
-- it in common.
pub overlaps_iff :
    (a b : MemoryInterval)
    → a.start < a.end
    → b.start < b.end
    → (overlaps a b ≡ true) ↔ ((a.backing ≡ b.backing) × ((x : ℕ) × Covers a x × Covers b x))
unfolding overlaps
overlaps_iff a b p q = (
  λ e. (ground arith, (max a.start b.start, ground arith, ground arith)),
  λ (same, (x, c, d)). ground arith,
)

pub overlaps_comm : (a b : MemoryInterval) → overlaps a b ≡ overlaps b a
unfolding overlaps
overlaps_comm a b = ground arith

-- A mapping that succeeds covers exactly the bytes asked for, which are some, and lie in the file
-- both as it was measured at the import and as it is measured now: its interval says so, and
-- `mmap` was asked for the entry's file from a page boundary less than a page before the first of
-- them up to the last, and the region starts at the first.
pub map_entry-interval :
    (k : Kernel) (entry : MemoryEntry) (policy : ShrinkPolicy) (offset len : ℕ) (writable : Bool)
    {m : MemoryMapping}
    → map_entry k entry policy offset len writable ≡ ok m
    → (m.entry ≡ entry)
      × (interval m ≡ record { backing = entry.backing; start = offset; end = offset + len })
      × (0 < len)
      × (len ≤ isize_max)
      × (offset + len ≤ entry.file_len)
      × IsMapped k entry.fd offset len writable m.mapped
unfolding map_entry region_valid interval
map_entry-interval k entry policy offset len writable {m} e =
    elim (Result-cases (map_shared_with_policy k entry.fd offset len writable policy)) [
      | inr (x, f) ↦ absurd (ground arith)
      | inl (region, f) ↦
          let mapped = (map-IsMapped k entry.fd offset len writable policy region f).0 in
          let same : m ≡ record { mapped = region; entry = entry; offset = offset } =
            ground arith in
          rw same (
            refl,
            λ i. record {
              backing = entry.backing;
              start = offset;
              end = offset + mapped.len_exact i;
            },
            mapped.not_empty,
            ground arith,
            ground arith,
            mapped,
          )
    ]
