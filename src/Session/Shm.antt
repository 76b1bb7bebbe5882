-- ===== src/Session/Shm.antt =====
-- node/src/shm/memfd.rs: checked shared mappings. The system calls are a parameter, `Kernel`.
pub mod Bounds
use pipewire_native_rs.Prelude.{
  ℕ, ◌+◌, ◌-◌, ◌*◌, ◌/◌, ◌%◌, ◌≡◌, Bool, true, false, not, ◌&&◌, Option, Result, ok, err, ◌>>=◌,
  ◌>>◌, reject, ok_or, map_err, ltb, ◌==◌, if◌then◌else◌,
}
use pipewire_native_rs.Prelude.Words.{checked_add, isize_max}
use pipewire_native_rs.Prelude.Int.{ℤ, pos, negsuc}

-- `Available` holds the bits of a seal mask.
pub data SealStatus : Type 0 where
  available : ℕ → SealStatus
  unsupported : SealStatus

-- `F_SEAL_SHRINK` is bit 1.
unfoldable pub prevents_shrink : SealStatus → Bool
prevents_shrink (available seals) = seals / 2 % 2 == 1
prevents_shrink unsupported = false

pub data ShrinkPolicy : Type 0 where
  allow require_sealed : ShrinkPolicy

abbrev pub requires_seal : ShrinkPolicy → Bool
requires_seal allow = false
requires_seal require_sealed = true

pub record FileStat : Type 0 where
  pub size : ℤ
  pub device : ℕ
  pub inode : ℕ

-- `fstat`, `fcntl(F_GET_SEALS)`, `sysconf(_SC_PAGESIZE)` and `mmap` (descriptor, length, offset,
-- writable) of the process, with error numbers.
pub record Kernel : Type 0 where
  pub fstat : ℕ → Result ℕ FileStat
  pub get_seals : ℕ → ℤ
  pub page_size : ℤ
  pub mmap : ℕ → ℕ → ℕ → Bool → Result ℕ ℕ

pub data MapError : Type 0 where
  empty_length length_overflow too_large_for_slice bad_file_size beyond_file unsealed : MapError
  no_page_size zero_page_size mapping_overflow mapping_too_large offset_too_large : MapError
  null_mapping : MapError
  os : ℕ → MapError

pub record MappedRegion : Type 0 where
  pub mapping_ptr : ℕ
  pub mapping_len : ℕ
  pub ptr : ℕ
  pub len : ℕ
  pub seal_status : SealStatus

-- `usize::try_from` of a signed value
abbrev pub unsigned {ℓ} : {E : Type ℓ} → ℤ → E → Result E ℕ
unsigned (pos n) e = ok n
unsigned (negsuc n) e = err e

abbrev seals : ℤ → SealStatus
seals (pos n) = available n
seals (negsuc n) = unsupported

-- `seal_status(fd)`
unfoldable pub seal_status : Kernel → ℕ → SealStatus
seal_status k fd = seals (k.get_seals fd)

-- `MappedRegion::map_shared_with_policy`
unfoldable pub map_shared_with_policy :
    Kernel → ℕ → ℕ → ℕ → Bool → ShrinkPolicy → Result MapError MappedRegion
map_shared_with_policy k fd offset len writable shrink_policy = do
  reject (len == 0) empty_length
  end ← ok_or (checked_add offset len) length_overflow
  reject (ltb isize_max len) too_large_for_slice
  stat ← map_err os (k.fstat fd)
  file_size ← unsigned stat.size bad_file_size
  reject (ltb file_size end) beyond_file
  let status = seal_status k fd
  reject (requires_seal shrink_policy && not (prevents_shrink status)) unsealed
  page ← unsigned k.page_size no_page_size
  reject (page == 0) zero_page_size
  let mapping_offset = offset / page * page
  let logical_offset = offset - mapping_offset
  mapping_len ← ok_or (checked_add logical_offset len) mapping_overflow
  reject (ltb isize_max mapping_len) mapping_too_large
  reject (ltb isize_max mapping_offset) offset_too_large
  mapping_ptr ← map_err os (k.mmap fd mapping_len mapping_offset writable)
  reject (mapping_ptr == 0) null_mapping
  ok (record {
    mapping_ptr = mapping_ptr;
    mapping_len = mapping_len;
    ptr = mapping_ptr + logical_offset;
    len = len;
    seal_status = status;
  })
