-- ===== src/Session/Memory.antt =====
-- node/src/session/memory/mod.rs: memory imported by `Core::AddMem`, by identifier and generation.
-- The live entries are an association list for the hash map; a descriptor is its number.
pub mod Overlap
pub mod Pool
pub mod Laws
pub mod Retired
use pipewire_native_rs.Prelude.{
  ℕ, suc, ◌+◌, ◌≡◌, Bool, true, false, not, ◌&&◌, List, [], ◌∷◌, map, Option, none, some, Result,
  ok, err, ◌>>=◌, ◌>>◌, reject, ok_or, map_err, length, ltb, leb, ◌==◌, if◌then◌else◌,
}
use pipewire_native_rs.Prelude.Words.{checked_add, isize_max}
use pipewire_native_rs.Session.Shm.{
  Kernel, FileStat, MapError, MappedRegion, ShrinkPolicy, requires_seal, prevents_shrink,
  seal_status, unsigned, map_shared_with_policy, os, bad_file_size,
}

-- spa/src/buffer/data_type.rs
pub data DataType : Type 0 where
  invalid mem_ptr mem_fd dma_buf mem_id sync_obj : DataType

-- `DataType::try_from`
unfoldable pub data_type : ℕ → Option DataType
data_type n =
    if n == 0
    then some invalid
    else if n == 1
    then some mem_ptr
    else if n == 2
    then some mem_fd
    else if n == 3
    then some dma_buf
    else if n == 4
    then some mem_id
    else if n == 5
    then some sync_obj
    else none

pub record MemoryKey : Type 0 where
  pub id : ℕ
  pub generation : ℕ

pub record RegionRef : Type 0 where
  pub memory : ℕ
  pub offset : ℕ
  pub len : ℕ

pub record BackingIdentity : Type 0 where
  pub device : ℕ
  pub inode : ℕ

pub data MemoryKind : Type 0 where
  memfd : MemoryKind

pub record MemoryEntry : Type 0 where
  pub key : MemoryKey
  pub backing : BackingIdentity
  pub kind : MemoryKind
  pub flags : ℕ
  pub file_len : ℕ
  pub fd : ℕ

pub record MemoryInterval : Type 0 where
  pub backing : BackingIdentity
  pub start : ℕ
  pub end : ℕ

abbrev pub same_backing : BackingIdentity → BackingIdentity → Bool
same_backing a b = a.device == b.device && a.inode == b.inode

unfoldable pub overlaps : MemoryInterval → MemoryInterval → Bool
overlaps a b = same_backing a.backing b.backing && (ltb a.start b.end && ltb b.start a.end)

pub data MemoryError : Type 0 where
  unknown_memory_type : ℕ → MemoryError
  unsupported_memory_type : DataType → MemoryError
  duplicate_active_id : ℕ → MemoryError
  unknown_memory : ℕ → MemoryError
  stale_generation : MemoryKey → Option MemoryKey → MemoryError
  invalid_region : MemoryKey → ℕ → ℕ → ℕ → MemoryError
  generation_exhausted : MemoryError
  shrinkable_memory : ℕ → MemoryError
  inspect : MapError → MemoryError
  map_failed : MemoryKey → MapError → MemoryError
  disconnected : MemoryError

pub record MemoryPool : Type 0 where
  pub next_generation : ℕ
  pub live : List (ℕ × MemoryEntry)
  pub shrink_policy : ShrinkPolicy
  pub is_disconnected : Bool

pub record MemoryLease : Type 0 where
  pub entry : MemoryEntry
  pub shrink_policy : ShrinkPolicy

pub record MemoryMapping : Type 0 where
  pub mapped : MappedRegion
  pub entry : MemoryEntry
  pub offset : ℕ

-- `HashMap::get` and `HashMap::remove` of the live entries.
unfoldable pub find : ℕ → List (ℕ × MemoryEntry) → Option MemoryEntry
find id [] = none
find id ((i, entry) ∷ live) = if i == id then some entry else find id live

unfoldable pub erase : ℕ → List (ℕ × MemoryEntry) → List (ℕ × MemoryEntry)
erase id [] = []
erase id ((i, entry) ∷ live) = if i == id then live else (i, entry) ∷ erase id live

abbrev pub new_pool : ShrinkPolicy → MemoryPool
new_pool policy = record {
  next_generation = 1;
  live = [];
  shrink_policy = policy;
  is_disconnected = false;
}

-- `file_identity(fd)`
unfoldable pub file_identity : Kernel → ℕ → Result MapError (ℕ × BackingIdentity)
file_identity k fd = do
  stat ← map_err os (k.fstat fd)
  len ← unsigned stat.size bad_file_size
  ok (len, record { device = stat.device; inode = stat.inode })

-- The `match` on the memory type in `MemoryPool::add`.
unfoldable pub memory_kind : ℕ → Result MemoryError MemoryKind
memory_kind memory_type = elim (data_type memory_type) [
  | none ↦ err (unknown_memory_type memory_type)
  | some mem_fd ↦ ok memfd
  | some other ↦ err (unsupported_memory_type other)
]

-- `MemoryPool::add` up to its first change: the entry to insert and the next generation.
unfoldable pub import : Kernel → MemoryPool → ℕ → ℕ → ℕ → ℕ → Result MemoryError (MemoryEntry × ℕ)
import k pool id memory_type flags fd = do
  reject pool.is_disconnected disconnected
  elim (find id pool.live) as (λ _. Result MemoryError (Unit {0})) [
    | some _ ↦ err (duplicate_active_id id)
    | none ↦ ok tt
  ]
  kind ← memory_kind memory_type
  (file_len, backing) ← map_err inspect (file_identity k fd)
  reject (requires_seal pool.shrink_policy && not (prevents_shrink (seal_status k fd)))
      (shrinkable_memory id)
  next ← ok_or (checked_add pool.next_generation 1) generation_exhausted
  ok (
    record {
      key = record { id = id; generation = pool.next_generation };
      backing = backing;
      kind = kind;
      flags = flags;
      file_len = file_len;
      fd = fd;
    },
    next,
  )

-- `MemoryPool::add`
unfoldable pub add : Kernel → MemoryPool → ℕ → ℕ → ℕ → ℕ → MemoryPool × Result MemoryError MemoryKey
add k pool id memory_type flags fd = elim (import k pool id memory_type flags fd) [
  | err e ↦ (pool, err e)
  | ok (entry, next) ↦
      (record pool { next_generation = next; live = (id, entry) ∷ pool.live }, ok entry.key)
]

unfoldable pub resolve : MemoryPool → ℕ → Result MemoryError MemoryKey
resolve pool id = do
  reject pool.is_disconnected disconnected
  entry ← ok_or (find id pool.live) (unknown_memory id)
  ok entry.key

abbrev pub same_key : MemoryKey → MemoryKey → Bool
same_key a b = a.id == b.id && a.generation == b.generation

-- The tests that `map` and `lease` share: the entry that is live under exactly this key.
unfoldable pub exact : MemoryPool → MemoryKey → Result MemoryError MemoryEntry
exact pool key = do
  reject pool.is_disconnected disconnected
  entry ← ok_or (find key.id pool.live) (stale_generation key none)
  reject (not (same_key entry.key key)) (stale_generation key (some entry.key))
  ok entry

-- The test `valid` of `map_entry`.
unfoldable pub region_valid : MemoryEntry → ℕ → ℕ → Bool
region_valid entry offset len =
    ltb 0 len
    && (leb len isize_max
        && (elim (checked_add offset len) [ none ↦ false | some end ↦ leb end entry.file_len ]))

unfoldable pub map_entry :
    Kernel → MemoryEntry → ShrinkPolicy → ℕ → ℕ → Bool → Result MemoryError MemoryMapping
map_entry k entry policy offset len writable = do
  reject (not (region_valid entry offset len)) (invalid_region entry.key offset len entry.file_len)
  mapped ←
      map_err (map_failed entry.key) (map_shared_with_policy k entry.fd offset len writable policy)
  ok (record { mapped = mapped; entry = entry; offset = offset })

-- `MemoryPool::map`
unfoldable pub map_region :
    Kernel → MemoryPool → MemoryKey → ℕ → ℕ → Bool → Result MemoryError MemoryMapping
map_region k pool key offset len writable = do
  entry ← exact pool key
  map_entry k entry pool.shrink_policy offset len writable

-- `MemoryPool::bind`
unfoldable pub bind : Kernel → MemoryPool → RegionRef → Bool → Result MemoryError MemoryMapping
bind k pool region writable = do
  key ← resolve pool region.memory
  map_region k pool key region.offset region.len writable

unfoldable pub lease : MemoryPool → MemoryKey → Result MemoryError MemoryLease
lease pool key = do
  entry ← exact pool key
  ok (record { entry = entry; shrink_policy = pool.shrink_policy })

-- `MemoryLease::map`
unfoldable pub map_lease : Kernel → MemoryLease → ℕ → ℕ → Bool → Result MemoryError MemoryMapping
map_lease k l offset len writable = map_entry k l.entry l.shrink_policy offset len writable

unfoldable pub remove : MemoryPool → ℕ → MemoryPool × Result MemoryError MemoryKey
remove pool id =
    if pool.is_disconnected then (pool, err disconnected) else elim (find id pool.live) [
      | none ↦ (pool, err (unknown_memory id))
      | some entry ↦ (record pool { live = erase id pool.live }, ok entry.key)
    ]

unfoldable pub clear : MemoryPool → MemoryPool
clear pool = record pool { live = [] }

unfoldable pub disconnect : MemoryPool → MemoryPool
disconnect pool = record pool { live = []; is_disconnected = true }

unfoldable pub active_keys : MemoryPool → List MemoryKey
active_keys pool = map (λ slot. slot.1.key) pool.live

-- `MemoryMapping::interval`
unfoldable pub interval : MemoryMapping → MemoryInterval
interval m = record { backing = m.entry.backing; start = m.offset; end = m.offset + m.mapped.len }
