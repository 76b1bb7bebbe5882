-- ===== src/Frame/Control.antt =====
-- protocol/src/native/frame/recv.rs: the parser of ancillary data, with the layout of `cmsghdr` on
-- the target: a length of 8 bytes, a level and a type of 4 each. A read outside the buffer, which
-- would be undefined in the source, is a result of its own.
pub mod Safety
pub mod Message
use pipewire_native_rs.Prelude.{
  ℕ, zero, suc, ◌+◌, ◌-◌, ◌*◌, ◌/◌, ◌%◌, ◌^◌, ◌≡◌, min, Bool, true, false, not, ◌&&◌, ◌||◌, List,
  [], ◌∷◌, ◌++◌, Option, none, some, slice, length, ltb, leb, ◌==◌, if◌then◌else◌,
}
use pipewire_native_rs.Prelude.Words.{checked_add}
use pipewire_native_rs.Frame.Header.{u32_from_ne_bytes}

-- How `parse_control` ends, with the descriptors that it had adopted: it returns them, or it drops
-- and so closes them and returns an error.
pub data Parsed : Type 0 where
  rights malformed_control truncated_control : List ℕ → Parsed
  out_of_bounds starved : Parsed

pub record ControlHeader : Type 0 where
  pub cmsg_len : ℕ
  pub cmsg_level : ℕ
  pub cmsg_type : ℕ

-- `read_unaligned` of a header and of a descriptor.
unfoldable pub read_header : List ℕ → ℕ → Option ControlHeader
read_header control offset =
    if leb (offset + 16) (length control)
    then some (record {
      cmsg_len =
          u32_from_ne_bytes (slice offset (offset + 4) control)
          + u32_from_ne_bytes (slice (offset + 4) (offset + 8) control) * 2 ^ 32;
      cmsg_level = u32_from_ne_bytes (slice (offset + 8) (offset + 12) control);
      cmsg_type = u32_from_ne_bytes (slice (offset + 12) (offset + 16) control);
    })
    else none

unfoldable pub read_fd : List ℕ → ℕ → Option ℕ
read_fd control at =
    if leb (at + 4) (length control)
    then some (u32_from_ne_bytes (slice at (at + 4) control))
    else none

-- `cmsg_align`
unfoldable pub cmsg_align : ℕ → Option ℕ
cmsg_align value = elim (checked_add value 7) [ none ↦ none | some v ↦ some (v / 8 * 8) ]

-- How the loop over the slots of a record ends.
pub data Adopted : Type 0 where
  adopted negative : List ℕ → Adopted
  outside : Adopted

-- The loop over `n` slots from `at` on; `fd < 0` is a first bit that is set.
unfoldable pub adopt_slots : List ℕ → ℕ → ℕ → List ℕ → Adopted
adopt_slots control at zero owned = adopted owned
adopt_slots control at (suc n) owned = elim (read_fd control at) [
  | none ↦ outside
  | some fd ↦
      let rest = adopt_slots control (at + 4) n (owned ++ (fd ∷ [])) in
      if leb (2 ^ 31) fd then negative owned else rest
]

-- The bytes of a record's data that its length and the buffer both reach.
unfoldable pub data_len : List ℕ → ℕ → ControlHeader → ℕ
data_len control offset header =
    let declared_end = checked_add offset header.cmsg_len in
    let data_end =
      min (elim declared_end [ none ↦ length control | some end ↦ end ]) (length control) in
    elim (checked_add offset 16) [
      | none ↦ 0
      | some start ↦ if leb start data_end then data_end - start else 0
    ]

-- SOL_SOCKET and SCM_RIGHTS
abbrev pub is_rights : ControlHeader → Bool
is_rights header = header.cmsg_level == 1 && header.cmsg_type == 1

-- The descriptors of one record, after those of the records before.
unfoldable pub adopt : List ℕ → ℕ → ControlHeader → List ℕ → Adopted
adopt control offset header owned =
    if is_rights header
    then adopt_slots control (offset + 16) (data_len control offset header / 4) owned
    else adopted owned

-- `next`, unless it cannot be computed or does not lie ahead.
unfoldable pub next_offset : ℕ → ℕ → Option ℕ
next_offset offset len = elim (cmsg_align len) [
  | none ↦ none
  | some l ↦ elim (checked_add offset l) [
    | none ↦ none
    | some next ↦ if leb next offset then none else some next
  ]
]

-- The tests after the descriptors of a record were adopted: where the next record is.
unfoldable pub after_record : List ℕ → ℕ → ControlHeader → Option ℕ
after_record control offset header =
    if is_rights header && not (data_len control offset header % 4 == 0)
    then none
    else if ltb header.cmsg_len 16 || ltb (length control - offset) header.cmsg_len
    then none
    else next_offset offset header.cmsg_len

-- What a round of the loop leads to: the return, or the next record.
pub data RecordStep : Type 0 where
  ends : Parsed → RecordStep
  goes : ℕ → List ℕ → RecordStep

-- What follows the adoption of a record's descriptors.
abbrev pub settle_record : List ℕ → ℕ → ControlHeader → Adopted → RecordStep
settle_record control offset header outside = ends out_of_bounds
settle_record control offset header (negative owned) = ends (malformed_control owned)
settle_record control offset header (adopted owned) = elim (after_record control offset header) [
  | none ↦ ends (malformed_control owned)
  | some next ↦ goes next owned
]

-- A round of the loop of `parse_control`; MSG_CTRUNC is bit 3.
unfoldable pub parse_record : List ℕ → ℕ → ℕ → List ℕ → RecordStep
parse_record control flags offset owned =
    if leb (length control) offset
    then ends (if flags / 8 % 2 == 1 then truncated_control owned else rights owned)
    else if ltb (length control - offset) 16
    then ends (malformed_control owned)
    else elim (read_header control offset) [
      | none ↦ ends out_of_bounds
      | some header ↦ settle_record control offset header (adopt control offset header owned)
    ]

unfoldable pub parse_loop : List ℕ → ℕ → ℕ → ℕ → List ℕ → Parsed
parse_loop control flags zero offset owned = starved
parse_loop control flags (suc fuel) offset owned = elim (parse_record control flags offset owned) [
  | ends r ↦ r
  | goes next owned' ↦ parse_loop control flags fuel next owned'
]

-- `parse_control`; every round of the loop moves ahead.
unfoldable pub parse_control : List ℕ → ℕ → Parsed
parse_control control flags = parse_loop control flags (suc (length control)) 0 []
