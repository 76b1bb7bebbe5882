-- ===== src/Frame/Header.antt =====
-- protocol/src/native/frame/header.rs: the sixteen bytes before each payload.
pub mod RoundTrip
use Prim.Native.Nat.{bit_and}
use pipewire_native_rs.Prelude.{
  ℕ, ◌+◌, ◌*◌, ◌/◌, ◌%◌, ◌^◌, ◌≤◌, ◌<◌, List, [], ◌∷◌, ◌++◌, Result, ok, err, ltb, if◌then◌else◌,
  slice,
}
use pipewire_native_rs.Frame.Limits.{FrameError, payload_too_large, wire_max_payload}

-- `u32::from_ne_bytes` of a four-byte slice, on the little-endian target.
unfoldable pub u32_from_ne_bytes : List ℕ → ℕ
u32_from_ne_bytes (a ∷ b ∷ c ∷ d ∷ []) = a + b * 2 ^ 8 + c * 2 ^ 16 + d * 2 ^ 24
u32_from_ne_bytes _ = 0

-- `u32::to_ne_bytes`
unfoldable pub u32_to_ne_bytes : ℕ → List ℕ
u32_to_ne_bytes x = x % 2 ^ 8 ∷ x / 2 ^ 8 % 2 ^ 8 ∷ x / 2 ^ 16 % 2 ^ 8 ∷ x / 2 ^ 24 % 2 ^ 8 ∷ []

pub record Header : Type 0 where
  pub object_id : ℕ
  pub opcode : ℕ
  pub payload_len : ℕ
  pub seq : ℕ
  pub n_fds : ℕ

-- `opcode_size & WIRE_MAX_PAYLOAD as u32` keeps the low 24 bits.
unfoldable pub decode : List ℕ → Header
decode bytes =
    let opcode_size = u32_from_ne_bytes (slice 4 8 bytes) in
    record {
      object_id = u32_from_ne_bytes (slice 0 4 bytes);
      opcode = opcode_size / 2 ^ 24 % 2 ^ 8;
      payload_len = opcode_size % 2 ^ 24;
      seq = u32_from_ne_bytes (slice 8 12 bytes);
      n_fds = u32_from_ne_bytes (slice 12 16 bytes);
    }

-- The two parts of `(opcode << 24) | payload_len` share no bit, since the guard keeps
-- `payload_len` below 2 ^ 24: the disjunction is their sum.
unfoldable pub encode : Header → Result FrameError (List ℕ)
encode h =
    if ltb wire_max_payload h.payload_len
    then err (payload_too_large h.payload_len wire_max_payload)
    else ok (
        u32_to_ne_bytes h.object_id
        ++ u32_to_ne_bytes (h.opcode * 2 ^ 24 + h.payload_len)
        ++ u32_to_ne_bytes h.seq
        ++ u32_to_ne_bytes h.n_fds)

-- The ranges of the fields' Rust types.
pub record IsHeader (h : Header) : Type 0 where
  pub object_id_u32 : h.object_id < 2 ^ 32
  pub opcode_u8 : h.opcode < 2 ^ 8
  pub payload_len_u32 : h.payload_len < 2 ^ 32
  pub seq_u32 : h.seq < 2 ^ 32
  pub n_fds_u32 : h.n_fds < 2 ^ 32
