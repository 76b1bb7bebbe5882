-- ===== src/Frame/Header/RoundTrip.antt =====
-- `Header::encode` and `Header::decode` undo one another.
use pipewire_native_rs.Prelude.{
  ℕ, ◌+◌, ◌*◌, ◌/◌, ◌%◌, ◌^◌, ◌≤◌, ◌<◌, ◌≡◌, ap, ◌∙◌, List, [], ◌∷◌, ◌++◌, ok, err, arith, length,
  All, take, drop, slice, All-take, All-drop, take-add, take_all, length-take, length-drop,
}
use pipewire_native_rs.Frame.Limits.{payload_too_large, wire_max_payload, header_len}
use pipewire_native_rs.Frame.Header.{
  Header, IsHeader, decode, encode, u32_from_ne_bytes, u32_to_ne_bytes,
}

pub from-to : (x : ℕ) → x < 2 ^ 32 → u32_from_ne_bytes (u32_to_ne_bytes x) ≡ x
unfolding u32_from_ne_bytes u32_to_ne_bytes
from-to x h = omega arith

to-from :
    (s : List ℕ) → length s ≡ 4 → All (λ b. b < 256) s → u32_to_ne_bytes (u32_from_ne_bytes s) ≡ s
unfolding u32_from_ne_bytes u32_to_ne_bytes
to-from [] l v = absurd (omega arith)
to-from (a ∷ []) l v = absurd (omega arith)
to-from (a ∷ b ∷ []) l v = absurd (omega arith)
to-from (a ∷ b ∷ c ∷ []) l v = absurd (omega arith)
to-from (a ∷ b ∷ c ∷ d ∷ []) l v = ground arith
to-from (a ∷ b ∷ c ∷ d ∷ e ∷ s) l v = absurd (omega arith)

from-lt : (s : List ℕ) → All (λ b. b < 256) s → u32_from_ne_bytes s < 2 ^ 32
unfolding u32_from_ne_bytes
from-lt [] v = omega arith
from-lt (a ∷ []) v = omega arith
from-lt (a ∷ b ∷ []) v = omega arith
from-lt (a ∷ b ∷ c ∷ []) v = omega arith
from-lt (a ∷ b ∷ c ∷ d ∷ []) v = omega arith
from-lt (a ∷ b ∷ c ∷ d ∷ e ∷ s) v = omega arith

pub to-bytes : (x : ℕ) → (length (u32_to_ne_bytes x) ≡ 4) × All (λ b. b < 256) (u32_to_ne_bytes x)
unfolding u32_to_ne_bytes
to-bytes x = omega arith

-- What `encode` returns when its guard lets the header through.
pub encoded : Header → List ℕ
encoded h =
    u32_to_ne_bytes h.object_id
    ++ u32_to_ne_bytes (h.opcode * 2 ^ 24 + h.payload_len)
    ++ u32_to_ne_bytes h.seq
    ++ u32_to_ne_bytes h.n_fds

pub encode-cases :
    (h : Header) {bytes : List ℕ}
    → encode h ≡ ok bytes
    → (h.payload_len ≤ wire_max_payload) × (encoded h ≡ bytes)
unfolding encode encoded
encode-cases h e = ground arith

decode-encoded :
    (h : Header) → IsHeader h → h.payload_len ≤ wire_max_payload → decode (encoded h) ≡ h
unfolding decode encoded u32_to_ne_bytes
decode-encoded h v l = λ i. record {
  object_id = from-to h.object_id v.object_id_u32 i;
  opcode = opcode_part i;
  payload_len = payload_part i;
  seq = from-to h.seq v.seq_u32 i;
  n_fds = from-to h.n_fds v.n_fds_u32 i;
}
  where
    packed :
        u32_from_ne_bytes (u32_to_ne_bytes (h.opcode * 2 ^ 24 + h.payload_len))
        ≡ h.opcode * 2 ^ 24 + h.payload_len
    packed = from-to (h.opcode * 2 ^ 24 + h.payload_len) (omega (arith, v.opcode_u8))

    opcode_part :
        u32_from_ne_bytes (u32_to_ne_bytes (h.opcode * 2 ^ 24 + h.payload_len)) / 2 ^ 24 % 2 ^ 8
        ≡ h.opcode
    opcode_part = rw packed (omega (arith, v.opcode_u8))

    payload_part :
        u32_from_ne_bytes (u32_to_ne_bytes (h.opcode * 2 ^ 24 + h.payload_len)) % 2 ^ 24
        ≡ h.payload_len
    payload_part = rw packed (omega (arith, v.opcode_u8))

encoded-bytes : (h : Header) → (length (encoded h) ≡ 16) × All (λ b. b < 256) (encoded h)
unfolding encoded u32_to_ne_bytes
encoded-bytes h = omega arith

-- A header whose payload fits 24 bits and whose fields have their types' ranges is encoded into
-- sixteen bytes, each below 256, from which `decode` gives the header back.
pub decode-encode :
    (h : Header) {bytes : List ℕ}
    → IsHeader h
    → encode h ≡ ok bytes
    → (decode bytes ≡ h) × (length bytes ≡ header_len) × All (λ b. b < 256) bytes
decode-encode h v e =
    let c = encode-cases h e in
    rw (← c.1) (decode-encoded h v c.0, (encoded-bytes h).0, (encoded-bytes h).1)

encode-of_le : (h : Header) → h.payload_len ≤ wire_max_payload → encode h ≡ ok (encoded h)
unfolding encode encoded
encode-of_le h l = ground arith

pub payload-le : (bytes : List ℕ) → (decode bytes).payload_len ≤ wire_max_payload
unfolding decode
payload-le bytes = omega arith

slices :
    (bytes : List ℕ)
    → length bytes ≡ 16
    → slice 0 4 bytes ++ slice 4 8 bytes ++ slice 8 12 bytes ++ slice 12 16 bytes ≡ bytes
slices bytes l =
    rw (take-add 4 4 bytes, take-add 8 4 bytes, take-add 12 4 bytes)
      (take_all 16 bytes (omega (arith, l)))

to-from_slice :
    (n : ℕ) (bytes : List ℕ)
    → n ≤ 12
    → length bytes ≡ 16
    → All (λ b. b < 256) bytes
    → u32_to_ne_bytes (u32_from_ne_bytes (take 4 (drop n bytes))) ≡ take 4 (drop n bytes)
to-from_slice n bytes h l v =
    to-from (take 4 (drop n bytes))
      (omega (arith, length-take 4 (drop n bytes), length-drop n bytes))
      (All-take _ 4 _ (All-drop _ n bytes v))

encoded-decode :
    (bytes : List ℕ)
    → length bytes ≡ header_len
    → All (λ b. b < 256) bytes
    → encoded (decode bytes) ≡ bytes
unfolding encoded decode
encoded-decode bytes l v =
    rw
      (
        repack,
        to-from_slice 0 bytes (omega arith) l v,
        to-from_slice 4 bytes (omega arith) l v,
        to-from_slice 8 bytes (omega arith) l v,
        to-from_slice 12 bytes (omega arith) l v,
      )
      (slices bytes l)
  where
    word : ℕ
    word = u32_from_ne_bytes (take 4 (drop 4 bytes))

    repack : word / 2 ^ 24 % 2 ^ 8 * 2 ^ 24 + word % 2 ^ 24 ≡ word
    repack = omega (arith, from-lt (take 4 (drop 4 bytes)) (All-take _ 4 _ (All-drop _ 4 bytes v)))

-- Every sixteen bytes are the encoding of the header that `decode` reads from them.
pub encode-decode :
    (bytes : List ℕ)
    → length bytes ≡ header_len
    → All (λ b. b < 256) bytes
    → encode (decode bytes) ≡ ok bytes
encode-decode bytes l v =
    encode-of_le (decode bytes) (payload-le bytes) ∙ ap ok (encoded-decode bytes l v)

-- `encode` refuses a payload beyond 24 bits, and names its length and the limit.
pub encode_fails :
    (h : Header)
    → wire_max_payload < h.payload_len
    → encode h ≡ err (payload_too_large h.payload_len wire_max_payload)
unfolding encode
encode_fails h l = ground arith
