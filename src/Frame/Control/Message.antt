-- ===== src/Frame/Control/Message.antt =====
-- protocol/src/native/frame/send.rs: the ancillary data that `send_once` lays out, and how the
-- receiving side reads it.
use pipewire_native_rs.Prelude.{
  ℕ, zero, suc, ◌+◌, ◌-◌, ◌*◌, ◌/◌, ◌%◌, ◌^◌, ◌≤◌, ◌<◌, ◌≡◌, refl, sym, ap, ap₂, ◌∙◌, List, [], ◌∷◌,
  ◌++◌, append_assoc, append-nil, some, slice, take, drop, length, arith, All, length-append,
}
use pipewire_native_rs.Frame.Header.{u32_from_ne_bytes, u32_to_ne_bytes}
use pipewire_native_rs.Frame.Header.RoundTrip.{from-to, to-bytes}
use pipewire_native_rs.Frame.Control.{
  Parsed, rights, ControlHeader, read_header, read_fd, cmsg_align, adopted, adopt_slots, data_len,
  adopt, next_offset, after_record, goes, ends, parse_record, parse_loop, parse_control,
}

-- The descriptors' bytes in their slots.
abbrev pub fd_bytes : List ℕ → List ℕ
fd_bytes [] = []
fd_bytes (fd ∷ fds) = u32_to_ne_bytes fd ++ fd_bytes fds

abbrev zeros : ℕ → List ℕ
zeros zero = []
zeros (suc n) = 0 ∷ zeros n

-- `align` of send.rs
abbrev pub align : ℕ → ℕ
align value = (value + 7) / 8 * 8

-- The header, the descriptors, and zeros up to the aligned length.
unfoldable pub control_message : List ℕ → List ℕ
control_message fds =
    let len = 16 + 4 * length fds in
    (u32_to_ne_bytes (len % 2 ^ 32)
      ++ (u32_to_ne_bytes (len / 2 ^ 32) ++ (u32_to_ne_bytes 1 ++ u32_to_ne_bytes 1)))
    ++ (fd_bytes fds ++ zeros (align len - len))

drop-front {ℓ} : {A : Type ℓ} (pre rest : List A) → drop (length pre) (pre ++ rest) ≡ rest
drop-front [] rest = refl
drop-front (x ∷ pre) rest = drop-front pre rest

take-four : (fd : ℕ) (rest : List ℕ) → take 4 (u32_to_ne_bytes fd ++ rest) ≡ u32_to_ne_bytes fd
unfolding u32_to_ne_bytes
take-four fd rest = refl

slot_slice :
    (pre : List ℕ) (fd : ℕ) (rest : List ℕ)
    → slice (length pre) (length pre + 4) (pre ++ (u32_to_ne_bytes fd ++ rest)) ≡ u32_to_ne_bytes fd
slot_slice pre fd rest =
    let width : length pre + 4 - length pre ≡ 4 = omega arith in
    ap (λ n. take n (drop (length pre) (pre ++ (u32_to_ne_bytes fd ++ rest)))) width
    ∙ (ap (take 4) (drop-front pre (u32_to_ne_bytes fd ++ rest)) ∙ take-four fd rest)

read_fd-within :
    (control : List ℕ) (at : ℕ)
    → at + 4 ≤ length control
    → read_fd control at ≡ some (u32_from_ne_bytes (slice at (at + 4) control))
unfolding read_fd
read_fd-within control at h = ground arith

read_fd-slot :
    (pre : List ℕ) (fd : ℕ) (rest : List ℕ)
    → fd < 2 ^ 32
    → read_fd (pre ++ (u32_to_ne_bytes fd ++ rest)) (length pre) ≡ some fd
read_fd-slot pre fd rest h =
    let total = length-append pre (u32_to_ne_bytes fd ++ rest) in
    let more = length-append (u32_to_ne_bytes fd) rest in
    let four = (to-bytes fd).0 in
    let within = read_fd-within (pre ++ (u32_to_ne_bytes fd ++ rest)) (length pre) (omega arith) in
    within ∙ ap (λ s. some (u32_from_ne_bytes s)) (slot_slice pre fd rest) ∙ ap some (from-to fd h)

adopt_slots-step :
    (control : List ℕ) (at n fd : ℕ) (owned : List ℕ)
    → read_fd control at ≡ some fd
    → fd < 2 ^ 31
    → adopt_slots control at (suc n) owned ≡ adopt_slots control (at + 4) n (owned ++ (fd ∷ []))
unfolding adopt_slots
adopt_slots-step control at n fd owned e h = ground arith

slots_read :
    (pre fds rest owned : List ℕ)
    → All (λ fd. fd < 2 ^ 31) fds
    → adopt_slots (pre ++ (fd_bytes fds ++ rest)) (length pre) (length fds) owned
      ≡ adopted (owned ++ fds)
unfolding adopt_slots
slots_read pre [] rest owned v = ap adopted (sym (append-nil owned))
slots_read pre (fd ∷ fds) rest owned (p, v) =
    let slot = read_fd-slot pre fd (fd_bytes fds ++ rest) (omega arith) in
    let regroup = append_assoc (u32_to_ne_bytes fd) (fd_bytes fds) rest in
    let shift = append_assoc pre (u32_to_ne_bytes fd) (fd_bytes fds ++ rest) in
    let place : length (pre ++ u32_to_ne_bytes fd) ≡ length pre + 4 =
      omega (arith, length-append pre (u32_to_ne_bytes fd), to-bytes fd) in
    let others = slots_read (pre ++ u32_to_ne_bytes fd) fds rest (owned ++ (fd ∷ [])) v in
    let joined = append_assoc owned (fd ∷ []) fds in
    let same = ap (λ c. pre ++ c) regroup in
    let here = ap (λ c. read_fd c (length pre)) same ∙ slot in
    let whole = pre ++ (fd_bytes (fd ∷ fds) ++ rest) in
    adopt_slots-step whole (length pre) (length fds) fd owned here p
    ∙ ap₂ (λ c at. adopt_slots c at (length fds) (owned ++ (fd ∷ []))) (same ∙ sym shift)
        (sym place)
    ∙ others
    ∙ ap adopted joined

-- The header in front of the descriptors.
abbrev message_header : List ℕ → List ℕ
message_header fds =
    let len = 16 + 4 * length fds in
    u32_to_ne_bytes (len % 2 ^ 32)
    ++ (u32_to_ne_bytes (len / 2 ^ 32) ++ (u32_to_ne_bytes 1 ++ u32_to_ne_bytes 1))

abbrev padding : List ℕ → List ℕ
padding fds = let len = 16 + 4 * length fds in zeros (align len - len)

length-zeros : (n : ℕ) → length (zeros n) ≡ n
length-zeros zero = refl
length-zeros (suc n) = ap suc (length-zeros n)

length-fd_bytes : (fds : List ℕ) → length (fd_bytes fds) ≡ 4 * length fds
length-fd_bytes [] = refl
length-fd_bytes (fd ∷ fds) =
    omega
      (arith, length-append (u32_to_ne_bytes fd) (fd_bytes fds), to-bytes fd, length-fd_bytes fds)

length-message : (fds : List ℕ) → length (control_message fds) ≡ align (16 + 4 * length fds)
unfolding control_message u32_to_ne_bytes
length-message fds = omega (
  arith,
  length-append (fd_bytes fds) (padding fds),
  length-fd_bytes fds,
  length-zeros (align (16 + 4 * length fds) - (16 + 4 * length fds)),
)

abbrev header_of_fds : List ℕ → ControlHeader
header_of_fds fds = record { cmsg_len = 16 + 4 * length fds; cmsg_level = 1; cmsg_type = 1 }

header_read :
    (fds : List ℕ)
    → 4 * length fds + 16 < 2 ^ 64
    → read_header (control_message fds) 0 ≡ some (header_of_fds fds)
unfolding read_header control_message u32_to_ne_bytes u32_from_ne_bytes
header_read fds h = ground arith

data_len-message :
    (fds : List ℕ)
    → 4 * length fds + 23 < 2 ^ 64
    → data_len (control_message fds) 0 (header_of_fds fds) ≡ 4 * length fds
unfolding data_len
data_len-message fds h = let l = length-message fds in ground arith

slots-message :
    (fds : List ℕ)
    → All (λ fd. fd < 2 ^ 31) fds
    → adopt_slots (control_message fds) 16 (length fds) [] ≡ adopted fds
unfolding control_message u32_to_ne_bytes
slots-message fds v = slots_read (message_header fds) fds (padding fds) [] v

adopt-message :
    (fds : List ℕ)
    → 4 * length fds + 23 < 2 ^ 64
    → All (λ fd. fd < 2 ^ 31) fds
    → adopt (control_message fds) 0 (header_of_fds fds) [] ≡ adopted fds
unfolding adopt
adopt-message fds h v =
    let n : data_len (control_message fds) 0 (header_of_fds fds) / 4 ≡ length fds =
      omega (arith, data_len-message fds h) in
    ap (λ k. adopt_slots (control_message fds) 16 k []) n ∙ slots-message fds v

after-message :
    (fds : List ℕ)
    → 4 * length fds + 23 < 2 ^ 64
    → after_record (control_message fds) 0 (header_of_fds fds) ≡ some (length (control_message fds))
unfolding after_record next_offset cmsg_align
after-message fds h = let l = length-message fds in let d = data_len-message fds h in ground arith

message-round :
    (fds : List ℕ) (flags : ℕ)
    → 4 * length fds + 23 < 2 ^ 64
    → All (λ fd. fd < 2 ^ 31) fds
    → parse_record (control_message fds) flags 0 [] ≡ goes (length (control_message fds)) fds
unfolding parse_record
message-round fds flags h v =
    let l = length-message fds in
    let header = header_read fds (omega arith) in
    let taken = adopt-message fds h v in let next = after-message fds h in ground arith

message-end :
    (control : List ℕ) (fds : List ℕ)
    → parse_record control 0 (length control) fds ≡ ends (rights fds)
unfolding parse_record
message-end control fds = ground arith

loop-goes :
    (control : List ℕ) (flags fuel offset : ℕ) (owned : List ℕ) {next : ℕ} {owned' : List ℕ}
    → parse_record control flags offset owned ≡ goes next owned'
    → parse_loop control flags (suc fuel) offset owned ≡ parse_loop control flags fuel next owned'
unfolding parse_loop
loop-goes control flags fuel offset owned e = rw (parse_loop, e) refl

loop-ends :
    (control : List ℕ) (flags fuel offset : ℕ) (owned : List ℕ) {r : Parsed}
    → 0 < fuel
    → parse_record control flags offset owned ≡ ends r
    → parse_loop control flags fuel offset owned ≡ r
unfolding parse_loop
loop-ends control flags zero offset owned p e = absurd (omega arith)
loop-ends control flags (suc fuel) offset owned p e = rw (parse_loop, e) refl

-- Descriptors that `send_once` lays out are the ones that `parse_control` adopts, in their order,
-- when they are not negative and their bytes can be counted by a `usize`.
pub parse_control-control_message :
    (fds : List ℕ)
    → 4 * length fds + 23 < 2 ^ 64
    → All (λ fd. fd < 2 ^ 31) fds
    → parse_control (control_message fds) 0 ≡ rights fds
unfolding parse_control
parse_control-control_message fds h v =
    let l = length-message fds in
    let first = message-round fds 0 h v in
    let last = message-end (control_message fds) fds in
    loop-goes (control_message fds) 0 (length (control_message fds)) 0 [] first
    ∙ loop-ends (control_message fds) 0 (length (control_message fds)) _ fds (omega arith) last
