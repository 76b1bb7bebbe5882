-- ===== src/Frame/Control/Safety.antt =====
-- The parser of ancillary data stays inside its buffer and comes to an end.
use pipewire_native_rs.Prelude.{
  ℕ, zero, suc, ◌+◌, ◌-◌, ◌*◌, ◌/◌, ◌%◌, ◌^◌, ◌≤◌, ◌<◌, ◌≡◌, ◌≢◌, ◌⊎◌, inl, inr, refl, subst, Bool,
  true, false, List, [], ◌∷◌, ◌++◌, none, some, length, ltb, leb, ◌==◌, if◌then◌else◌, arith,
  Option-cases, Bool-cases,
}
use pipewire_native_rs.Frame.Control.{
  Parsed, out_of_bounds, starved, rights, malformed_control, truncated_control, ControlHeader,
  read_header, read_fd, Adopted, adopted, negative, outside, adopt_slots, data_len, is_rights,
  adopt, next_offset, after_record, RecordStep, ends, goes, settle_record, parse_record, parse_loop,
  parse_control,
}

-- The end is one of those that the source has.
abbrev pub IsSafe : Parsed → Type 0
IsSafe (rights fds) = Unit {0}
IsSafe (malformed_control fds) = Unit {0}
IsSafe (truncated_control fds) = Unit {0}
IsSafe out_of_bounds = ⊥
IsSafe starved = ⊥

read_fd-inside :
    (control : List ℕ) (at : ℕ)
    → at + 4 ≤ length control
    → (fd : ℕ) × (read_fd control at ≡ some fd)
unfolding read_fd
read_fd-inside control at h = elim (Option-cases (read_fd control at)) [
  | inl e ↦ absurd (ground arith)
  | inr found ↦ found
]

adopt_slots-inside :
    (control : List ℕ) (at n : ℕ) (owned : List ℕ)
    → (at + n * 4 ≤ length control) ⊎ (n ≡ 0)
    → adopt_slots control at n owned ≢ outside
unfolding adopt_slots
adopt_slots-inside control at zero owned h = λ e. cc
adopt_slots-inside control at (suc n) owned h =
    let (fd, e) = read_fd-inside control at (ground arith) in
    let rest = adopt_slots-inside control (at + 4) n (owned ++ (fd ∷ [])) (ground arith) in
    rw (adopt_slots, e)
      (elim (Bool-cases (leb (2 ^ 31) fd)) [
        | inl minus ↦ rw minus (λ same. cc)
        | inr plus ↦ rw plus rest
      ])

data_len-inside :
    (control : List ℕ) (offset : ℕ) (header : ControlHeader)
    → (offset + 16 + data_len control offset header ≤ length control)
      ⊎ (data_len control offset header ≡ 0)
unfolding data_len
data_len-inside control offset header = ground arith

adopt-inside :
    (control : List ℕ) (offset : ℕ) (header : ControlHeader) (owned : List ℕ)
    → adopt control offset header owned ≢ outside
unfolding adopt
adopt-inside control offset header owned = elim (Bool-cases (is_rights header)) [
  | inr other ↦ rw (adopt, other) (λ same. cc)
  | inl mine ↦
      let room = data_len-inside control offset header in
      let safe =
        adopt_slots-inside control (offset + 16) (data_len control offset header / 4) owned
          (ground arith) in
      ground arith
]

read_header-inside :
    (control : List ℕ) (offset : ℕ)
    → offset + 16 ≤ length control
    → (header : ControlHeader) × (read_header control offset ≡ some header)
unfolding read_header
read_header-inside control offset h = elim (Option-cases (read_header control offset)) [
  | inl e ↦ absurd (ground arith)
  | inr found ↦ found
]

after_record-ahead :
    (control : List ℕ) (offset : ℕ) (header : ControlHeader) {next : ℕ}
    → after_record control offset header ≡ some next
    → offset < next
unfolding after_record next_offset
after_record-ahead control offset header e = ground arith

-- A round ends safely, or the next record lies ahead and in front of the end of the memory.
abbrev IsStep : ℕ → RecordStep → Type 0
IsStep offset (ends r) = IsSafe r
IsStep offset (goes next owned) = offset < next

settle-none :
    (control : List ℕ) (offset : ℕ) (header : ControlHeader) (owned : List ℕ)
    → after_record control offset header ≡ none
    → settle_record control offset header (adopted owned) ≡ ends (malformed_control owned)
settle-none control offset header owned e = rw (settle_record, e) refl

settle-some :
    (control : List ℕ) (offset : ℕ) (header : ControlHeader) (owned : List ℕ) {next : ℕ}
    → after_record control offset header ≡ some next
    → settle_record control offset header (adopted owned) ≡ goes next owned
settle-some control offset header owned e = rw (settle_record, e) refl

settle_record-IsStep :
    (control : List ℕ) (offset : ℕ) (header : ControlHeader) (a : Adopted)
    → a ≢ outside
    → IsStep offset (settle_record control offset header a)
settle_record-IsStep control offset header outside ne = ne refl
settle_record-IsStep control offset header (negative owned) ne = tt
settle_record-IsStep control offset header (adopted owned) ne =
    elim (Option-cases (after_record control offset header)) [
      | inl e ↦ rw (settle-none control offset header owned e) tt
      | inr (next, e) ↦
          rw (settle-some control offset header owned e)
            (after_record-ahead control offset header e)
    ]

ends_safely :
    (b : Bool) (owned : List ℕ) → IsSafe (if b then truncated_control owned else rights owned)
ends_safely true owned = tt
ends_safely false owned = tt

parse_record-IsStep :
    (control : List ℕ) (flags offset : ℕ) (owned : List ℕ)
    → IsStep offset (parse_record control flags offset owned)
unfolding parse_record
parse_record-IsStep control flags offset owned = elim (Bool-cases (leb (length control) offset)) [
  | inl past ↦ rw (parse_record, past) (ends_safely (flags / 8 % 2 == 1) owned)
  | inr within ↦ elim (Bool-cases (ltb (length control - offset) 16)) [
    | inl short ↦ rw (parse_record, within, short) tt
    | inr fits ↦
        let (header, e) = read_header-inside control offset (ground arith) in
        rw (parse_record, within, fits, e)
          (settle_record-IsStep control offset header (adopt control offset header owned)
            (adopt-inside control offset header owned))
  ]
]

step-cases :
    (step : RecordStep)
    → ((r : Parsed) × (step ≡ ends r)) ⊎ ((next : ℕ) × (owned : List ℕ) × (step ≡ goes next owned))
step-cases (ends r) = inl (r, refl)
step-cases (goes next owned) = inr (next, owned, refl)

-- Past the end of the buffer a round ends the loop.
past-ends :
    (control : List ℕ) (flags offset : ℕ) (owned : List ℕ) {next : ℕ} {owned' : List ℕ}
    → parse_record control flags offset owned ≡ goes next owned'
    → offset < length control
unfolding parse_record
past-ends control flags offset owned e = ground arith

-- The loop is safe with a round for each byte that is left, and one more.
parse_loop-IsSafe :
    (control : List ℕ) (flags fuel offset : ℕ) (owned : List ℕ)
    → length control < fuel + offset
    → 0 < fuel
    → IsSafe (parse_loop control flags fuel offset owned)
unfolding parse_loop
parse_loop-IsSafe control flags zero offset owned h p = absurd (omega arith)
parse_loop-IsSafe control flags (suc fuel) offset owned h p =
    let law = parse_record-IsStep control flags offset owned in
    elim (step-cases (parse_record control flags offset owned)) [
      | inl (r, e) ↦ rw (parse_loop, e) (subst (IsStep offset) e law)
      | inr (next, owned', e) ↦
          let ahead = subst (IsStep offset) e law in
          let inside = past-ends control flags offset owned e in
          rw (parse_loop, e)
            (parse_loop-IsSafe control flags fuel next owned' (omega arith) (omega arith))
    ]

-- Whatever the bytes of the ancillary data and the flags, the parser reads only inside the buffer,
-- comes to an end, and returns the descriptors or one of its two errors.
pub parse_control-IsSafe : (control : List ℕ) (flags : ℕ) → IsSafe (parse_control control flags)
unfolding parse_control
parse_control-IsSafe control flags =
    parse_loop-IsSafe control flags (suc (length control)) 0 [] (omega arith) (omega arith)
