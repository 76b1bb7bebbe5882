-- ===== src/Pod/Choice/RoundTrip.antt =====
-- A choice decodes to what was encoded.
use pipewire_native_rs.Prelude.{
  ℕ, ◌+◌, ◌-◌, ◌*◌, ◌%◌, ◌≤◌, ◌<◌, ◌^◌, ◌≡◌, refl, sym, ap, ap₂, ◌∙◌, true, false, List, [], ◌++◌,
  take, drop, slice, length, All, ok, arith, ◌==◌, some, append_assoc, append-nil, length-append,
  length-take, length-drop, drop-drop, ltb,
}
use native.Mathlib.Nat.{mul-mod_right}
use pipewire_native_rs.Frame.Header.{u32_to_ne_bytes}
use pipewire_native_rs.Pod.Bytes.{copy, u32_at}
use pipewire_native_rs.Pod.Bytes.Fill.{
  Filled, Filled-copy, length-u32, take-at, u32_at-here, u32_at-next,
}
use pipewire_native_rs.Pod.Types.{
  type_code, type_code-small, choice_type, Choice, only, range, stepped, enumeration, flags,
}
use pipewire_native_rs.Pod.Codec.{pad_8, put_header}
use pipewire_native_rs.Pod.Codec.Laws.{
  RoundTrips, header_bytes, length-header, put_header-Filled, total-size, Reads, RoundTrip-of,
}
use pipewire_native_rs.Pod.Primitive.{Primitive}
use pipewire_native_rs.Pod.Primitive.Laws.{IsPrimitive}
use pipewire_native_rs.Pod.Array.{encode_elems}
use pipewire_native_rs.Pod.Array.Elements.{
  Filled-left, u32_at-drop, mul-div_self, bodies, length-bodies, encode_elems-Filled,
  decode_chunks-bodies,
}
use pipewire_native_rs.Pod.Choice.{
  choice_values, choice_code, encode_choice, right_count, choice_of, decode_choice, choice_pod,
}

choice_of-values {ℓ} :
    {T : Type ℓ} (c : Choice T) → choice_of (choice_code c) (choice_values c) ≡ some c
choice_of-values (only value) = refl
choice_of-values (range default low high) = refl
choice_of-values (stepped default low high step) = refl
choice_of-values (enumeration default alternatives) = refl
choice_of-values (flags default mask) = refl

right_count-values {ℓ} :
    {T : Type ℓ} (c : Choice T) → right_count (choice_code c) (length (choice_values c)) ≡ true
right_count-values (only value) = refl
right_count-values (range default low high) = refl
right_count-values (stepped default low high step) = refl
right_count-values (enumeration default alternatives) = ground arith
right_count-values (flags default mask) = refl

choice_code-small {ℓ} : {T : Type ℓ} (c : Choice T) → choice_code c < 2 ^ 32
choice_code-small (only value) = omega arith
choice_code-small (range default low high) = omega arith
choice_code-small (stepped default low high step) = omega arith
choice_code-small (enumeration default alternatives) = omega arith
choice_code-small (flags default mask) = omega arith

-- Four words before the rest of a body.
words : ℕ → ℕ → ℕ → ℕ → List ℕ → List ℕ
words a b c d rest =
    u32_to_ne_bytes a ++ (u32_to_ne_bytes b ++ (u32_to_ne_bytes c ++ (u32_to_ne_bytes d ++ rest)))

length-words : (a b c d : ℕ) (rest : List ℕ) → length (words a b c d rest) ≡ 16 + length rest
unfolding words u32_to_ne_bytes
length-words a b c d rest = omega arith

words-append :
    (a b c d : ℕ) (rest more : List ℕ) → words a b c d rest ++ more ≡ words a b c d (rest ++ more)
unfolding words u32_to_ne_bytes
words-append a b c d rest more = refl

drop-words : (a b c d : ℕ) (rest : List ℕ) → drop 16 (words a b c d rest) ≡ rest
unfolding words u32_to_ne_bytes
drop-words a b c d rest = refl

-- Four words written after the header.
put_words-Filled :
    (buffer header now : List ℕ) (a b c d : ℕ)
    → length header ≡ 8
    → Filled buffer header now
    → Filled buffer (header ++ words a b c d []) (
        copy 20 (u32_to_ne_bytes d) (
          copy 16
            (u32_to_ne_bytes c)
            (copy 12 (u32_to_ne_bytes b) (copy 8 (u32_to_ne_bytes a) now))))
unfolding words
put_words-Filled buffer header now a b c d e filled =
    let w1 = u32_to_ne_bytes a in
    let w2 = u32_to_ne_bytes b in
    let w3 = u32_to_ne_bytes c in
    let w4 = u32_to_ne_bytes d in
    let at_12 : length (header ++ w1) ≡ 12 = omega (arith, length-append header w1, length-u32 a) in
    let at_16 : length ((header ++ w1) ++ w2) ≡ 16 =
      omega (arith, length-append (header ++ w1) w2, at_12, length-u32 b) in
    let at_20 : length (((header ++ w1) ++ w2) ++ w3) ≡ 20 =
      omega (arith, length-append ((header ++ w1) ++ w2) w3, at_16, length-u32 c) in
    let one = Filled-copy buffer header w1 now e filled in
    let two = Filled-copy buffer (header ++ w1) w2 _ at_12 one in
    let three = Filled-copy buffer ((header ++ w1) ++ w2) w3 _ at_16 two in
    let four = Filled-copy buffer (((header ++ w1) ++ w2) ++ w3) w4 _ at_20 three in
    let flat : (((header ++ w1) ++ w2) ++ w3) ++ w4 ≡ header ++ (w1 ++ (w2 ++ (w3 ++ (w4 ++ [])))) =
      append_assoc ((header ++ w1) ++ w2) w3 w4
      ∙ append_assoc (header ++ w1) w2 (w3 ++ w4)
      ∙ append_assoc header w1 (w2 ++ (w3 ++ w4))
      ∙ ap (λ x. header ++ (w1 ++ (w2 ++ (w3 ++ x)))) (sym (append-nil w4)) in
    four ∙ ap (λ bs. bs ++ drop (length bs) buffer) flat

module _ {ℓ κ} {T : Type ℓ} {Fits : T → Type κ} (P : Primitive T) (law : IsPrimitive P Fits) where
  -- The body: the kind, unused flags, the size and the type of a child, and the children.
  choice_body : Choice T → List ℕ
  choice_body c =
      words (choice_code c) 0 (P.pod_size % 2 ^ 32) (type_code P.pod_type)
        (bodies P law (choice_values c))

  choice_size : Choice T → ℕ
  choice_size c = 16 + P.pod_size * length (choice_values c)

  length-choice_body : (c : Choice T) → length (choice_body c) ≡ choice_size c
  unfolding choice_body choice_size
  length-choice_body c = omega (
    arith,
    length-words (choice_code c) 0 (P.pod_size % 2 ^ 32) (type_code P.pod_type)
        (bodies P law (choice_values c)),
    length-bodies P law (choice_values c),
  )

  filled_choice : Choice T → List ℕ → List ℕ
  unfolding choice_size
  filled_choice c buffer = encode_elems P 24 (choice_values c) (
      copy 20 (u32_to_ne_bytes (type_code P.pod_type)) (
        copy 16 (u32_to_ne_bytes (P.pod_size % 2 ^ 32)) (
          copy 12 (u32_to_ne_bytes 0) (
            copy 8 (u32_to_ne_bytes (choice_code c))
              (put_header (choice_size c) choice_type buffer)))))

  choice-ok :
      (c : Choice T) (buffer now : List ℕ) (n : ℕ)
      → encode_choice P c buffer ≡ (now, ok n)
      → (now ≡ filled_choice c buffer)
        × (n ≡ 8 + choice_size c + pad_8 (choice_size c))
        × (n ≤ length buffer)
  unfolding encode_choice filled_choice choice_size
  choice-ok c buffer now n e = ground arith

  choice-Filled :
      (c : Choice T) (buffer : List ℕ)
      → Filled buffer
          (header_bytes (choice_size c) choice_type ++ choice_body c)
          (filled_choice c buffer)
  unfolding filled_choice choice_body
  choice-Filled c buffer =
      let header = header_bytes (choice_size c) choice_type in
      let front = words (choice_code c) 0 (P.pod_size % 2 ^ 32) (type_code P.pod_type) in
      let size = length-header (choice_size c) choice_type in
      let put =
        put_words-Filled buffer header _ (choice_code c) 0 (P.pod_size % 2 ^ 32)
          (type_code P.pod_type) size (put_header-Filled (choice_size c) choice_type buffer) in
      let at_24 : length (header ++ front []) ≡ 24 = omega (
        arith,
        length-append header (front []),
        size,
        length-words (choice_code c) 0 (P.pod_size % 2 ^ 32) (type_code P.pod_type) [],
      ) in
      let all =
        encode_elems-Filled P law (choice_values c) buffer (header ++ front []) _ at_24 put in
      let flat : (header ++ front []) ++ bodies P law (choice_values c)
          ≡ header ++ front (bodies P law (choice_values c)) =
        append_assoc header (front []) (bodies P law (choice_values c))
        ∙ ap (λ xs. header ++ xs)
            (words-append (choice_code c) 0 (P.pod_size % 2 ^ 32) (type_code P.pod_type) []
              (bodies P law (choice_values c))) in
      all ∙ ap (λ bs. bs ++ drop (length bs) buffer) flat

  decode_choice-Reads :
      (c : Choice T) (whole : List ℕ)
      → All Fits (choice_values c)
      → 0 < P.pod_size
      → choice_size c < 2 ^ 32
      → Reads (choice_size c) choice_type (choice_body c) whole
      → decode_choice P whole ≡ ok (c, 8 + choice_size c + pad_8 (choice_size c))
  unfolding decode_choice choice_body choice_size words
  decode_choice-Reads c whole fits some_size h r =
      let room = r.long in
      let values = choice_values c in
      let elems = P.pod_size * length values in
      let size = 16 + elems in
      let kind = choice_code c in
      let width = P.pod_size % 2 ^ 32 in
      let code = type_code P.pod_type in
      let rest = bodies P law values ++ r.rest in
      let w1 = u32_to_ne_bytes kind in
      let w2 = u32_to_ne_bytes 0 in
      let w3 = u32_to_ne_bytes width in
      let w4 = u32_to_ne_bytes code in
      let behind : drop 8 whole ≡ w1 ++ (w2 ++ (w3 ++ (w4 ++ rest))) =
        r.behind ∙ words-append kind 0 width code (bodies P law values) r.rest in
      let small : width ≡ P.pod_size = omega (arith, law.small) in
      let kind_read : u32_at 8 whole ≡ kind =
        u32_at-drop 8 0 whole
        ∙ ap (u32_at 0) behind
        ∙ u32_at-here kind (w2 ++ (w3 ++ (w4 ++ rest))) (choice_code-small c) in
      let child : u32_at 16 whole ≡ P.pod_size =
        u32_at-drop 8 8 whole
        ∙ ap (u32_at 8) behind
        ∙ u32_at-next kind 4 (w2 ++ (w3 ++ (w4 ++ rest)))
        ∙ u32_at-next 0 0 (w3 ++ (w4 ++ rest))
        ∙ u32_at-here width (w4 ++ rest) (omega arith)
        ∙ small in
      let type_read : u32_at 20 whole ≡ code =
        u32_at-drop 8 12 whole
        ∙ ap (u32_at 12) behind
        ∙ u32_at-next kind 8 (w2 ++ (w3 ++ (w4 ++ rest)))
        ∙ u32_at-next 0 4 (w3 ++ (w4 ++ rest))
        ∙ u32_at-next width 0 (w4 ++ rest)
        ∙ u32_at-here code rest (type_code-small P.pod_type) in
      let start : drop 24 whole ≡ rest =
        sym (drop-drop 16 8 whole) ∙ ap (drop 16) behind ∙ drop-words kind 0 width code rest in
      let span : 24 + elems - 24 ≡ elems = omega arith in
      let children : slice 24 (24 + elems) whole ≡ bodies P law values =
        ap₂ take span start ∙ take-at (bodies P law values) r.rest (length-bodies P law values) in
      let total = total-size size h in
      let long : ltb (length whole) 24 ≡ false = ground arith in
      let body : ltb size 16 ≡ false = ground arith in
      let enough : ltb (length whole) (8 + size + pad_8 size) ≡ false = ground arith in
      let not_zero : (P.pod_size == 0) ≡ false = ground arith in
      let same : (P.pod_size == P.pod_size) ≡ true = ground arith in
      let alike : (code == code) ≡ true = ground arith in
      let count : size - 16 ≡ elems = omega arith in
      rw
        (
          decode_choice,
          long,
          r.size_read,
          body,
          total,
          enough,
          r.type_read,
          child,
          not_zero,
          same,
          type_read,
          alike,
          count,
          mul-mod_right P.pod_size (length values),
          mul-div_self P.pod_size (length values) some_size,
          kind_read,
          right_count-values c,
          children,
          decode_chunks-bodies P law values fits,
          choice_of-values c,
        )
        refl

  -- The choices that their header can describe: of values that fit and take up space.
  abbrev pub FitsChoice : Choice T → Type κ
  FitsChoice c =
      (All Fits (choice_values c) × (0 < P.pod_size))
      × (16 + P.pod_size * length (choice_values c) < 2 ^ 32)

  -- A choice of each kind, between values of a primitive whose bodies read back, of some bytes each
  -- and of less than 2^32 bytes in all, is read back, whatever its padding was left as.
  pub choice-RoundTrips : RoundTrips (choice_pod P) FitsChoice (λ c. c)
  unfolding choice_size
  choice-RoundTrips c buffer now n ((fits, some_size), h) e =
      let size = choice_size c in
      let (same, total, room) = choice-ok c buffer now n e in
      let enc = header_bytes size choice_type ++ choice_body c in
      let padding = take (pad_8 size) (drop (length enc) buffer) in
      let width : length enc ≡ 8 + size = omega (
        arith,
        length-append (header_bytes size choice_type) (choice_body c),
        length-header size choice_type,
        length-choice_body c,
      ) in
      let enough : length enc + pad_8 size ≤ length buffer = omega arith in
      RoundTrip-of (choice_pod P) c c buffer now n size choice_type (choice_body c) padding h
        (length-choice_body c)
        (omega (
          arith,
          length-take (pad_8 size) (drop (length enc) buffer),
          length-drop (length enc) buffer,
        ))
        (same
          ∙ Filled-left buffer enc (filled_choice c buffer) (pad_8 size) enough
              (choice-Filled c buffer))
        total room (λ whole r. decode_choice-Reads c whole fits some_size h r)
