-- ===== src/Pod/Types.antt =====
-- spa/src/pod/types.rs, and the error type of spa/src/pod/mod.rs, whose texts are left out. A float
-- is its bits.
use pipewire_native_rs.Prelude.{
  ℕ, List, Option, none, some, ◌==◌, ◌<◌, ◌^◌, ◌≡◌, refl, arith, if◌then◌else◌,
}

pub data PodError : Type 0 where
  invalid no_space : PodError

-- `Type`
pub data PodType : Type 0 where
  start none_type bool_type id_type int_type long_type float_type double_type : PodType
  string_type bytes_type rectangle_type fraction_type bitmap_type array_type : PodType
  struct_type object_type sequence_type pointer_type fd_type choice_type pod_type : PodType

-- `as u32`
abbrev pub type_code : PodType → ℕ
type_code start = 0
type_code none_type = 1
type_code bool_type = 2
type_code id_type = 3
type_code int_type = 4
type_code long_type = 5
type_code float_type = 6
type_code double_type = 7
type_code string_type = 8
type_code bytes_type = 9
type_code rectangle_type = 10
type_code fraction_type = 11
type_code bitmap_type = 12
type_code array_type = 13
type_code struct_type = 14
type_code object_type = 15
type_code sequence_type = 16
type_code pointer_type = 17
type_code fd_type = 18
type_code choice_type = 19
type_code pod_type = 20

pub type_code-small : (kind : PodType) → type_code kind < 2 ^ 32
type_code-small start = omega arith
type_code-small none_type = omega arith
type_code-small bool_type = omega arith
type_code-small id_type = omega arith
type_code-small int_type = omega arith
type_code-small long_type = omega arith
type_code-small float_type = omega arith
type_code-small double_type = omega arith
type_code-small string_type = omega arith
type_code-small bytes_type = omega arith
type_code-small rectangle_type = omega arith
type_code-small fraction_type = omega arith
type_code-small bitmap_type = omega arith
type_code-small array_type = omega arith
type_code-small struct_type = omega arith
type_code-small object_type = omega arith
type_code-small sequence_type = omega arith
type_code-small pointer_type = omega arith
type_code-small fd_type = omega arith
type_code-small choice_type = omega arith
type_code-small pod_type = omega arith

-- `Type::try_from`, which the `EnumU32` derive makes.
unfoldable pub try_from : ℕ → Option PodType
try_from n =
    if n == 0
    then some start
    else if n == 1
    then some none_type
    else if n == 2
    then some bool_type
    else if n == 3
    then some id_type
    else if n == 4
    then some int_type
    else if n == 5
    then some long_type
    else if n == 6
    then some float_type
    else if n == 7
    then some double_type
    else if n == 8
    then some string_type
    else if n == 9
    then some bytes_type
    else if n == 10
    then some rectangle_type
    else if n == 11
    then some fraction_type
    else if n == 12
    then some bitmap_type
    else if n == 13
    then some array_type
    else if n == 14
    then some struct_type
    else if n == 15
    then some object_type
    else if n == 16
    then some sequence_type
    else if n == 17
    then some pointer_type
    else if n == 18
    then some fd_type
    else if n == 19
    then some choice_type
    else if n == 20
    then some pod_type
    else none

pub record Rectangle : Type 0 where
  pub width : ℕ
  pub height : ℕ

pub record Fraction : Type 0 where
  pub num : ℕ
  pub denom : ℕ

pub data Choice {ℓ} (T : Type ℓ) : Type ℓ where
  only : T → Choice T
  range : T → T → T → Choice T
  stepped : T → T → T → T → Choice T
  enumeration : T → List T → Choice T
  flags : T → T → Choice T

pub record Property {ℓ κ} (K : Type ℓ) (V : Type κ) : Type (ℓ ⊔ κ) where
  pub key : K
  pub flag_bits : ℕ
  pub value : V

-- A type with `Into<u32>` and `TryFrom<u32>`.
pub record U32Enum {ℓ} (K : Type ℓ) : Type ℓ where
  pub into : K → ℕ
  pub from : ℕ → Option K

-- `try_from` undoes `as u32`.
pub try_from-type_code : (kind : PodType) → try_from (type_code kind) ≡ some kind
unfolding try_from
try_from-type_code start = refl
try_from-type_code none_type = refl
try_from-type_code bool_type = refl
try_from-type_code id_type = refl
try_from-type_code int_type = refl
try_from-type_code long_type = refl
try_from-type_code float_type = refl
try_from-type_code double_type = refl
try_from-type_code string_type = refl
try_from-type_code bytes_type = refl
try_from-type_code rectangle_type = refl
try_from-type_code fraction_type = refl
try_from-type_code bitmap_type = refl
try_from-type_code array_type = refl
try_from-type_code struct_type = refl
try_from-type_code object_type = refl
try_from-type_code sequence_type = refl
try_from-type_code pointer_type = refl
try_from-type_code fd_type = refl
try_from-type_code choice_type = refl
try_from-type_code pod_type = refl
