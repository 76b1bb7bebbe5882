-- ===== src/Pod/Examples.antt =====
-- Values of spa/src/pod that are written into buffers and read back.
use pipewire_native_rs.Prelude.{
  Option, none, some, if◌then◌else◌, ltb, ℕ, zero, suc, refl, List, [], ◌∷◌, arith,
}
use pipewire_native_rs.Prelude.Int.{ℤ, pos, negsuc}
use pipewire_native_rs.Frame.Header.{u32_to_ne_bytes}
use pipewire_native_rs.Pod.Bytes.{copy, within}
use pipewire_native_rs.Pod.Codec.{pad_8, put_header}
use pipewire_native_rs.Pod.Codec.Laws.{RoundTrip}
use pipewire_native_rs.Pod.Primitive.{encode, primitive_pod, int_primitive}
use pipewire_native_rs.Pod.Primitive.Laws.{IsU32Enum, int-IsPrimitive}
use pipewire_native_rs.Pod.Primitive.RoundTrip.{primitive-RoundTrips}
use pipewire_native_rs.Pod.Text.{encode_string, string_pod}
use pipewire_native_rs.Pod.Text.RoundTrip.{string-RoundTrips}
use pipewire_native_rs.Pod.Array.{encode_elems, encode_array, array_pod}
use pipewire_native_rs.Pod.Types.{
  Choice, range, PodType, type_code, type_code-small, try_from, try_from-type_code, choice_type,
  Property, U32Enum,
}
use pipewire_native_rs.Pod.Property.{encode_property, property_pod}
use pipewire_native_rs.Pod.Property.RoundTrip.{property-RoundTrips}
use pipewire_native_rs.Pod.Choice.{encode_choice, choice_pod}
use pipewire_native_rs.Pod.Choice.RoundTrip.{choice-RoundTrips}
use pipewire_native_rs.Pod.Array.RoundTrip.{array-RoundTrips}

abbrev sevens : ℕ → List ℕ
sevens zero = []
sevens (suc n) = 7 ∷ sevens n

abbrev minus_three : ℤ
minus_three = negsuc 2

abbrev letters : List ℕ
letters = 104 ∷ 105 ∷ 33 ∷ []

abbrev numbers : List ℤ
numbers = pos 5 ∷ minus_three ∷ pos 9 ∷ []

primitive-RoundTrips_example :
    RoundTrip
      (primitive_pod int_primitive)
      minus_three
      minus_three
      (sevens 20)
      (encode int_primitive minus_three (sevens 20)).0
      16
unfolding encode pad_8 put_header copy within u32_to_ne_bytes
primitive-RoundTrips_example =
    primitive-RoundTrips int_primitive int-IsPrimitive minus_three (sevens 20)
      (encode int_primitive minus_three (sevens 20)).0 16 (omega arith) refl

string-RoundTrips_example :
    RoundTrip
      (string_pod (λ s. s))
      letters
      letters
      (sevens 20)
      (encode_string letters (sevens 20)).0
      16
unfolding encode_string pad_8 put_header copy u32_to_ne_bytes
string-RoundTrips_example =
    string-RoundTrips (λ s. s) letters (sevens 20) (encode_string letters (sevens 20)).0 16
      (refl, omega arith) refl

array-RoundTrips_example :
    RoundTrip
      (array_pod int_primitive)
      numbers
      numbers
      (sevens 40)
      (encode_array int_primitive numbers (sevens 40)).0
      32
unfolding encode_array encode_elems pad_8 put_header copy within u32_to_ne_bytes
array-RoundTrips_example =
    array-RoundTrips int_primitive int-IsPrimitive numbers (sevens 40)
      (encode_array int_primitive numbers (sevens 40)).0 32
      (((omega arith, (omega arith, (omega arith, tt))), omega arith), omega arith) refl

-- Three frame rates.
abbrev rates : Choice ℤ
rates = range (pos 30) (pos 24) (pos 60)

choice-RoundTrips_example :
    RoundTrip
      (choice_pod int_primitive)
      rates
      rates
      (sevens 60)
      (encode_choice int_primitive rates (sevens 60)).0
      40
unfolding encode_choice encode_elems pad_8 put_header copy within u32_to_ne_bytes
choice-RoundTrips_example =
    choice-RoundTrips int_primitive int-IsPrimitive rates (sevens 60)
      (encode_choice int_primitive rates (sevens 60)).0 40
      (((omega arith, (omega arith, (omega arith, tt))), omega arith), omega arith) refl

-- Keys are the type codes; four flags are known.
abbrev type_enum : U32Enum PodType
type_enum = record { into = type_code; from = try_from }

type_enum-IsU32Enum : IsU32Enum type_enum
type_enum-IsU32Enum = record { in_range = type_code-small; back = try_from-type_code }

abbrev four_flags : ℕ → Option ℕ
four_flags n = if ltb n 16 then some n else none

abbrev int_property : Property PodType ℤ
int_property = record { key = choice_type; flag_bits = 9; value = minus_three }

property-RoundTrips_example :
    RoundTrip
      (property_pod type_enum four_flags (primitive_pod int_primitive))
      int_property
      int_property
      (sevens 30)
      (encode_property type_enum (primitive_pod int_primitive) int_property (sevens 30)).0
      24
unfolding encode_property encode pad_8 put_header copy within u32_to_ne_bytes
property-RoundTrips_example =
    property-RoundTrips type_enum four_flags (primitive_pod int_primitive) type_enum-IsU32Enum
      (primitive-RoundTrips int_primitive int-IsPrimitive) int_property (sevens 30)
      (encode_property type_enum (primitive_pod int_primitive) int_property (sevens 30)).0 24
      (omega arith, (refl, omega arith)) refl
