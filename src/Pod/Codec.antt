-- ===== src/Pod/Codec.antt =====
-- The trait `Pod` of spa/src/pod/mod.rs, and the sizes that all its implementations compute.
pub mod Laws
use pipewire_native_rs.Prelude.{
  ℕ, ◌+◌, ◌-◌, ◌%◌, ◌^◌, Bool, true, false, List, Option, none, some, Result, ok, err, ◌>>=◌, ok_or,
  ltb, ◌==◌, if◌then◌else◌,
}
use pipewire_native_rs.Prelude.Words.{checked_add}
use pipewire_native_rs.Frame.Header.{u32_to_ne_bytes}
use pipewire_native_rs.Pod.Bytes.{copy}
use pipewire_native_rs.Pod.Types.{PodError, invalid, PodType, type_code}

-- `encode` returns the buffer as it leaves it, and the number of bytes; `decode` returns the value
-- and the number of bytes that it takes up.
pub record Pod {ℓ κ} (T : Type ℓ) (D : Type κ) : Type (ℓ ⊔ κ) where
  pub encode : T → List ℕ → List ℕ × Result PodError ℕ
  pub decode : List ℕ → Result PodError (D × ℕ)

unfoldable pub pad_8 : ℕ → ℕ
pad_8 size = if size % 8 == 0 then 0 else 8 - size % 8

unfoldable pub pod_total_size : ℕ → Result PodError ℕ
pod_total_size body_size = do
  size ← ok_or (checked_add 8 body_size) invalid
  ok_or (checked_add size (pad_8 body_size)) invalid

-- The two words of a POD's header: the size of the body and the type.
unfoldable pub put_header : ℕ → PodType → List ℕ → List ℕ
put_header size kind buffer =
    copy 4 (u32_to_ne_bytes (type_code kind)) (copy 0 (u32_to_ne_bytes (size % 2 ^ 32)) buffer)
