-- ===== src/Device/Layout/Tests.antt =====
-- A device of 1 GiB with zones of 1 MiB.
use lchfs.Common.{ℕ, ◌*◌, ◌^◌, ◌≡◌, refl, arith, none, some, List, [], ◌∷◌, length, true}
use lchfs.Device.Layout.{DeviceLabel, is_valid, plan_layout, label_of, is_power_of_two}
use lchfs.Device.Layout.Planned.{plan_layout-is_valid}

abbrev encode : DeviceLabel → List ℕ
encode l = l.checksum ∷ l.device_size ∷ l.device_uuid

abbrev crc : List ℕ → ℕ
crc bytes = length bytes

abbrev label : DeviceLabel
label = label_of encode crc (2 ^ 30) (2 ^ 20) (64 * 1024 * 1024) (1 ∷ 2 ∷ [])

planned : plan_layout encode crc (2 ^ 30) (2 ^ 20) none (1 ∷ 2 ∷ []) ≡ some label
unfolding plan_layout is_power_of_two
planned = refl

plan_layout-is_valid_example : is_valid encode crc label ≡ true
plan_layout-is_valid_example =
    plan_layout-is_valid encode crc (2 ^ 30) (2 ^ 20) none (1 ∷ 2 ∷ []) label (omega arith) tt
      planned
