-- ===== src/ConstantTime/Examples.antt =====
-- The constant-time comparison at concrete inputs.
use haive_control.Prelude.{◌↔◌, ◌≡◌, true, text}
use haive_control.ConstantTime.{ct_eq, ct_eq_iff}

ct_eq_iff_example : (ct_eq (text "hdev_1") (text "hdev_2") ≡ true) ↔ (text "hdev_1" ≡ text "hdev_2")
ct_eq_iff_example = ct_eq_iff (text "hdev_1") (text "hdev_2")
