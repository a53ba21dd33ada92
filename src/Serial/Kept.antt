-- ===== src/Serial/Kept.antt =====
-- When a serial is shown.
use vantric.Prelude.{false, Option, some, ◌≡◌, ◌↔◌, arith}
use vantric.Prelude.Text.{Text, trim, is_empty, among}
use vantric.Serial.{placeholders, serial_text, real_serial}

-- A serial that is shown is the field without the white space around it, and no placeholder.
real_serial_iff :
    (low : Text → Text) (serial : Option Text) (value : Text)
    → (real_serial low serial ≡ some value) ↔ (
        (trim (serial_text serial) ≡ value)
        × (is_empty value ≡ false)
        × (among (low value) placeholders ≡ false))
unfolding real_serial
real_serial_iff low serial value = ground arith
