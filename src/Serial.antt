-- ===== src/Serial.antt =====
-- frontend/src/serial.ts: a hardware serial, or none where the maker left the field as it was.
pub mod Kept
use vantric.Prelude.{Bool, ◌||◌, Option, none, some, List, [], ◌∷◌, if◌then◌else◌}
use vantric.Prelude.Text.{Text, text, trim, is_empty, among}

abbrev pub placeholders : List Text
placeholders =
    text "to be filled by o.e.m."
    ∷ text "to be filled by oem"
    ∷ text "system serial number"
    ∷ text "default string"
    ∷ text "not specified"
    ∷ text "not applicable"
    ∷ text "unknown"
    ∷ text "none"
    ∷ text "n/a"
    ∷ text "0"
    ∷ []

-- `serial ?? ''`
abbrev pub serial_text : Option Text → Text
serial_text none = []
serial_text (some serial) = serial

unfoldable pub real_serial : (Text → Text) → Option Text → Option Text
unfolding trim among
real_serial to_lower_case serial =
    let value = trim (serial_text serial) in
    if is_empty value || among (to_lower_case value) placeholders then none else some value
