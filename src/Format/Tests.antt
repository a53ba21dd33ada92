-- ===== src/Format/Tests.antt =====
-- Concrete sizes and spans.
use vantric.Prelude.{ℕ, ◌≡◌, refl, ◌≤◌, ◌<◌, ◌*◌, ◌^◌, ◌++◌, ◌⊎◌, arith}
use vantric.Prelude.Text.{text, show, show_from}
use vantric.Format.{
  format_bytes, format_value, unit_name, unit_index, rounded, tenths, time_ago, span_words,
}
use vantric.Format.Sizes.{format_bytes-Fits}

format_bytes-Fits_example :
    (i : ℕ) × (format_bytes 1536 ≡ format_value 1536 (1024 ^ i) ++ (text " " ++ unit_name i))
    × (i ≤ 4)
    × ((i ≡ 0) ⊎ (1024 ^ i ≤ 1536))
    × ((i ≡ 4) ⊎ (1536 < 1024 * 1024 ^ i))
format_bytes-Fits_example = format_bytes-Fits 1536 (omega arith)

one_and_a_half : format_bytes 1536 ≡ text "1.5 KB"
unfolding format_bytes format_value unit_name unit_index rounded tenths show show_from text
one_and_a_half = refl

hours_ago : time_ago 1800000000000 1799982000 ≡ text "about 5 hours ago"
unfolding time_ago span_words rounded show show_from text
hours_ago = refl
