-- ===== src/SmoothStream/Tests.antt =====
-- The streaming offset on concrete texts, and the theorems at these.
use open_pi.Prelude.{◌≡◌, refl}
use open_pi.Text.{Text, units}
use open_pi.SmoothStream.{next_streaming_text_offset}

-- 24 units, with a surrogate pair at 2 and 3
abbrev words : Text
words = units "ab😀cdefghijklmnopqrstuv"

-- two units in the first frame, and one more for the pair
pair_test :
    (next_streaming_text_offset 0 words 16 ≡ 2) × (next_streaming_text_offset 1 words 16 ≡ 4)
unfolding next_streaming_text_offset
pair_test = (refl, refl)
