-- ===== src/SmoothStream.antt =====
-- apps/desktop/web/lib/smooth-stream.ts: how much of a streamed text is shown in the next frame.
-- Offsets and milliseconds are natural numbers; `Math.ceil(a / b)` is written out.
pub mod Reveal
mod Tests
use open_pi.Prelude.{
  ℕ, ◌+◌, ◌-◌, ◌*◌, ◌/◌, Bool, ◌&&◌, ltb, leb, if◌then◌else◌, min, max, length, get_or,
}
use open_pi.Text.{Text}

abbrev stream_speed_slow : ℕ
stream_speed_slow = 90

abbrev stream_speed_medium : ℕ
stream_speed_medium = 240

abbrev stream_speed_fast : ℕ
stream_speed_fast = 720

abbrev stream_speed_catch_up : ℕ
stream_speed_catch_up = 1_800

abbrev pub is_high_surrogate : ℕ → Bool
is_high_surrogate value = leb 0xd800 value && leb value 0xdbff

abbrev pub is_low_surrogate : ℕ → Bool
is_low_surrogate value = leb 0xdc00 value && leb value 0xdfff

characters_per_second : ℕ → ℕ
characters_per_second remaining =
    if leb remaining 24
    then stream_speed_slow
    else if leb remaining 120
    then stream_speed_medium
    else if leb remaining 480
    then stream_speed_fast
    else stream_speed_catch_up

-- `Math.ceil((charactersPerSecond * Math.min(Math.max(elapsedMs, 16), 50)) / 1_000)`
timed_step : ℕ → ℕ → ℕ
timed_step remaining elapsed_ms =
    (characters_per_second remaining * min (max elapsed_ms 16) 50 + 999) / 1_000

-- `Math.ceil(remaining * 0.08)` is the ceiling of `remaining * 2 / 25`
backlog_step : ℕ → ℕ
backlog_step remaining = if ltb 480 remaining then min ((remaining * 2 + 24) / 25) 96 else 0

step : ℕ → ℕ → ℕ
unfolding characters_per_second timed_step backlog_step
step remaining elapsed_ms = max 1 (max (timed_step remaining elapsed_ms) (backlog_step remaining))

-- the offset is between the two halves of a surrogate pair
abbrev pub splits_pair : Text → ℕ → Bool
splits_pair target offset =
    ltb offset (length target)
    && is_high_surrogate (get_or target (offset - 1) 0)
    && is_low_surrogate (get_or target offset 0)

unfoldable pub next_streaming_text_offset : ℕ → Text → ℕ → ℕ
unfolding step
next_streaming_text_offset current_offset target elapsed_ms =
    let remaining = length target - current_offset in
    let next_offset = min (length target) (current_offset + step remaining elapsed_ms) in
    if leb (length target) current_offset
    then length target
    else if splits_pair target next_offset
    then next_offset + 1
    else next_offset
