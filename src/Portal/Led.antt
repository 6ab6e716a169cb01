-- ===== src/Portal/Led.antt =====
-- portal-side/src/led.c: the LED, on a channel of the RMT driver that may not be had.
use wireless_skyportal_conne.Prelude.{
  ℕ, ◌≡◌, refl, Bool, true, false, ◌&&◌, not, List, [], ◌∷◌, if◌then◌else◌,
}

abbrev pub led_gpio : ℕ
led_gpio = 48

-- `rmt_new_tx_channel`, `rmt_new_bytes_encoder` with the ticks of the two levels of a 0 and of a 1, and
-- `rmt_enable`.
pub data Call : Type 0 where
  new_tx_channel : (gpio mem_block_symbols resolution_hz queue_depth : ℕ) → Call
  new_bytes_encoder : (high0 low0 high1 low1 : ℕ) → Call
  enable : Call

-- `channel` and `encoder` say whether these two calls return `ESP_OK`. The result is whether `s_chan` is set,
-- and the calls made.
unfoldable pub led_init : Bool → Bool → Bool × List Call
led_init channel encoder =
    if not channel
    then (false, new_tx_channel led_gpio 64 10000000 4 ∷ [])
    else if not encoder
    then (false, new_tx_channel led_gpio 64 10000000 4 ∷ new_bytes_encoder 3 9 9 3 ∷ [])
    else (true, new_tx_channel led_gpio 64 10000000 4 ∷ new_bytes_encoder 3 9 9 3 ∷ enable ∷ [])

-- `led_set(r, g, b)`: the bytes for the WS2812, in its order; none without a channel.
abbrev pub led_set : Bool → ℕ → ℕ → ℕ → List ℕ
led_set has_chan r g b = if has_chan then g ∷ r ∷ b ∷ [] else []

-- The LED is set exactly if both could be had.
led_set-led_init :
    (channel encoder : Bool) (r g b : ℕ)
    → led_set (led_init channel encoder).0 r g b
      ≡ (if channel && encoder then g ∷ r ∷ b ∷ [] else [])
unfolding led_init
led_set-led_init false encoder r g b = refl
led_set-led_init true false r g b = refl
led_set-led_init true true r g b = refl
