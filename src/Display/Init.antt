-- ===== src/Display/Init.antt =====
-- `display_init` of console-side/src/display.c, with each way in which it can fail.
use wireless_skyportal_conne.Prelude.{
  ℕ, ◌*◌, ◌≡◌, Bool, true, false, not, List, [], ◌∷◌, ◌++◌, ◌-◌, ◌<◌, ◌==◌, replicate,
  if◌then◌else◌,
}
use wireless_skyportal_conne.Display.{Bitmap, lcd_w, lcd_h, display_fill, rgb565}

abbrev pub pin_mosi : ℕ
pin_mosi = 3

abbrev pub pin_clk : ℕ
pin_clk = 5

abbrev pub pin_cs : ℕ
pin_cs = 4

abbrev pub pin_dc : ℕ
pin_dc = 2

abbrev pub pin_rst : ℕ
pin_rst = 1

-- The backlight, on at level 0.
abbrev pub pin_bl : ℕ
pin_bl = 38

-- The calls of the GPIO driver, of the SPI driver, and of the panel's driver.
pub data Call : Type 0 where
  gpio_config_output : (pin : ℕ) → Call
  gpio_set_level : (pin level : ℕ) → Call
  spi_bus_initialize : (clk mosi max_transfer : ℕ) → Call
  new_panel_io : (cs dc : ℕ) → Call
  new_panel : (reset_gpio : ℕ) (bgr : Bool) (bits_per_pixel : ℕ) → Call
  panel_reset : Call
  panel_init : Call
  panel_invert_color : (on : Bool) → Call
  panel_set_gap : (x y : ℕ) → Call
  panel_swap_xy : (on : Bool) → Call
  panel_mirror : (x y : Bool) → Call
  panel_disp_on_off : (on : Bool) → Call
  draw_bitmap : Bitmap → Call

abbrev pub draws : List Bitmap → List Call
draws [] = []
draws (b ∷ bs) = draw_bitmap b ∷ draws bs

-- The calls on the panel that was made.
unfoldable pub panel_calls : List Call
panel_calls =
    panel_reset
    ∷ panel_init
    ∷ panel_invert_color true
    ∷ panel_set_gap 1 26
    ∷ panel_swap_xy true
    ∷ panel_mirror false true
    ∷ panel_disp_on_off true
    ∷ gpio_set_level pin_bl 0
    ∷ draws (display_fill true (rgb565 0 0 0))

-- `bus`, `io` and `panel` say whether these three calls return `ESP_OK`. The result is whether `s_panel` is
-- set, and the calls made.
unfoldable pub display_init : Bool → Bool → Bool → Bool × List Call
display_init bus io panel =
    let first =
      gpio_config_output pin_bl
      ∷ gpio_set_level pin_bl 1
      ∷ spi_bus_initialize pin_clk pin_mosi (lcd_w * lcd_h * 2)
      ∷ [] in
    if not bus
    then (false, first)
    else if not io
    then (false, first ++ (new_panel_io pin_cs pin_dc ∷ []))
    else if not panel
    then (false, first ++ (new_panel_io pin_cs pin_dc ∷ new_panel pin_rst true 16 ∷ []))
    else (true, first ++ (new_panel_io pin_cs pin_dc ∷ new_panel pin_rst true 16 ∷ panel_calls))

-- The level of the backlight after some calls, `level` before.
abbrev pub backlight : ℕ → List Call → ℕ
backlight level [] = level
backlight level (gpio_set_level pin new_level ∷ calls) =
    backlight (if pin == pin_bl then new_level else level) calls
backlight level (gpio_config_output pin ∷ calls) = backlight level calls
backlight level (spi_bus_initialize clk mosi n ∷ calls) = backlight level calls
backlight level (new_panel_io cs dc ∷ calls) = backlight level calls
backlight level (new_panel reset_gpio bgr bits ∷ calls) = backlight level calls
backlight level (panel_reset ∷ calls) = backlight level calls
backlight level (panel_init ∷ calls) = backlight level calls
backlight level (panel_invert_color on ∷ calls) = backlight level calls
backlight level (panel_set_gap x y ∷ calls) = backlight level calls
backlight level (panel_swap_xy on ∷ calls) = backlight level calls
backlight level (panel_mirror x y ∷ calls) = backlight level calls
backlight level (panel_disp_on_off on ∷ calls) = backlight level calls
backlight level (draw_bitmap b ∷ calls) = backlight level calls

-- What is drawn.
abbrev pub drawn : List Call → List Bitmap
drawn [] = []
drawn (draw_bitmap b ∷ calls) = b ∷ drawn calls
drawn (gpio_set_level pin level ∷ calls) = drawn calls
drawn (gpio_config_output pin ∷ calls) = drawn calls
drawn (spi_bus_initialize clk mosi n ∷ calls) = drawn calls
drawn (new_panel_io cs dc ∷ calls) = drawn calls
drawn (new_panel reset_gpio bgr bits ∷ calls) = drawn calls
drawn (panel_reset ∷ calls) = drawn calls
drawn (panel_init ∷ calls) = drawn calls
drawn (panel_invert_color on ∷ calls) = drawn calls
drawn (panel_set_gap x y ∷ calls) = drawn calls
drawn (panel_swap_xy on ∷ calls) = drawn calls
drawn (panel_mirror x y ∷ calls) = drawn calls
drawn (panel_disp_on_off on ∷ calls) = drawn calls

-- The bitmaps stand one below the other from row `y` to the last row of the display, each as wide as it is,
-- and every pixel of them has that colour.
abbrev pub IsFilled : ℕ → ℕ → List Bitmap → Type 0
IsFilled color y [] = y ≡ lcd_h
IsFilled color y (b ∷ bs) =
    (b.x_start ≡ 0)
    × (b.x_end ≡ lcd_w)
    × (b.y_start ≡ y)
    × (y < b.y_end)
    × (b.pixels ≡ replicate (lcd_w * (b.y_end - y)) color)
    × IsFilled color b.y_end bs

-- The whole display in that colour, or nothing without a panel.
abbrev pub Fills : Bool → ℕ → List Bitmap → Type 0
Fills true color bs = IsFilled color 0 bs
Fills false color bs = bs ≡ []
