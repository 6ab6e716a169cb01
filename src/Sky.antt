-- ===== src/Sky.antt =====
-- shared/sky_protocol.h: the portal's USB commands and responses. A byte is a number below 256; a
-- report is the list of its bytes.
pub mod Commands
pub mod Slots
pub mod Crc
use wireless_skyportal_conne.Prelude.{
  ℕ, zero, suc, ◌+◌, ◌-◌, ◌*◌, ◌/◌, ◌%◌, ◌^◌, bit_and, bit_or, bit_xor, Bool, List, [], ◌∷◌, ◌==◌,
  if◌then◌else◌, get_or, set, replicate, slice, overwrite, not, leb, ℤ, pos, negsuc,
}

abbrev pub sky_vid : ℕ
sky_vid = 0x1430

abbrev pub sky_pid : ℕ
sky_pid = 0x0150

abbrev pub sky_ep_in : ℕ
sky_ep_in = 0x81

abbrev pub sky_ep_out : ℕ
sky_ep_out = 0x01

abbrev pub sky_set_report_reqtype : ℕ
sky_set_report_reqtype = 0x21

abbrev pub sky_set_report_req : ℕ
sky_set_report_req = 0x09

abbrev pub sky_set_report_wvalue : ℕ
sky_set_report_wvalue = 0x0200

abbrev pub sky_report_len : ℕ
sky_report_len = 32

abbrev pub sky_cmd_ready : ℕ
sky_cmd_ready = 0x52

abbrev pub sky_cmd_activate : ℕ
sky_cmd_activate = 0x41

abbrev pub sky_cmd_color : ℕ
sky_cmd_color = 0x43

abbrev pub sky_cmd_status : ℕ
sky_cmd_status = 0x53

abbrev pub sky_cmd_query : ℕ
sky_cmd_query = 0x51

abbrev pub sky_cmd_write : ℕ
sky_cmd_write = 0x57

abbrev pub sky_block_size : ℕ
sky_block_size = 16

abbrev pub sky_num_blocks : ℕ
sky_num_blocks = 64

abbrev pub sky_dump_size : ℕ
sky_dump_size = sky_block_size * sky_num_blocks

abbrev pub sky_block_toy_id : ℕ
sky_block_toy_id = 1

abbrev pub sky_max_slots : ℕ
sky_max_slots = 16

-- `buf` is 32 bytes, and all of them are cleared: what was in it before does not show.
unfoldable pub cmd_clear : List ℕ
cmd_clear = replicate sky_report_len 0

unfoldable pub build_ready : List ℕ
unfolding cmd_clear
build_ready = set cmd_clear 0 sky_cmd_ready

unfoldable pub build_activate : Bool → List ℕ
unfolding cmd_clear
build_activate on = set (set cmd_clear 0 sky_cmd_activate) 1 (if on then 1 else 0)

unfoldable pub build_color : ℕ → ℕ → ℕ → List ℕ
unfolding cmd_clear
build_color r g b = set (set (set (set cmd_clear 0 sky_cmd_color) 1 r) 2 g) 3 b

unfoldable pub build_query : ℕ → ℕ → List ℕ
unfolding cmd_clear
build_query slot block = set (set (set cmd_clear 0 sky_cmd_query) 1 slot) 2 block

unfoldable pub build_write : ℕ → ℕ → List ℕ → List ℕ
unfolding cmd_clear overwrite
build_write slot block bytes =
    overwrite
      (set (set (set cmd_clear 0 sky_cmd_write) 1 (bit_or 0x10 (bit_and slot 0x0F) % 256)) 2 block)
      3 (slice bytes 0 16)

-- A byte of a report. The callers check the length before they read.
abbrev pub byte : List ℕ → ℕ → ℕ
byte r i = get_or r i 0

-- The u32 of the 16 slot states, two bits each.
unfoldable pub status_slots : List ℕ → ℕ
status_slots r =
    bit_or (bit_or (bit_or (byte r 1) (byte r 2 * 2 ^ 8)) (byte r 3 * 2 ^ 16)) (byte r 4 * 2 ^ 24)

unfoldable pub slot_present : ℕ → ℕ → ℕ
slot_present slots i = bit_and (slots / 2 ^ (2 * i)) 0x1

unfoldable pub slot_changed : ℕ → ℕ → ℕ
slot_changed slots i = bit_and (slots / 2 ^ (2 * i)) 0x2

-- The loop of `sky_present_mask` from slot `i` on, with `n` rounds left.
unfoldable pub mask_from : ℕ → ℕ → ℕ → ℕ → ℕ
unfolding slot_present
mask_from zero i slots m = m
mask_from (suc n) i slots m =
    mask_from n (suc i) slots (if slot_present slots i == 0 then m else bit_or m (2 ^ i % 2 ^ 16))

unfoldable pub present_mask : ℕ → ℕ
present_mask slots = mask_from sky_max_slots 0 slots 0

unfoldable pub is_query_resp : List ℕ → Bool
is_query_resp r = byte r 0 == sky_cmd_query

unfoldable pub query_ok : List ℕ → Bool
query_ok r = not (byte r 1 == 0x01)

-- `r[1] - 0x10`, an `int`.
unfoldable pub query_slot : List ℕ → ℤ
query_slot r = if leb 0x10 (byte r 1) then pos (byte r 1 - 0x10) else negsuc (0x0F - byte r 1)

unfoldable pub query_block : List ℕ → ℕ
query_block r = byte r 2

unfoldable pub query_data : List ℕ → List ℕ
query_data r = slice r 3 sky_block_size

unfoldable pub toy_id : List ℕ → ℕ
toy_id dump =
    bit_or (byte dump (sky_block_toy_id * sky_block_size))
      (byte dump (sky_block_toy_id * sky_block_size + 1) * 2 ^ 8)
