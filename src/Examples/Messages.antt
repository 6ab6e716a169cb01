-- ===== src/Examples/Messages.antt =====
-- The formats at concrete messages.
use wireless_skyportal_conne.Prelude.{
  refl, false, length, ℕ, ◌*◌, ◌/◌, ◌%◌, ◌^◌, ◌≡◌, ◌≢◌, arith, List, [], ◌∷◌,
}
use wireless_skyportal_conne.Sky.{sky_report_len, status_slots, present_mask}
use wireless_skyportal_conne.Sky.Slots.{present_mask-status_slots}
use wireless_skyportal_conne.Sky.Crc.{crc16}
use wireless_skyportal_conne.Sky.Crc.Detect.{crc16_detects}
use wireless_skyportal_conne.Usb.{
  portal_hid_report_desc, portal_string_desc, portal_string_desc_count, read_desc, read_item,
}

abbrev report : List ℕ
report = 0x53 ∷ 5 ∷ 4 ∷ 0 ∷ 0 ∷ 9 ∷ []

present_mask-status_slots_example : present_mask (status_slots report) / 2 ^ 5 % 2 ≡ 1
present_mask-status_slots_example =
    present_mask-status_slots report 5 (omega arith) (omega arith) (omega arith) (omega arith)
      (omega arith)

crc16_detects_example : crc16 (49 ∷ 50 ∷ 51 ∷ []) ≢ crc16 (49 ∷ 55 ∷ 51 ∷ [])
crc16_detects_example =
    crc16_detects (49 ∷ []) 50 55 (51 ∷ []) (omega arith, tt) (omega arith) (omega arith)
      (omega arith, tt) (omega arith)

-- By the report descriptor, a report in either direction is 32 bytes without an id.
report_sizes :
    let z =
      read_desc 16
        (record { report_size = 0; report_count = 0; input = 0; output = 0; has_id = false })
        portal_hid_report_desc in
    (z.input ≡ 8 * sky_report_len) × (z.output ≡ 8 * sky_report_len) × (z.has_id ≡ false)
unfolding read_desc read_item
report_sizes = (refl, refl, refl)

string_count : length portal_string_desc ≡ portal_string_desc_count
string_count = refl
