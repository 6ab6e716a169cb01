-- ===== src/Usb.antt =====
-- console-side/src/usb_descriptors.c: what the board tells the games console that it is.
use wireless_skyportal_conne.Prelude.{
  ℕ, zero, suc, ◌≡◌, ◌∙◌, ap₂, length-append, length, ◌++◌, ◌+◌, ◌*◌, ◌/◌, ◌%◌, Bool, true, List,
  [], ◌∷◌, ◌==◌, if◌then◌else◌, take, drop,
}
use wireless_skyportal_conne.Sky.{sky_vid, sky_pid}

abbrev pub portal_hid_report_desc : List ℕ
portal_hid_report_desc =
    0x06 ∷ 0x00 ∷ 0xFF ∷ 0x09 ∷ 0x01 ∷ 0xA1 ∷ 0x01 ∷ 0x19 ∷ 0x01 ∷ 0x29 ∷ 0x40 ∷ 0x15 ∷ 0x00 ∷ 0x26
    ∷ 0xFF ∷ 0x00 ∷ 0x75 ∷ 0x08 ∷ 0x95 ∷ 0x20 ∷ 0x81 ∷ 0x00 ∷ 0x19 ∷ 0x01 ∷ 0x29 ∷ 0xFF ∷ 0x91
    ∷ 0x00 ∷ 0xC0 ∷ []

-- `tusb_desc_device_t`, in the order of its fields.
pub record DeviceDesc : Type 0 where
  pub length : ℕ
  pub descriptor_type : ℕ
  pub bcd_usb : ℕ
  pub device_class : ℕ
  pub device_sub_class : ℕ
  pub device_protocol : ℕ
  pub max_packet_size0 : ℕ
  pub id_vendor : ℕ
  pub id_product : ℕ
  pub bcd_device : ℕ
  pub manufacturer : ℕ
  pub product : ℕ
  pub serial_number : ℕ
  pub num_configurations : ℕ

-- `size`, `type` and `endpoint0` are TinyUSB's constants.
abbrev pub portal_device_desc : ℕ → ℕ → ℕ → DeviceDesc
portal_device_desc size type endpoint0 = record {
  length = size;
  descriptor_type = type;
  bcd_usb = 0x0200;
  device_class = 0x00;
  device_sub_class = 0x00;
  device_protocol = 0x00;
  max_packet_size0 = endpoint0;
  id_vendor = sky_vid;
  id_product = sky_pid;
  bcd_device = 0x0100;
  manufacturer = 0x01;
  product = 0x02;
  serial_number = 0x03;
  num_configurations = 0x01;
}

-- The macros of TinyUSB that build a configuration descriptor: the bytes for their arguments, and the two
-- lengths that it gives for them.
pub record TinyUsb : Type 0 where
  pub config_descriptor :
      (config_num interface_count string_index total_len attribute power_ma : ℕ) → List ℕ
  pub hid_inout_descriptor :
      (interface_num string_index boot_protocol report_desc_len ep_out ep_in ep_size interval : ℕ)
      → List ℕ
  pub config_desc_len : ℕ
  pub hid_inout_desc_len : ℕ
  pub hid_itf_protocol_none : ℕ

abbrev pub config_total_len : TinyUsb → ℕ
config_total_len tusb = tusb.config_desc_len + tusb.hid_inout_desc_len

abbrev pub portal_config_desc : TinyUsb → List ℕ
portal_config_desc tusb =
    tusb.config_descriptor 1 1 0 (config_total_len tusb) 0x00 100
    ++ tusb.hid_inout_descriptor 0 4 tusb.hid_itf_protocol_none (length portal_hid_report_desc) 0x02
        0x81 64 1

-- The strings, less their final zeros: the language, the maker, the product, the serial number, the
-- interface.
abbrev pub portal_string_desc : List (List ℕ)
portal_string_desc =
    (0x09 ∷ 0x04 ∷ [])
    ∷ (b'A' ∷ b'c' ∷ b't' ∷ b'i' ∷ b'v' ∷ b'i' ∷ b's' ∷ b'i' ∷ b'o' ∷ b'n' ∷ [])
    ∷ (b'S' ∷ b'p' ∷ b'y' ∷ b'r' ∷ b'o' ∷ b' ' ∷ b'P' ∷ b'o' ∷ b'r' ∷ b't' ∷ b'a' ∷ [])
    ∷ (b'0' ∷ b'0' ∷ b'0' ∷ b'1' ∷ [])
    ∷ (b'P' ∷ b'o' ∷ b'r' ∷ b't' ∷ b'a' ∷ b'l' ∷ [])
    ∷ []

abbrev pub portal_string_desc_count : ℕ
portal_string_desc_count = 5

-- `tud_hid_descriptor_report_cb`, whatever the instance.
abbrev pub descriptor_report : ℕ → List ℕ
descriptor_report instance_number = portal_hid_report_desc

-- What a host reads from a report descriptor, by the short items of the HID specification: the sizes of
-- the input and the output report in bits, and whether reports have an id.
pub record Sizes : Type 0 where
  pub report_size : ℕ
  pub report_count : ℕ
  pub input : ℕ
  pub output : ℕ
  pub has_id : Bool

-- The bytes of an item after its first.
abbrev pub item_length : ℕ → ℕ
item_length prefix = if prefix % 4 == 3 then 4 else prefix % 4

abbrev pub number : List ℕ → ℕ
number [] = 0
number (b ∷ bytes) = b + 256 * number bytes

unfoldable pub read_item : Sizes → ℕ → ℕ → Sizes
read_item z tag value =
    if tag == 0x1D
    then record z { report_size = value }
    else if tag == 0x25
    then record z { report_count = value }
    else if tag == 0x20
    then record z { input = z.input + z.report_size * z.report_count }
    else if tag == 0x24
    then record z { output = z.output + z.report_size * z.report_count }
    else if tag == 0x21
    then record z { has_id = true }
    else z

-- At most `fuel` items.
unfoldable pub read_desc : ℕ → Sizes → List ℕ → Sizes
read_desc zero z bytes = z
read_desc (suc fuel) z [] = z
read_desc (suc fuel) z (prefix ∷ bytes) =
    read_desc fuel (read_item z (prefix / 4) (number (take (item_length prefix) bytes)))
      (drop (item_length prefix) bytes)

-- The total length that the configuration descriptor gives is its length, if the macros give as many bytes as
-- TinyUSB says.
length-portal_config_desc :
    (tusb : TinyUsb)
    → ((a b c d e f : ℕ) → length (tusb.config_descriptor a b c d e f) ≡ tusb.config_desc_len)
    → ((a b c d e f g h : ℕ)
        → length (tusb.hid_inout_descriptor a b c d e f g h) ≡ tusb.hid_inout_desc_len)
    → length (portal_config_desc tusb) ≡ config_total_len tusb
length-portal_config_desc tusb h k =
    length-append (tusb.config_descriptor 1 1 0 (config_total_len tusb) 0x00 100) (
      tusb.hid_inout_descriptor 0 4 tusb.hid_itf_protocol_none (length portal_hid_report_desc) 0x02
        0x81 64 1)
    ∙ ap₂ (λ m n. m + n) (h 1 1 0 (config_total_len tusb) 0x00 100)
        (k 0 4 tusb.hid_itf_protocol_none (length portal_hid_report_desc) 0x02 0x81 64 1)
