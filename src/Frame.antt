-- ===== src/Frame.antt =====
-- shared/link_protocol.h: the messages between the two boards. The structs are packed and
-- little-endian, so a message is the list of its bytes, in the order of the fields.
pub mod Wire
pub mod Messages
use wireless_skyportal_conne.Prelude.{
  ℕ, ◌+◌, ◌-◌, ◌*◌, ◌/◌, ◌%◌, ◌^◌, Bool, ◌&&◌, List, [], ◌∷◌, ◌++◌, ◌==◌, get_or, Option, none,
  some, length, slice, leb, if◌then◌else◌,
}

abbrev pub link_magic : ℕ
link_magic = 0x4B53

abbrev pub link_version : ℕ
link_version = 1

abbrev pub link_max_payload : ℕ
link_max_payload = 250

abbrev pub link_chunk_data : ℕ
link_chunk_data = 200

abbrev pub link_t_hello : ℕ
link_t_hello = 0x01

abbrev pub link_t_ack : ℕ
link_t_ack = 0x30

abbrev pub link_t_tun_in : ℕ
link_t_tun_in = 0x40

abbrev pub link_t_tun_out : ℕ
link_t_tun_out = 0x41

abbrev pub link_t_tun_write : ℕ
link_t_tun_write = 0x42

abbrev pub link_t_tun_outep : ℕ
link_t_tun_outep = 0x43

abbrev pub link_role_portal : ℕ
link_role_portal = 0x01

abbrev pub link_role_console : ℕ
link_role_console = 0x02

abbrev pub link_ok : ℕ
link_ok = 0x00

-- The room of `link_tunnel_t.data`.
abbrev pub tunnel_data_size : ℕ
tunnel_data_size = 200

-- `link_hdr_t`
pub record Hdr : Type 0 where
  pub magic : ℕ
  pub version : ℕ
  pub type : ℕ
  pub seq : ℕ

abbrev pub sizeof_hdr : ℕ
sizeof_hdr = 6

abbrev pub sizeof_hello : ℕ
sizeof_hello = sizeof_hdr + 3

abbrev pub sizeof_ack : ℕ
sizeof_ack = sizeof_hdr + 3

-- A `uint16_t` in memory, and read from memory.
abbrev pub u16_bytes : ℕ → List ℕ
u16_bytes n = n % 256 ∷ n / 256 % 256 ∷ []

abbrev pub u16_at : List ℕ → ℕ → ℕ
u16_at bytes i = get_or bytes i 0 + get_or bytes (i + 1) 0 * 256

-- `link_hdr_init`
abbrev pub hdr_init : ℕ → ℕ → Hdr
hdr_init type seq = record { magic = link_magic; version = link_version; type = type; seq = seq }

abbrev pub hdr_valid : Hdr → Bool
hdr_valid h = h.magic == link_magic && h.version == link_version

abbrev pub hdr_bytes : Hdr → List ℕ
hdr_bytes h = u16_bytes h.magic ++ (h.version ∷ h.type ∷ u16_bytes h.seq)

-- `(const link_hdr_t *)bytes`
abbrev pub hdr_at : List ℕ → Hdr
hdr_at bytes = record {
  magic = u16_at bytes 0;
  version = get_or bytes 2 0;
  type = get_or bytes 3 0;
  seq = u16_at bytes 4;
}

-- `link_hello_t`
abbrev pub hello_bytes : Hdr → ℕ → ℕ → ℕ → List ℕ
hello_bytes hdr role fw_major fw_minor = hdr_bytes hdr ++ (role ∷ fw_major ∷ fw_minor ∷ [])

abbrev pub hello_role : List ℕ → ℕ
hello_role bytes = get_or bytes 6 0

-- `link_ack_t`
abbrev pub ack_bytes : Hdr → ℕ → ℕ → List ℕ
ack_bytes hdr ack_seq status = hdr_bytes hdr ++ (u16_bytes ack_seq ++ (status ∷ []))

abbrev pub ack_seq_at : List ℕ → ℕ
ack_seq_at bytes = u16_at bytes 6

-- `link_tunnel_t`, as much of it as is sent: `sizeof(link_hdr_t) + 1 + m.len` bytes.
abbrev pub tunnel_bytes : Hdr → ℕ → List ℕ → List ℕ
tunnel_bytes hdr len payload = hdr_bytes hdr ++ (len ∷ payload)

abbrev pub tunnel_len : List ℕ → ℕ
tunnel_len bytes = get_or bytes 6 0

abbrev pub tunnel_data : ℕ
tunnel_data = 7

-- `n` bytes from `m->data` on, for a reader that follows the pointer; `none` where that runs past the
-- end of the buffer that the message lies in.
unfoldable pub tunnel_payload : List ℕ → ℕ → Option (List ℕ)
tunnel_payload buffer n =
    if leb (tunnel_data + n) (length buffer) then some (slice buffer tunnel_data n) else none

unfoldable pub img_num_chunks : ℕ → ℕ
img_num_chunks total_len = (total_len + link_chunk_data - 1) / link_chunk_data
