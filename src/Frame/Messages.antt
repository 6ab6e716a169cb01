-- ===== src/Frame/Messages.antt =====
-- The other messages of shared/link_protocol.h, of the protocol's first version: their layout.
use wireless_skyportal_conne.Prelude.{
  ℕ, ◌*◌, ◌≤◌, ◌≡◌, ◌≢◌, arith, refl, List, [], ◌∷◌, ◌++◌, length,
}
use wireless_skyportal_conne.Frame.{
  Hdr, hdr_bytes, u16_bytes, link_max_payload, tunnel_bytes, link_t_hello, link_t_ack,
  link_t_tun_in, link_t_tun_out, link_t_tun_write, link_t_tun_outep,
}

-- The types of these messages, the states of the link, and the reasons of a refusal.
abbrev pub link_t_health : ℕ
link_t_health = 0x02

abbrev pub link_t_presence : ℕ
link_t_presence = 0x10

abbrev pub link_t_img_begin : ℕ
link_t_img_begin = 0x11

abbrev pub link_t_img_chunk : ℕ
link_t_img_chunk = 0x12

abbrev pub link_t_img_end : ℕ
link_t_img_end = 0x13

abbrev pub link_t_write_begin : ℕ
link_t_write_begin = 0x20

abbrev pub link_t_write_block : ℕ
link_t_write_block = 0x21

abbrev pub link_t_write_commit : ℕ
link_t_write_commit = 0x22

abbrev pub link_t_nack : ℕ
link_t_nack = 0x31

abbrev pub link_state_scanning : ℕ
link_state_scanning = 0x00

abbrev pub link_state_linked : ℕ
link_state_linked = 0x01

abbrev pub link_state_busy : ℕ
link_state_busy = 0x02

abbrev pub link_err_crc : ℕ
link_err_crc = 0x01

abbrev pub link_err_seq : ℕ
link_err_seq = 0x02

abbrev pub link_err_verify : ℕ
link_err_verify = 0x03

abbrev pub link_err_lowpower : ℕ
link_err_lowpower = 0x04

abbrev pub link_err_nofigure : ℕ
link_err_nofigure = 0x05

-- `link_health_t`, with the byte of the signed `rssi`
abbrev pub health_bytes : Hdr → ℕ → ℕ → ℕ → List ℕ
health_bytes hdr state rssi battery = hdr_bytes hdr ++ (state ∷ rssi ∷ battery ∷ [])

-- `link_fig_t`
pub record Fig : Type 0 where
  pub slot : ℕ
  pub toy_id : ℕ

abbrev pub figs_bytes : List Fig → List ℕ
figs_bytes [] = []
figs_bytes (fig ∷ figs) = (fig.slot ∷ u16_bytes fig.toy_id) ++ figs_bytes figs

-- `link_presence_t`
abbrev pub presence_bytes : Hdr → ℕ → ℕ → List Fig → List ℕ
presence_bytes hdr present_mask count figs =
    hdr_bytes hdr ++ (u16_bytes present_mask ++ (count ∷ figs_bytes figs))

-- `link_img_begin_t`
abbrev pub img_begin_bytes : Hdr → ℕ → ℕ → ℕ → ℕ → List ℕ
img_begin_bytes hdr slot toy_id total_len crc16 =
    hdr_bytes hdr ++ (slot ∷ u16_bytes toy_id ++ (u16_bytes total_len ++ u16_bytes crc16))

-- `link_img_chunk_t`
abbrev pub img_chunk_bytes : Hdr → ℕ → ℕ → ℕ → List ℕ → List ℕ
img_chunk_bytes hdr slot offset len chunk =
    hdr_bytes hdr ++ (slot ∷ u16_bytes offset ++ (len ∷ chunk))

-- `link_img_end_t`
abbrev pub img_end_bytes : Hdr → ℕ → List ℕ
img_end_bytes hdr slot = hdr_bytes hdr ++ (slot ∷ [])

-- `link_write_begin_t`
abbrev pub write_begin_bytes : Hdr → ℕ → ℕ → List ℕ
write_begin_bytes hdr slot count = hdr_bytes hdr ++ (slot ∷ count ∷ [])

-- `link_write_block_t`
abbrev pub write_block_bytes : Hdr → ℕ → ℕ → List ℕ → List ℕ
write_block_bytes hdr slot block bytes = hdr_bytes hdr ++ (slot ∷ block ∷ bytes)

-- `link_write_commit_t`
abbrev pub write_commit_bytes : Hdr → ℕ → ℕ → List ℕ
write_commit_bytes hdr slot crc16 = hdr_bytes hdr ++ (slot ∷ u16_bytes crc16)

length-figs_bytes : (figs : List Fig) → length (figs_bytes figs) ≡ 3 * length figs
length-figs_bytes [] = refl
length-figs_bytes (fig ∷ figs) = omega (arith, length-figs_bytes figs)

-- With the 16 figures, the 200 bytes of a chunk or of a report and the 16 bytes of a block that they are
-- declared with, the messages are 9, 57, 13, 210, 7, 8, 24, 9 and 207 bytes long, and the longest fits a
-- frame of 250 bytes.
messages_fit :
    (hdr : Hdr) (a b c d : ℕ) (figs : List Fig) (chunk block : List ℕ)
    → length figs ≡ 16
    → length chunk ≡ 200
    → length block ≡ 16
    → (length (health_bytes hdr a b c) ≡ 9)
      × (length (presence_bytes hdr a b figs) ≡ 57)
      × (length (img_begin_bytes hdr a b c d) ≡ 13)
      × (length (img_chunk_bytes hdr a b c chunk) ≡ 210)
      × (length (img_end_bytes hdr a) ≡ 7)
      × (length (write_begin_bytes hdr a b) ≡ 8)
      × (length (write_block_bytes hdr a b block) ≡ 24)
      × (length (write_commit_bytes hdr a b) ≡ 9)
      × (length (tunnel_bytes hdr a chunk) ≡ 207)
      × (210 ≤ link_max_payload)
messages_fit hdr a b c d figs chunk block h k l = (
  refl,
  omega (arith, length-figs_bytes figs, h),
  refl,
  omega (arith, k),
  refl,
  refl,
  omega (arith, l),
  refl,
  omega (arith, k),
  omega arith,
)

-- No two kinds of message have the same type.
abbrev pub Differs : ℕ → List ℕ → Type 0
Differs n [] = Unit {0}
Differs n (m ∷ ms) = n ≢ m × Differs n ms

abbrev pub AllDiffer : List ℕ → Type 0
AllDiffer [] = Unit {0}
AllDiffer (n ∷ ns) = Differs n ns × AllDiffer ns

types_differ : AllDiffer (
    link_t_hello ∷ link_t_health ∷ link_t_presence ∷ link_t_img_begin ∷ link_t_img_chunk
    ∷ link_t_img_end ∷ link_t_write_begin ∷ link_t_write_block ∷ link_t_write_commit ∷ link_t_ack
    ∷ link_t_nack ∷ link_t_tun_in ∷ link_t_tun_out ∷ link_t_tun_write ∷ link_t_tun_outep ∷ [])
types_differ = omega arith
