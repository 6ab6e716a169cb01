-- ===== src/Portal.antt =====
-- portal-side/src/main.c: the bridge on the side of the real portal, with the backups of figures.
-- Time, the queue, the NVS store and the transfers are the parameters; a handler returns the new
-- statics and the calls that it makes to the radio and to the USB host, in order.
pub mod Snoop
pub mod Status
pub mod Deliver
pub mod Flash
pub mod Boot
pub mod Keys
pub mod Backup
pub mod Restore
pub mod Roundtrip
pub mod Led
pub mod Button
use wireless_skyportal_conne.Prelude.{
  ℕ, zero, suc, ◌+◌, ◌-◌, ◌*◌, ◌/◌, ◌%◌, ◌^◌, bit_and, bit_or, Bool, true, false, ◌&&◌, not, List,
  [], ◌∷◌, ◌++◌, ◌==◌, ltb, leb, if◌then◌else◌, get_or, set, slice, take, drop, replicate,
  overwrite, length, Option, none, some,
}
use wireless_skyportal_conne.Sky.{
  byte, build_write, sky_cmd_query, sky_cmd_status, sky_max_slots, sky_num_blocks, sky_block_size,
  sky_dump_size, status_slots,
}
use wireless_skyportal_conne.Frame.{
  hdr_init, hdr_at, tunnel_bytes, tunnel_len, tunnel_data, tunnel_data_size, tunnel_payload,
  ack_bytes, link_t_tun_in, link_t_tun_out, link_t_tun_outep, link_t_tun_write, link_t_ack, link_ok,
}
use wireless_skyportal_conne.Rtos.{QueueApi}

-- `bak_q` is what waits in `s_bak_q`; `none` is a null handle.
pub record Portal : Type 0 where
  pub snooped : List (List ℕ)
  pub backed_up : List Bool
  pub present : ℕ
  pub last_write_ms : ℕ
  pub bak_q : Option (List (List ℕ))
  pub bak : List ℕ

-- The calls that leave the module. The bytes of a transfer are `none` where the callee is given a
-- length that runs past the end of the buffer.
pub data Call : Type 0 where
  link_send : List ℕ → Call
  tunnel_host_send : Option (List ℕ) → Call
  tunnel_host_send_out : Option (List ℕ) → Call

abbrev pub bak_q_length : ℕ
bak_q_length = 4

-- The statics at start, after `app_main` has created the queue.
abbrev pub start : Portal
start = record {
  snooped = replicate sky_max_slots (replicate sky_dump_size 0);
  backed_up = replicate sky_max_slots false;
  present = 0;
  last_write_ms = 0;
  bak_q = some [];
  bak = replicate sky_dump_size 0;
}

-- `s_snoop[slot]`, for a slot below 16.
abbrev pub snooped_at : Portal → ℕ → List ℕ
snooped_at p slot = get_or p.snooped slot []

-- `%02X` of a byte.
unfoldable pub hex_digit : ℕ → ℕ
hex_digit n = if ltb n 10 then b'0' + n else b'A' + (n - 10)

unfoldable pub hex_byte : ℕ → List ℕ
unfolding hex_digit
hex_byte n = hex_digit (n / 16) ∷ hex_digit (n % 16) ∷ []

-- The key of a figure's backup, from the first four bytes of its block 0.
unfoldable pub uid_key : List ℕ → List ℕ
unfolding hex_byte
uid_key u =
    b'b'
    ∷ b'k'
    ∷ b'_'
    ∷ (hex_byte (byte u 0) ++ (hex_byte (byte u 1) ++ (hex_byte (byte u 2) ++ hex_byte (byte u 3))))

-- The loop over the slot states: `if ((slots >> (2 * i)) & 1) mask |= (uint16_t)(1u << i)`.
unfoldable pub mask_loop : ℕ → ℕ → ℕ → ℕ → ℕ
mask_loop zero i slots mask = mask
mask_loop (suc n) i slots mask =
    mask_loop n (suc i) slots
      (if bit_and (slots / 2 ^ (2 * i)) 1 == 0 then mask else bit_or mask (2 ^ i % 2 ^ 16))

-- `if (!(mask & (1u << i))) s_backed_up[i] = false`, for the slots from `i` on.
unfoldable pub clear_gone : ℕ → ℕ → List Bool → List Bool
clear_gone mask i [] = []
clear_gone mask i (b ∷ bs) =
    (if bit_and mask (2 ^ i) == 0 then false else b) ∷ clear_gone mask (suc i) bs

-- A block that the console has read.
unfoldable pub snoop_query : Portal → List ℕ → Portal
snoop_query p r =
    if leb 0x10 (byte r 1) && ltb (byte r 1 - 0x10) sky_max_slots && ltb (byte r 2) sky_num_blocks
    then record p {
      snooped = set p.snooped (byte r 1 - 0x10) (
          overwrite (get_or p.snooped (byte r 1 - 0x10) []) (byte r 2 * sky_block_size)
            (slice r 3 sky_block_size));
    }
    else p

unfoldable pub snoop_status : Portal → List ℕ → Portal
snoop_status p r =
    let mask = mask_loop sky_max_slots 0 (status_slots r) 0 in
    record p { present = mask; backed_up = clear_gone mask 0 p.backed_up }

unfoldable pub snoop : Portal → List ℕ → Portal
snoop p r =
    if byte r 0 == sky_cmd_query && not (byte r 1 == 0x01) && leb 19 (length r)
    then snoop_query p r
    else if byte r 0 == sky_cmd_status && leb 6 (length r)
    then snoop_status p r
    else p

-- A report of the real portal, of 1 to 64 bytes: kept track of, and sent on.
unfoldable pub on_portal_in : Portal → List ℕ → Portal × List Call
on_portal_in p report =
    let n = if ltb tunnel_data_size (length report) then tunnel_data_size else length report in
    (
      snoop p report,
      link_send (tunnel_bytes (hdr_init link_t_tun_in 0) (n % 256) (take n report)) ∷ [],
    )

module _ (api : QueueApi (List ℕ)) where
  open api use {send, receive}

  -- Nothing tells the caller whether the queue took the image.
  unfoldable pub request_backup : Portal → ℕ → Portal
  request_backup p slot = elim p.bak_q [
    | none ↦ p
    | some q ↦ record p { bak_q = some (send bak_q_length q (snooped_at p slot)).1 }
  ]

  unfoldable pub backup_first : Portal → ℕ → Portal
  backup_first p slot =
      if ltb slot sky_max_slots
        && not (get_or p.backed_up slot false)
        && not (bit_and p.present (2 ^ slot) == 0)
      then record (request_backup p slot) { backed_up = set p.backed_up slot true }
      else p

  -- `data` is the frame's buffer in the receive queue: the bytes received, and what follows them.
  unfoldable pub on_write : Portal → ℕ → List ℕ → Portal × List Call
  on_write p now frame =
      let p1 = record p { last_write_ms = now } in
      let p2 =
        if leb 2 (tunnel_len frame)
        then backup_first p1 (bit_and (byte frame (tunnel_data + 1)) 0x0F)
        else p1 in
      (
        p2,
        tunnel_host_send (tunnel_payload frame (tunnel_len frame))
            ∷ link_send (ack_bytes (hdr_init link_t_ack 0) (hdr_at frame).seq link_ok)
            ∷ [],
      )

  unfoldable pub on_link_recv : Portal → ℕ → ℕ → List ℕ → Portal × List Call
  on_link_recv p now type frame =
      if type == link_t_tun_out
      then (p, tunnel_host_send (tunnel_payload frame (tunnel_len frame)) ∷ [])
      else if type == link_t_tun_outep
      then (p, tunnel_host_send_out (tunnel_payload frame (tunnel_len frame)) ∷ [])
      else if type == link_t_tun_write
      then on_write p now frame
      else (p, [])
