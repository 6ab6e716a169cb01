-- ===== src/Console.antt =====
-- console-side/src/main.c: the emulated portal. Time, the queues and the radio are the parameters; a
-- handler returns the new statics and the frames that it hands to `link_send`, in order.
pub mod Writer
pub mod Live
pub mod Task
pub mod Turns
pub mod Interleaved
pub mod Arrivals
pub mod Acked
pub mod Waits
pub mod Sender
pub mod Log
pub mod Learned
pub mod Between
pub mod Screen
pub mod Status
pub mod Changes
pub mod Tunnel
pub mod Host
pub mod Events
pub mod Quiet
pub mod Gate
pub mod Buffers
use wireless_skyportal_conne.Prelude.{
  ℕ, zero, suc, ◌+◌, ◌-◌, ◌*◌, ◌/◌, ◌%◌, ◌^◌, bit_and, bit_or, Bool, true, false, ◌&&◌, not, List,
  [], ◌∷◌, ◌++◌, ◌==◌, ltb, leb, if◌then◌else◌, get_or, set, slice, take, replicate, overwrite,
  length,
}
use wireless_skyportal_conne.Sky.{
  byte, sky_cmd_ready, sky_cmd_activate, sky_cmd_query, sky_cmd_status, sky_cmd_write,
  sky_max_slots, sky_num_blocks, sky_block_toy_id, status_slots,
}
use wireless_skyportal_conne.Frame.{
  hdr_init, tunnel_bytes, tunnel_len, tunnel_data, tunnel_data_size, ack_seq_at, sizeof_hdr,
  sizeof_ack, link_t_tun_in, link_t_tun_out, link_t_tun_outep, link_t_ack,
}
use wireless_skyportal_conne.Rtos.{QueueApi, push_newest}

-- `item_t`: the 64 bytes of `data`, of which the first `len` count.
pub record Item : Type 0 where
  pub len : ℕ
  pub bytes : List ℕ

abbrev pub item_size : ℕ
item_size = 64

abbrev pub in_q_length : ℕ
in_q_length = 48

abbrev pub write_q_length : ℕ
write_q_length = 16

-- The statics, with the contents of the two queues and of the semaphore, a queue of length 1. `log` is
-- the lines of `s_log`, and `write_seq` the number that `write_task` gives next.
pub record Console : Type 0 where
  pub in_q : List Item
  pub write_q : List Item
  pub ack_sem : List (Unit {0})
  pub acked_seq : ℕ
  pub present_count : ℕ
  pub toy : ℕ
  pub writes : ℕ
  pub sound_pkts : ℕ
  pub last_write_ms : ℕ
  pub console_active : Bool
  pub ready_resp : List ℕ
  pub ready_len : ℕ
  pub act_resp : List ℕ
  pub act_len : ℕ
  pub log : List (List ℕ)
  pub log_head : ℕ
  pub write_seq : ℕ

abbrev pub start : Console
start = record {
  in_q = [];
  write_q = [];
  ack_sem = [];
  acked_seq = 0;
  present_count = 0;
  toy = 0;
  writes = 0;
  sound_pkts = 0;
  last_write_ms = 0;
  console_active = false;
  ready_resp = (sky_cmd_ready ∷ 0x02 ∷ 0x18 ∷ []) ++ replicate 61 0;
  ready_len = 32;
  act_resp = (sky_cmd_activate ∷ 0x01 ∷ 0xFF ∷ 0x77 ∷ []) ++ replicate 60 0;
  act_len = 32;
  log = replicate 5 [];
  log_head = 0;
  write_seq = 1;
}

-- The calls of FreeRTOS on the queues of items and on the semaphore.
pub record Apis : Type 0 where
  pub items : QueueApi Item
  pub sem : QueueApi (Unit {0})

-- An item with those bytes, 64 at most; `junk` is what was on the stack.
abbrev pub item_of : List ℕ → List ℕ → Item
item_of junk bytes = record { len = length bytes; bytes = overwrite junk 0 bytes }

-- The bytes of an item that count.
abbrev pub contents : Item → List ℕ
contents it = take it.len it.bytes

abbrev pub min_of : ℕ → ℕ → ℕ
min_of limit n = if ltb limit n then limit else n

-- `for (i…) if ((slots >> (2 * i)) & 1) c++`, from slot `i` on.
unfoldable pub count_loop : ℕ → ℕ → ℕ → ℕ → ℕ
count_loop zero i slots c = c
count_loop (suc n) i slots c =
    count_loop n (suc i) slots (if bit_and (slots / 2 ^ (2 * i)) 1 == 0 then c else c + 1)

unfoldable pub snoop_in : Console → List ℕ → ℕ → Console
snoop_in s r len =
    if byte r 0 == sky_cmd_status && leb 5 len
    then record s { present_count = count_loop sky_max_slots 0 (status_slots r) 0 }
    else if byte r 0 == sky_cmd_query
        && not (byte r 1 == 0x01)
        && byte r 2 == sky_block_toy_id
        && leb 5 len
    then record s { toy = bit_or (byte r 3) (byte r 4 * 2 ^ 8) % 2 ^ 16 }
    else s

-- The strict test for a tag write.
unfoldable pub is_tag_write : List ℕ → Bool
is_tag_write buffer =
    byte buffer 0 == sky_cmd_write
    && leb 19 (length buffer)
    && bit_and (byte buffer 1) 0xF0 == 0x10
    && ltb (byte buffer 2) sky_num_blocks

-- A report of the console as a frame of that type: 200 bytes of it at most.
unfoldable pub tunnelled : ℕ → List ℕ → List ℕ
tunnelled type buffer =
    let n = min_of tunnel_data_size (length buffer) in
    tunnel_bytes (hdr_init type 0) (n % 256) (take n buffer)

module _ (api : Apis) where
  unfoldable pub push_in : Console → Item → Console
  push_in s it = record s { in_q = push_newest api.items in_q_length s.in_q it }

  unfoldable pub queue_local : Console → List ℕ → List ℕ → Console
  queue_local s junk d = push_in s (item_of junk (take (min_of item_size (length d)) d))

  -- A tunnelled report of the portal: `n` bytes of it, at most 64.
  unfoldable pub on_tun_in : Console → List ℕ → List ℕ → Console
  on_tun_in s junk report =
      if leb 1 (length report) && byte report 0 == sky_cmd_ready
      then record s {
        ready_resp = overwrite s.ready_resp 0 report;
        ready_len = length report % 256;
      }
      else if leb 1 (length report) && byte report 0 == sky_cmd_activate
      then record s { act_resp = overwrite s.act_resp 0 report; act_len = length report % 256 }
      else let it = item_of junk report in
        let s' = snoop_in s it.bytes it.len in
        if byte it.bytes 0 == sky_cmd_status && not s.console_active then s' else push_in s' it

  -- `frame` is the buffer that the message lies in, and `len` the length of the message.
  unfoldable pub on_link_recv : Console → List ℕ → ℕ → List ℕ → ℕ → Console
  on_link_recv s junk type frame len =
      if type == link_t_tun_in && leb (sizeof_hdr + 1) len
      then on_tun_in s junk (slice frame tunnel_data (min_of item_size (tunnel_len frame)))
      else if type == link_t_ack && leb sizeof_ack len
      then record s { acked_seq = ack_seq_at frame; ack_sem = (api.sem.send 1 s.ack_sem tt).1 }
      else s

  -- `tud_mount_cb` and `tud_umount_cb`.
  unfoldable pub on_mount : Console → Console
  on_mount s = record s { console_active = false; in_q = api.items.reset s.in_q }

  -- The local answer to a handshake command.
  unfoldable pub answer : Console → List ℕ → List ℕ → Console
  answer s junk buffer =
      if byte buffer 0 == sky_cmd_ready
      then queue_local s junk (take s.ready_len s.ready_resp)
      else if byte buffer 0 == sky_cmd_activate
      then (let s' =
            if leb 2 (length buffer)
            then record s {
              act_resp = set s.act_resp 1 (byte buffer 1);
              console_active = not (byte buffer 1 == 0);
            }
            else s in
          queue_local s' junk (take s'.act_len s'.act_resp))
      else s

  -- `tud_hid_get_report_cb`: the number of bytes of the answer, and the buffer after it.
  abbrev pub get_report : ℕ → List ℕ → ℕ → ℕ × List ℕ
  get_report report_id buffer reqlen = (0, buffer)

  unfoldable pub set_report : Console → List ℕ → ℕ → List ℕ → Console × List (List ℕ)
  set_report s junk report_id buffer =
      if report_id == 0xEE
      then (
        record s { sound_pkts = (s.sound_pkts + 1) % 2 ^ 32 },
        tunnelled link_t_tun_outep buffer ∷ [],
      )
      else if ltb (length buffer) 1
      then (s, [])
      else if is_tag_write buffer
      then (
        record s {
          write_q =
              (api.items.send write_q_length s.write_q
                (item_of junk (take (min_of item_size (length buffer)) buffer))).1;
        },
        [],
      )
      else (answer s junk buffer, tunnelled link_t_tun_out buffer ∷ [])
