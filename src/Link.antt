-- ===== src/Link.antt =====
-- portal-side/src/esp_now_link.c, which console-side/src/esp_now_link.c repeats byte for byte: the
-- pairing of the two boards, the heartbeat, and the queue between the radio and the handler.
-- The clock and the radio are parameters: a call takes the time, and returns the frames to send.
pub mod Pairing
pub mod History
pub mod Timeout
pub mod Queue
pub mod Direct
use wireless_skyportal_conne.Prelude.{
  ℕ, zero, suc, ◌+◌, ◌-◌, ◌*◌, ◌/◌, ◌%◌, ◌^◌, Bool, true, false, ◌&&◌, ◌||◌, not, List, [], ◌∷◌,
  ◌++◌, ◌==◌, ltb, leb, if◌then◌else◌, Option, none, some, length, overwrite, ℤ, pos,
}
use wireless_skyportal_conne.Frame.{
  hdr_at, hdr_init, hdr_valid, hello_bytes, hello_role, sizeof_hdr, sizeof_hello, link_t_hello,
  link_max_payload,
}
use wireless_skyportal_conne.Rtos.{QueueApi, push_newest}

abbrev pub link_lost_ms : ℕ
link_lost_ms = 3000

abbrev pub rx_q_length : ℕ
rx_q_length = 32

-- A hardware address: its six bytes.
abbrev pub broadcast : List ℕ
broadcast = 0xFF ∷ 0xFF ∷ 0xFF ∷ 0xFF ∷ 0xFF ∷ 0xFF ∷ []

-- `memcmp(a, b, 6) == 0`
unfoldable pub same_mac : List ℕ → List ℕ → Bool
same_mac [] [] = true
same_mac [] (y ∷ ys) = false
same_mac (x ∷ xs) [] = false
same_mac (x ∷ xs) (y ∷ ys) = x == y && same_mac xs ys

-- `rx_item_t`
pub record RxItem : Type 0 where
  pub len : ℕ
  pub rssi : ℤ
  pub bytes : List ℕ

-- The statics, and in `peers` the radio's own list of peers. `has_handler` says
-- whether `s_handler` is set; `rx_q` is what waits in `s_rx_q`, and `none` a null handle.
pub record Link : Type 0 where
  pub role : ℕ
  pub has_handler : Bool
  pub linked : Bool
  pub rssi : ℤ
  pub peer : List ℕ
  pub last_rx_ms : ℕ
  pub seq : ℕ
  pub rx_q : Option (List RxItem)
  pub peers : List (List ℕ)

-- A received frame: where it comes from, its signal strength if there is one, and its bytes.
pub record Arrival : Type 0 where
  pub src_addr : List ℕ
  pub rx_ctrl : Option ℤ
  pub bytes : List ℕ

-- A frame handed to `esp_now_send`, with its address.
pub record Sent : Type 0 where
  pub to : List ℕ
  pub bytes : List ℕ

-- The radio's list of peers, which its library keeps.
pub record PeerApi : Type 0 where
  -- `esp_now_is_peer_exist`
  pub is_peer_exist : List (List ℕ) → List ℕ → Bool
  -- The list after `esp_now_add_peer`.
  pub add : List (List ℕ) → List ℕ → List (List ℕ)

unfoldable pub add_peer : PeerApi → Link → List ℕ → Link
add_peer radio l mac =
    if radio.is_peer_exist l.peers mac then l else record l { peers = radio.add l.peers mac }

-- The bookkeeping for a HELLO.
unfoldable pub on_hello : PeerApi → Link → Arrival → Link
on_hello radio l a =
    if not (hello_role a.bytes == l.role) && (not l.linked || not (same_mac l.peer a.src_addr))
    then record (add_peer radio l a.src_addr) { peer = a.src_addr; linked = true }
    else l

-- The copy into the queue. `junk` is what the item on the stack held before: 250 bytes.
unfoldable pub enqueue : QueueApi RxItem → Link → Arrival → List ℕ → Link
enqueue api l a junk =
    if l.has_handler && leb (length a.bytes) link_max_payload
    then elim l.rx_q [
      | none ↦ l
      | some q ↦
          let item : RxItem = record {
            len = length a.bytes;
            rssi = l.rssi;
            bytes = overwrite junk 0 a.bytes;
          } in
          record l { rx_q = some (push_newest api rx_q_length q item) }
    ]
    else l

-- What is kept up while the worker may be busy: the sign of life, the signal strength, the pairing.
unfoldable pub bookkeeping : PeerApi → Link → ℕ → Arrival → Link
bookkeeping radio l now a =
    let rssi : ℤ = elim a.rx_ctrl [ none ↦ l.rssi | some strength ↦ strength ] in
    let l1 = record l { last_rx_ms = now; rssi = rssi } in
    if (hdr_at a.bytes).type == link_t_hello && leb sizeof_hello (length a.bytes)
    then on_hello radio l1 a
    else l1

module _ (radio : PeerApi) (api : QueueApi RxItem) where
  unfoldable pub recv_valid : Link → ℕ → Arrival → List ℕ → Link
  recv_valid l now a junk = enqueue api (bookkeeping radio l now a) a junk

  unfoldable pub recv_cb : Link → ℕ → Arrival → List ℕ → Link
  recv_cb l now a junk =
      if leb sizeof_hdr (length a.bytes) && hdr_valid (hdr_at a.bytes)
      then recv_valid l now a junk
      else l

-- One round of `rx_task`: the item for the handler, if one waits and there is a handler.
unfoldable pub rx_task : QueueApi RxItem → Link → Link × Option RxItem
rx_task api l = elim l.rx_q [
  | none ↦ (l, none)
  | some q ↦ elim (api.receive q) [
    | none ↦ (l, none)
    | some (item, rest) ↦ (record l { rx_q = some rest }, if l.has_handler then some item else none)
  ]
]

-- One round of `link_task`, at time `now`: the frame that goes out, and how long the task then sleeps.
-- Time does not run back, so `now - last_rx_ms` is the 64-bit difference.
unfoldable pub expire : Link → ℕ → Link
expire l now =
    if l.linked && ltb link_lost_ms (now - l.last_rx_ms) then record l { linked = false } else l

unfoldable pub link_task : Link → ℕ → Link × Sent × ℕ
unfolding expire
link_task l now =
    let l1 = expire l now in
    let hello = hello_bytes (hdr_init link_t_hello l1.seq) l1.role 1 0 in
    let l2 = record l1 { seq = (l1.seq + 1) % 2 ^ 16 } in
    (
      l2,
      record { to = if l2.linked then l2.peer else broadcast; bytes = hello },
      if l2.linked then 1000 else 400,
    )

-- `none` is ESP_FAIL; otherwise the frame for `esp_now_send`, whose result is then returned.
unfoldable pub link_send : Link → List ℕ → Option Sent
link_send l bytes = if l.linked then some (record { to = l.peer; bytes = bytes }) else none

abbrev pub link_is_linked : Link → Bool
link_is_linked l = l.linked

-- The statics after `link_init`: the handler set, the queue created, and the broadcast address added to
-- the radio's list, which was `peers`.
unfoldable pub link_init : PeerApi → List (List ℕ) → ℕ → Link
link_init radio peers role =
    add_peer radio
      (record {
        role = role;
        has_handler = true;
        linked = false;
        rssi = pos 0;
        peer = 0 ∷ 0 ∷ 0 ∷ 0 ∷ 0 ∷ 0 ∷ [];
        last_rx_ms = 0;
        seq = 0;
        rx_q = some [];
        peers = peers;
      })
      broadcast
