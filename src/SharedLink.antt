-- ===== src/SharedLink.antt =====
-- shared/esp_now_link.c: the link whose receive callback calls the handler itself. The clock and the
-- radio are parameters, as in the boards' version.
pub mod Refine
pub mod Running
pub mod Frames
use wireless_skyportal_conne.Prelude.{
  ℕ, ◌+◌, ◌-◌, ◌%◌, ◌^◌, Bool, true, false, ◌&&◌, ◌||◌, not, List, [], ◌∷◌, ◌==◌, ltb, leb,
  if◌then◌else◌, Option, none, some, length, ℤ, pos,
}
use wireless_skyportal_conne.Frame.{
  hdr_at, hdr_init, hdr_valid, hello_bytes, hello_role, sizeof_hdr, sizeof_hello, link_t_hello,
}
use wireless_skyportal_conne.Link.{Arrival, Sent, PeerApi, broadcast, same_mac, link_lost_ms}

-- The statics, and in `peers` the radio's own list; `has_handler` says whether `s_handler` is set.
pub record DirectLink : Type 0 where
  pub role : ℕ
  pub has_handler : Bool
  pub linked : Bool
  pub rssi : ℤ
  pub peer : List ℕ
  pub last_rx_ms : ℕ
  pub seq : ℕ
  pub peers : List (List ℕ)

unfoldable pub add_peer : PeerApi → DirectLink → List ℕ → DirectLink
add_peer radio l mac =
    if radio.is_peer_exist l.peers mac then l else record l { peers = radio.add l.peers mac }

-- What a HELLO does to the pairing.
unfoldable pub on_hello : PeerApi → DirectLink → Arrival → DirectLink
on_hello radio l a =
    if hello_role a.bytes == l.role
    then l
    else if not l.linked || not (same_mac l.peer a.src_addr)
    then record (add_peer radio (record l { peer = a.src_addr }) a.src_addr) { linked = true }
    else l

-- What a frame with a valid header does.
unfoldable pub recv_valid : PeerApi → DirectLink → ℕ → Arrival → DirectLink
recv_valid radio l now a =
    let rssi : ℤ = elim a.rx_ctrl [ none ↦ l.rssi | some strength ↦ strength ] in
    let l1 = record l { last_rx_ms = now; rssi = rssi } in
    if (hdr_at a.bytes).type == link_t_hello && leb sizeof_hello (length a.bytes)
    then on_hello radio l1 a
    else l1

-- The new statics, and the frame that the handler is called with.
unfoldable pub recv_cb : PeerApi → DirectLink → ℕ → Arrival → DirectLink × List (List ℕ)
recv_cb radio l now a =
    if leb sizeof_hdr (length a.bytes) && hdr_valid (hdr_at a.bytes)
    then (recv_valid radio l now a, if l.has_handler then a.bytes ∷ [] else [])
    else (l, [])

-- One round of `link_task` at time `now`: the frame that goes out, and how long the task then sleeps.
unfoldable pub link_task : DirectLink → ℕ → DirectLink × Sent × ℕ
link_task l now =
    let l1 : DirectLink =
      if l.linked && ltb link_lost_ms (now - l.last_rx_ms)
      then record l { linked = false }
      else l in
    let hello = hello_bytes (hdr_init link_t_hello l1.seq) l1.role 1 0 in
    (
      record l1 { seq = (l1.seq + 1) % 2 ^ 16 },
      record { to = if l1.linked then l1.peer else broadcast; bytes = hello },
      if l1.linked then 1000 else 400,
    )

-- The statics after `link_init`, which adds the broadcast address to the radio's list `peers`.
unfoldable pub link_init : PeerApi → List (List ℕ) → ℕ → DirectLink
link_init radio peers role =
    add_peer radio
      (record {
        role = role;
        has_handler = true;
        linked = false;
        rssi = pos 0;
        peer = 0 ∷ 0 ∷ 0 ∷ 0 ∷ 0 ∷ 0 ∷ [];
        last_rx_ms = 0;
        seq = 0;
        peers = peers;
      })
      broadcast

abbrev pub link_is_linked : DirectLink → Bool
link_is_linked l = l.linked

-- `none` is ESP_FAIL; otherwise the frame for `esp_now_send`.
unfoldable pub link_send : DirectLink → List ℕ → Option Sent
link_send l bytes = if l.linked then some (record { to = l.peer; bytes = bytes }) else none
