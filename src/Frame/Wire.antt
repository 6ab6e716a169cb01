-- ===== src/Frame/Wire.antt =====
-- What is read from the bytes of a message is what was put in.
use wireless_skyportal_conne.Prelude.{
  ℕ, ◌*◌, ◌^◌, ◌<◌, ◌≤◌, ◌≡◌, arith, List, ◌++◌, some, length, take-append_left, take_all,
  length-append,
}
use wireless_skyportal_conne.Frame.{
  Hdr, hdr_init, hdr_bytes, hdr_at, tunnel_bytes, tunnel_payload, ack_bytes, ack_seq_at,
  img_num_chunks,
}

-- The header of a message of type `type` and number `seq`, read back from its bytes and whatever
-- follows them.
pub hdr_at-hdr_bytes :
    (type seq : ℕ) (rest : List ℕ)
    → seq < 2 ^ 16
    → hdr_at (hdr_bytes (hdr_init type seq) ++ rest) ≡ hdr_init type seq
hdr_at-hdr_bytes type seq rest h = ground arith

pub ack_seq_at-ack_bytes :
    (type seq status : ℕ) (rest : List ℕ)
    → seq < 2 ^ 16
    → ack_seq_at (ack_bytes (hdr_init type 0) seq status ++ rest) ≡ seq
ack_seq_at-ack_bytes type seq status rest h = omega arith

-- A tunnelled report is read back whole, whatever follows it in the buffer.
pub tunnel_payload-tunnel_bytes :
    (hdr : Hdr) (payload rest : List ℕ)
    → tunnel_payload (tunnel_bytes hdr (length payload) payload ++ rest) (length payload)
      ≡ some payload
unfolding tunnel_payload
tunnel_payload-tunnel_bytes hdr payload rest = ground (
  arith,
  length-append payload rest,
  take-append_left (length payload) payload rest,
  take_all (length payload) payload,
)

-- `link_img_num_chunks` chunks hold the image, and no number of chunks that does is less.
img_num_chunks_lem :
    (total_len n : ℕ)
    → total_len ≤ n * 200
    → (total_len ≤ img_num_chunks total_len * 200) × (img_num_chunks total_len ≤ n)
unfolding img_num_chunks
img_num_chunks_lem total_len n h = omega arith
