-- ===== src/System/Write.antt =====
-- A tag write through both boards: `write_task` of console-side/src/main.c, `on_link_recv` of
-- portal-side/src/main.c, and the acknowledgement back, over a radio that may lose either frame.
use wireless_skyportal_conne.Prelude.{
  ℕ, zero, suc, ◌^◌, ◌<◌, ◌≤◌, ◌≡◌, refl, arith, ap, ap₂, ◌∙◌, Bool, true, false, List, [], ◌∷◌,
  ◌++◌, if◌then◌else◌, length, some, Bool-cases, inl, inr,
}
use wireless_skyportal_conne.Frame.{
  hdr_init, tunnel_bytes, ack_bytes, ack_seq_at, link_t_tun_write, link_t_ack, link_ok,
}
use wireless_skyportal_conne.Rtos.{QueueApi}
use wireless_skyportal_conne.Console.{Item, contents}
use wireless_skyportal_conne.Console.Writer.{Wait, timeout, given, acks, write_frame, write_loop}
use wireless_skyportal_conne.Portal.{Portal, Call, link_send, tunnel_host_send}
use wireless_skyportal_conne.Portal.Deliver.{on_link_recv_delivers}
use wireless_skyportal_conne.System.Tunnel.{delivered}

-- What becomes of an attempt: its frame is lost, or the acknowledgement is, or neither.
pub data Fate : Type 0 where
  frame_lost : Fate
  ack_lost : Fate
  through : Fate

-- The acknowledgement of a write.
abbrev pub ack_of : ℕ → List ℕ
ack_of seq = ack_bytes (hdr_init link_t_ack 0) seq link_ok

-- How the console's wait ends: an acknowledgement that arrives gives the semaphore, and the task then
-- reads the number that `on_link_recv` took from it.
abbrev pub wait_of : ℕ → Fate → Wait
wait_of seq frame_lost = timeout
wait_of seq ack_lost = timeout
wait_of seq through = given (ack_seq_at (ack_of seq))

-- Those of the frames, sent in attempts from number `k` on, that arrive.
abbrev pub arrived_one : Fate → List ℕ → List (List ℕ)
arrived_one frame_lost frame = []
arrived_one ack_lost frame = frame ∷ []
arrived_one through frame = frame ∷ []

abbrev pub arrived : (ℕ → Fate) → ℕ → List (List ℕ) → List (List ℕ)
arrived fates k [] = []
arrived fates k (frame ∷ frames) = arrived_one (fates k) frame ++ arrived fates (suc k) frames

-- `m` transfers of those bytes, each with its acknowledgement.
abbrev pub transfers : ℕ → ℕ → List ℕ → List Call
transfers zero seq bytes = []
transfers (suc m) seq bytes =
    tunnel_host_send (some bytes) ∷ link_send (ack_of seq) ∷ transfers m seq bytes

module _ (api : QueueApi (List ℕ)) (rest : List ℕ) (seq : ℕ) (w : Item) where
  one_more :
      (p : Portal) (now : ℕ) (frames : List (List ℕ)) (m : ℕ)
      → seq < 2 ^ 16
      → w.len ≡ length (contents w)
      → w.len ≤ 64
      → ((p' : Portal) → delivered api p' now rest frames ≡ transfers m seq (contents w))
      → delivered api p now rest (write_frame seq w ∷ frames) ≡ transfers (suc m) seq (contents w)
  unfolding write_frame
  one_more p now frames m k l h ih = ap₂ (λ a b. a ++ b) first (ih _)
    where
      first :
          (wireless_skyportal_conne.Portal.on_link_recv api p now link_t_tun_write
            (tunnel_bytes (hdr_init link_t_tun_write seq) w.len (contents w) ++ rest)).1
          ≡ tunnel_host_send (some (contents w)) ∷ link_send (ack_of seq) ∷ []
      first =
          ap
            (λ n.
              (wireless_skyportal_conne.Portal.on_link_recv api p now link_t_tun_write
                (tunnel_bytes (hdr_init link_t_tun_write seq) n (contents w) ++ rest)).1)
            l
          ∙ (on_link_recv_delivers api p now seq (contents w) rest (omega arith) k).2

  -- Some number of transfers for those frames, and at least one if the write counts as acknowledged.
  abbrev pub Delivers : ℕ → List (List ℕ) → Bool → Type 0
  Delivers now frames acked =
      (m : ℕ) × ((p : Portal) → delivered api p now rest frames ≡ transfers m seq (contents w))
      × ((if acked then 1 else 0) ≤ m)

  Delivers-next :
      (now : ℕ) (f : Fate) (frames : List (List ℕ)) (acked : Bool)
      → seq < 2 ^ 16
      → w.len ≡ length (contents w)
      → w.len ≤ 64
      → acks seq (wait_of seq f) ≡ false
      → Delivers now frames acked
      → Delivers now (arrived_one f (write_frame seq w) ++ frames) acked
  Delivers-next now frame_lost frames acked k l h e (m, d, a) = (m, d, a)
  Delivers-next now ack_lost frames acked k l h e (m, d, a) =
      (suc m, λ p. one_more p now frames m k l h d, omega arith)
  Delivers-next now through frames acked k l h e (m, d, a) =
      (suc m, λ p. one_more p now frames m k l h d, omega arith)

  Delivers-acked :
      (now : ℕ) (f : Fate)
      → seq < 2 ^ 16
      → w.len ≡ length (contents w)
      → w.len ≤ 64
      → acks seq (wait_of seq f) ≡ true
      → Delivers now (arrived_one f (write_frame seq w) ++ []) true
  Delivers-acked now frame_lost k l h e = absurd cc
  Delivers-acked now ack_lost k l h e = absurd cc
  Delivers-acked now through k l h e = (1, λ p. one_more p now [] 0 k l h (λ _. refl), omega arith)

-- A write, in attempts of which `n` are left, over a radio that decides each attempt's fate, and with
-- any bytes after the frames in the portal side's buffers: every frame that arrives makes the portal's
-- side transfer the bytes of the write, exactly these, to the real portal and acknowledge them; and if
-- the console counts the write as acknowledged, at least one of them has.
write_loop-Delivers :
    (api : QueueApi (List ℕ)) (rest : List ℕ) (seq : ℕ) (w : Item) (fates : ℕ → Fate) (n k now : ℕ)
    → seq < 2 ^ 16
    → w.len ≡ length (contents w)
    → w.len ≤ 64
    → let sent = write_loop (λ j. wait_of seq (fates j)) n k seq w in
      Delivers api rest seq w now (arrived fates k sent.0) sent.1
unfolding write_loop
write_loop-Delivers api rest seq w fates zero k now b l h = (0, λ p. refl, omega arith)
write_loop-Delivers api rest seq w fates (suc n) k now b l h =
    elim (Bool-cases (acks seq (wait_of seq (fates k)))) [
      | inl e ↦ rw e (Delivers-acked api rest seq w now (fates k) b l h e)
      | inr e ↦
          let more = write_loop (λ j. wait_of seq (fates j)) n (suc k) seq w in
          rw e (
            Delivers-next api rest seq w now (fates k) (arrived fates (suc k) more.0) more.1 b l h e
              (write_loop-Delivers api rest seq w fates n (suc k) now b l h))
    ]
