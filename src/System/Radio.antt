-- ===== src/System/Radio.antt =====
-- What the frames that reach a board have in common, its waiting frames have, and the one that the
-- worker takes: portal-side/src/esp_now_link.c passes on whole frames.
use wireless_skyportal_conne.Prelude.{
  ℕ, ◌+◌, ◌≤◌, ◌≡◌, refl, arith, ap, sym, subst, ◌∙◌, ◌&&◌, List, [], ◌∷◌, ◌++◌, leb, ltb,
  if◌then◌else◌, Option, none, some, length, drop, overwrite, Bool-cases, inl, inr, leb→le, All,
  All-map, All-append, All-kept,
}
use wireless_skyportal_conne.Frame.{hdr_at, hdr_valid, sizeof_hdr}
use wireless_skyportal_conne.Rtos.{QueueApi, push_newest_lem, length-push_newest}
use wireless_skyportal_conne.Link.{
  Link, Arrival, RxItem, PeerApi, bookkeeping, enqueue, recv_cb, rx_task, link_task, link_init,
  recv_valid,
}
use wireless_skyportal_conne.Link.Queue.{queued, enqueue_lem, handler-enqueue}
use wireless_skyportal_conne.SharedLink.Running.{
  IsRunning, enqueue_drops, IsRunning-bookkeeping, round_idle, round_busy, IsRunning-link_task,
  IsRunning-link_init,
}

-- The item holds a frame with that property, whole and at the start of its buffer.
abbrev pub Whole : (List ℕ → Type 0) → RxItem → Type 0
Whole P item =
    (frame : List ℕ) × (rest : List ℕ) × P frame
    × (item.bytes ≡ frame ++ rest)
    × (item.len ≡ length frame)

abbrev pub Waits : (List ℕ → Type 0) → Link → Type 0
Waits P l = (q : List RxItem) × IsRunning l q × All (Whole P) q

abbrev pub Taken : (List ℕ → Type 0) → Option RxItem → Type 0
Taken P none = Unit {0}
Taken P (some item) = Whole P item

pub Waits-map :
    (P Q : List ℕ → Type 0) → ((f : List ℕ) → P f → Q f) → (l : Link) → Waits P l → Waits Q l
Waits-map P Q g l (q, v, all) =
    (q, v, All-map (Whole P) (Whole Q) (λ item h. (h.0, h.1, g h.0 h.2, h.3, h.4)) q all)

module _ (radio : PeerApi) (api : QueueApi RxItem) (P : List ℕ → Type 0) where
  queued-Whole :
      (l : Link) (a : Arrival) (junk : List ℕ) → P a.bytes → Whole P (queued radio api l a junk)
  unfolding overwrite
  queued-Whole l a junk p = (a.bytes, drop (0 + length a.bytes) junk, p, refl, refl)

  Waits-enqueue :
      (l : Link) (a : Arrival) (junk : List ℕ)
      → Waits P l
      → P a.bytes
      → Waits P (enqueue api l a junk)
  Waits-enqueue l a junk (q, v, all) p = elim (Bool-cases (leb (length a.bytes) 250)) [
    | inl e ↦
        let item = queued radio api l a junk in
        let pushed = push_newest_lem api 32 q item (omega arith) v.size in
        (
          (if ltb (length q) 32 then q else drop 1 q) ++ item ∷ [],
          record {
            handler = handler-enqueue radio api l a junk ∙ v.handler;
            rx_q =
                enqueue_lem radio api l a junk q v.handler v.rx_q (leb→le (length a.bytes) 250 e)
                ∙ ap some pushed;
            size =
                subst (λ t. length t ≤ 32) pushed
                  (length-push_newest api 32 q item (omega arith) v.size);
          },
          All-append (Whole P) (if ltb (length q) 32 then q else drop 1 q) (item ∷ [])
              (All-kept (Whole P) (ltb (length q) 32) q all) (queued-Whole l a junk p, tt),
        )
    | inr e ↦ subst (Waits P) (sym (enqueue_drops radio api l a junk (ground arith))) (q, v, all)
  ]

  pub Waits-recv_cb :
      (l : Link) (now : ℕ) (a : Arrival) (junk : List ℕ)
      → Waits P l
      → P a.bytes
      → Waits P (recv_cb radio api l now a junk)
  unfolding recv_cb recv_valid
  Waits-recv_cb l now a junk (q, v, all) p =
      elim (Bool-cases (leb sizeof_hdr (length a.bytes) && hdr_valid (hdr_at a.bytes))) [
        | inl e ↦ rw e (
            Waits-enqueue (bookkeeping radio l now a) a junk
              (q, IsRunning-bookkeeping radio api l q now a v, all) p)
        | inr e ↦ rw e (q, v, all)
      ]

  pub Waits-rx_task : (l : Link) → Waits P l → Waits P (rx_task api l).0 × Taken P (rx_task api l).1
  Waits-rx_task l ([], v, all) =
      subst (λ t. Waits P t.0 × Taken P t.1) (sym (round_idle radio api l v.rx_q)) (([], v, tt), tt)
  Waits-rx_task l (x ∷ q, v, all) =
      subst (λ t. Waits P t.0 × Taken P t.1) (sym (round_busy radio api l x q v.handler v.rx_q))
        (
          (q, record { handler = v.handler; rx_q = refl; size = omega (arith, v.size) }, all.1),
          all.0,
        )

  pub Waits-link_task : (l : Link) (now : ℕ) → Waits P l → Waits P (link_task l now).0
  Waits-link_task l now (q, v, all) = (q, IsRunning-link_task radio api l q now v, all)

  pub Waits-link_init : (peers : List (List ℕ)) (role : ℕ) → Waits P (link_init radio peers role)
  Waits-link_init peers role = ([], IsRunning-link_init radio api peers role, tt)
