-- ===== src/SharedLink/Running.antt =====
-- One arrival or one round of the board with the queue of portal-side/src/esp_now_link.c, and the frames
-- that wait in it.
use mathlib.Core.List.{Sublist}
use mathlib.Core.List.Sublist as Sub
use wireless_skyportal_conne.Prelude.{
  ℕ, ◌≤◌, ◌<◌, ◌≡◌, refl, arith, ap, sym, subst, ◌∙◌, Bool, true, false, ◌&&◌, List, [], ◌∷◌, ◌++◌,
  append_assoc, map, map-append, leb, ltb, if◌then◌else◌, Option, none, some, length, drop, slice,
  slice-overwrite_self, Bool-cases, inl, inr, leb→le,
}
use wireless_skyportal_conne.Frame.{hdr_at, hdr_valid, sizeof_hdr}
use wireless_skyportal_conne.Rtos.{QueueApi, push_newest_lem, length-push_newest}
use wireless_skyportal_conne.Link.{Link, Arrival, RxItem, PeerApi, bookkeeping, enqueue}
use wireless_skyportal_conne.Link
use wireless_skyportal_conne.Link.Queue.{queued, enqueue_lem, handler-enqueue, queue-bookkeeping}
use wireless_skyportal_conne.SharedLink.{DirectLink, recv_cb}
use wireless_skyportal_conne.SharedLink.Refine.{forget}

abbrev pub bytes_of : RxItem → List ℕ
bytes_of item = slice item.bytes 0 item.len

abbrev pub called : Option RxItem → List (List ℕ)
called none = []
called (some item) = bytes_of item ∷ []

-- The board runs: it has its handler and its queue.
pub record IsRunning (l : Link) (q : List RxItem) : Type 0 where
  pub handler : l.has_handler ≡ true
  pub rx_q : l.rx_q ≡ some q
  pub size : length q ≤ 32

kept-sublist :
    (b : Bool) (q : List RxItem)
    → Sublist (map bytes_of (if b then q else drop 1 q)) (map bytes_of q)
kept-sublist true q = Sub.refl (map bytes_of q)
kept-sublist false [] = Sub.refl []
kept-sublist false (x ∷ q) = Sub.cons (bytes_of x) (Sub.refl (map bytes_of q))

pub nothing-sublist : (xs ys : List (List ℕ)) → Sublist xs (xs ++ ys)
nothing-sublist [] [] = Sub.refl []
nothing-sublist [] (y ∷ ys) = Sub.cons y (nothing-sublist [] ys)
nothing-sublist (x ∷ xs) ys = Sub.cons-cons x (nothing-sublist xs ys)

pub regroup :
    (xs ys zs rest : List (List ℕ))
    → Sublist xs (ys ++ zs)
    → Sublist (xs ++ rest) (ys ++ (zs ++ rest))
regroup xs ys zs rest h =
    subst (Sublist (xs ++ rest)) (append_assoc ys zs rest) (Sub.append h (Sub.refl rest))

pub prepend :
    (cs ws xs ys zs rest : List (List ℕ))
    → ys ≡ cs ++ zs
    → Sublist (ws ++ xs) (zs ++ rest)
    → Sublist ((cs ++ ws) ++ xs) (ys ++ rest)
prepend cs ws xs ys zs rest e h =
    subst (λ t. Sublist t (ys ++ rest)) (sym (append_assoc cs ws xs))
      (subst (Sublist (cs ++ (ws ++ xs)))
        (sym (append_assoc cs zs rest) ∙ ap (λ t. t ++ rest) (sym e)) (Sub.append (Sub.refl cs) h))

module _ (radio : PeerApi) (api : QueueApi RxItem) where
  enqueue_queues :
      (l : Link) (q : List RxItem) (a : Arrival) (junk : List ℕ)
      → IsRunning l q
      → length a.bytes ≤ 250
      → (q' : List RxItem) × IsRunning (enqueue api l a junk) q'
        × Sublist (map bytes_of q') (map bytes_of q ++ a.bytes ∷ [])
  enqueue_queues l q a junk v h =
      let kept = if ltb (length q) 32 then q else drop 1 q in
      let item = queued radio api l a junk in
      let pushed = push_newest_lem api 32 q item (omega arith) v.size in
      (
        kept ++ item ∷ [],
        record {
          handler = handler-enqueue radio api l a junk ∙ v.handler;
          rx_q = enqueue_lem radio api l a junk q v.handler v.rx_q h ∙ ap some pushed;
          size =
              subst (λ t. length t ≤ 32) pushed
                (length-push_newest api 32 q item (omega arith) v.size);
        },
        subst (λ t. Sublist t (map bytes_of q ++ a.bytes ∷ [])) (sym (split kept item whole))
            (Sub.append (kept-sublist (ltb (length q) 32) q) (Sub.refl (a.bytes ∷ []))),
      )
    where
      whole : bytes_of (queued radio api l a junk) ≡ a.bytes
      whole = slice-overwrite_self junk 0 a.bytes (length a.bytes) (omega arith) refl

      split :
          (kept : List RxItem) (item : RxItem)
          → bytes_of item ≡ a.bytes
          → map bytes_of (kept ++ item ∷ []) ≡ map bytes_of kept ++ a.bytes ∷ []
      split kept item e =
          map-append bytes_of kept (item ∷ []) ∙ ap (λ t. map bytes_of kept ++ t ∷ []) e

  pub enqueue_drops :
      (l : Link) (a : Arrival) (junk : List ℕ) → 250 < length a.bytes → enqueue api l a junk ≡ l
  unfolding enqueue
  enqueue_drops l a junk h = ground arith

  queues_or_drops :
      (l : Link) (q : List RxItem) (a : Arrival) (junk : List ℕ)
      → IsRunning l q
      → (q' : List RxItem) × IsRunning (enqueue api l a junk) q'
        × Sublist (map bytes_of q') (map bytes_of q ++ a.bytes ∷ [])
  queues_or_drops l q a junk v = elim (Bool-cases (leb (length a.bytes) 250)) [
    | inl e ↦ enqueue_queues l q a junk v (leb→le (length a.bytes) 250 e)
    | inr e ↦ (
      q,
      subst (λ t. IsRunning t q) (sym (enqueue_drops l a junk (ground arith))) v,
      nothing-sublist (map bytes_of q) (a.bytes ∷ []),
    )
  ]

  pub IsRunning-bookkeeping :
      (l : Link) (q : List RxItem) (now : ℕ) (a : Arrival)
      → IsRunning l q
      → IsRunning (bookkeeping radio l now a) q
  IsRunning-bookkeeping l q now a v =
      let (same_q, same_handler) = queue-bookkeeping radio api l now a in
      record { handler = same_handler ∙ v.handler; rx_q = same_q ∙ v.rx_q; size = v.size }

  calls_handler :
      (d : DirectLink) (a : Arrival)
      → d.has_handler ≡ true
      → (if d.has_handler then a.bytes ∷ [] else []) ≡ a.bytes ∷ []
  calls_handler d a e = rw e

  -- After an arrival: the waiting frames are some of those that waited and that of the direct call.
  pub arrival :
      (l : Link) (q : List RxItem) (now : ℕ) (a : Arrival) (junk : List ℕ)
      → IsRunning l q
      → (q' : List RxItem) × IsRunning (Link.recv_cb radio api l now a junk) q'
        × Sublist (map bytes_of q') (map bytes_of q ++ (recv_cb radio (forget l) now a).1)
  unfolding Link.recv_cb Link.recv_valid recv_cb
  arrival l q now a junk v =
      elim (Bool-cases (leb sizeof_hdr (length a.bytes) && hdr_valid (hdr_at a.bytes))) [
        | inl e ↦
            let (q', v', sub) =
              queues_or_drops (bookkeeping radio l now a) q a junk
                (IsRunning-bookkeeping l q now a v) in
            rw e (
              q',
              v',
              subst (λ t. Sublist (map bytes_of q') (map bytes_of q ++ t))
                  (sym (calls_handler (forget l) a v.handler)) sub,
            )
        | inr e ↦ rw e (q, v, nothing-sublist (map bytes_of q) [])
      ]

  pub round_idle : (l : Link) → l.rx_q ≡ some [] → Link.rx_task api l ≡ (l, none)
  unfolding Link.rx_task
  round_idle l e = ground (arith, api.receive_nil)

  pub round_busy :
      (l : Link) (x : RxItem) (q : List RxItem)
      → l.has_handler ≡ true
      → l.rx_q ≡ some (x ∷ q)
      → Link.rx_task api l ≡ (record l { rx_q = some q }, some x)
  unfolding Link.rx_task
  round_busy l x q h e = ground (arith, api.receive_cons x q)

  -- A round of the worker hands over the frame that has waited longest.
  pub round :
      (l : Link) (q : List RxItem)
      → IsRunning l q
      → (q' : List RxItem) × IsRunning (Link.rx_task api l).0 q'
        × (map bytes_of q ≡ called (Link.rx_task api l).1 ++ map bytes_of q')
  round l [] v =
      let e = round_idle l v.rx_q in
      ([], subst (λ t. IsRunning t.0 []) (sym e) v, ap (λ t. called t.1 ++ []) (sym e))
  round l (x ∷ q) v =
      let e = round_busy l x q v.handler v.rx_q in
      (
        q,
        subst (λ t. IsRunning t.0 q) (sym e)
            (record { handler = v.handler; rx_q = refl; size = omega (arith, v.size) }),
        ap (λ t. called t.1 ++ map bytes_of q) (sym e),
      )

  pub IsRunning-link_task :
      (l : Link) (q : List RxItem) (now : ℕ) → IsRunning l q → IsRunning (Link.link_task l now).0 q
  unfolding Link.link_task Link.expire
  IsRunning-link_task l q now v = ground arith

  pub IsRunning-link_init :
      (peers : List (List ℕ)) (role : ℕ) → IsRunning (Link.link_init radio peers role) []
  unfolding Link.link_init Link.add_peer
  IsRunning-link_init peers role = ground arith
