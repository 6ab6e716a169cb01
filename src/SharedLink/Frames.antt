-- ===== src/SharedLink/Frames.antt =====
-- What the queue of portal-side/src/esp_now_link.c may do to the frames, against the direct calls of
-- shared/esp_now_link.c: lose some, and nothing else.
use mathlib.Core.List.{Sublist}
use mathlib.Core.List.Sublist as Sub
use wireless_skyportal_conne.Prelude.{ℕ, subst, List, [], ◌∷◌, ◌++◌, map}
use wireless_skyportal_conne.Rtos.{QueueApi}
use wireless_skyportal_conne.Link.{Link, Arrival, RxItem, PeerApi, bookkeeping, enqueue}
use wireless_skyportal_conne.Link
use wireless_skyportal_conne.Link.History
use wireless_skyportal_conne.Link.History.{Event, arrives, link_round, rx_round}
use wireless_skyportal_conne.SharedLink.{DirectLink, recv_cb, link_init}
use wireless_skyportal_conne.SharedLink.Refine.{forget, step, forget-step, forget-link_init}
use wireless_skyportal_conne.SharedLink.Running.{
  bytes_of, called, IsRunning, nothing-sublist, regroup, prepend, arrival, round,
  IsRunning-link_task, IsRunning-link_init,
}

-- The frames that the handler is called with, in order: in the shared version, and by the worker.
unfoldable pub calls : PeerApi → DirectLink → List Event → List (List ℕ)
calls radio l [] = []
calls radio l (arrives now a junk ∷ es) =
    (recv_cb radio l now a).1 ++ calls radio (step radio l (arrives now a junk)) es
calls radio l (link_round now ∷ es) = calls radio (step radio l (link_round now)) es
calls radio l (rx_round ∷ es) = calls radio l es

unfoldable pub worker_calls : PeerApi → QueueApi RxItem → Link → List Event → List (List ℕ)
worker_calls radio api l [] = []
worker_calls radio api l (arrives now a junk ∷ es) =
    worker_calls radio api (History.step radio api l (arrives now a junk)) es
worker_calls radio api l (link_round now ∷ es) =
    worker_calls radio api (History.step radio api l (link_round now)) es
worker_calls radio api l (rx_round ∷ es) =
    called (Link.rx_task api l).1 ++ worker_calls radio api (History.step radio api l rx_round) es

module _ (radio : PeerApi) (api : QueueApi RxItem) where
  restep :
      {xs : List (List ℕ)} (ys : List (List ℕ)) (l : Link) (e : Event) (es : List Event)
      → Sublist xs (ys ++ calls radio (forget (History.step radio api l e)) es)
      → Sublist xs (ys ++ calls radio (step radio (forget l) e) es)
  restep {xs} ys l e es h =
      subst (λ d. Sublist xs (ys ++ calls radio d es)) (forget-step radio api l e) h

  all_frames :
      (es : List Event) (l : Link) (q : List RxItem)
      → IsRunning l q
      → (q' : List RxItem) × IsRunning (History.run radio api l es) q'
        × Sublist
            (worker_calls radio api l es ++ map bytes_of q')
            (map bytes_of q ++ calls radio (forget l) es)
  unfolding History.run History.step worker_calls calls step
  all_frames [] l q v = (q, v, nothing-sublist (map bytes_of q) [])
  all_frames (arrives now a junk ∷ es) l q v =
      let (q1, v1, sub1) = arrival radio api l q now a junk v in
      let (q2, v2, sub2) = all_frames es (History.step radio api l (arrives now a junk)) q1 v1 in
      (
        q2,
        v2,
        Sub.trans (restep (map bytes_of q1) l (arrives now a junk) es sub2) (
            regroup (map bytes_of q1) (map bytes_of q) (recv_cb radio (forget l) now a).1
              (calls radio (step radio (forget l) (arrives now a junk)) es) sub1),
      )
  all_frames (link_round now ∷ es) l q v =
      let (q2, v2, sub2) =
        all_frames es (History.step radio api l (link_round now)) q
          (IsRunning-link_task radio api l q now v) in
      (q2, v2, restep (map bytes_of q) l (link_round now) es sub2)
  all_frames (rx_round ∷ es) l q v =
      let (q1, v1, e) = round radio api l q v in
      let (q2, v2, sub2) = all_frames es (History.step radio api l rx_round) q1 v1 in
      (
        q2,
        v2,
        prepend (called (Link.rx_task api l).1)
            (worker_calls radio api (History.step radio api l rx_round) es) (map bytes_of q2)
            (map bytes_of q) (map bytes_of q1) (calls radio (forget l) es) e
            (restep (map bytes_of q1) l rx_round es sub2),
      )

  -- From `link_init` on and through any arrivals and rounds, the frames that the worker hands to the
  -- handler, followed by those that still wait, are some of the frames that the shared version hands
  -- over at once, each at most once, unchanged and in the same order.
  pub worker_calls-sublist :
      (peers : List (List ℕ)) (role : ℕ) (es : List Event)
      → (q : List RxItem) × IsRunning (History.run radio api (Link.link_init radio peers role) es) q
        × Sublist
            (worker_calls radio api (Link.link_init radio peers role) es ++ map bytes_of q)
            (calls radio (link_init radio peers role) es)
  worker_calls-sublist peers role es =
      let (q, v, sub) =
        all_frames es (Link.link_init radio peers role) []
          (IsRunning-link_init radio api peers role) in
      (
        q,
        v,
        subst
            (λ d.
              Sublist
                (worker_calls radio api (Link.link_init radio peers role) es ++ map bytes_of q)
                (calls radio d es))
            (forget-link_init radio api peers role) sub,
      )
