-- ===== src/Console/Buffers.antt =====
-- The arrays and the queue of console-side/src/main.c keep their sizes in every handler.
use wireless_skyportal_conne.Prelude.{
  ℕ, ◌≤◌, arith, ap, sym, subst, ◌∙◌, Bool, true, false, ◌&&◌, not, List, ◌==◌, leb, if◌then◌else◌,
  length, length-overwrite, take, Bool-cases, inl, inr,
}
use wireless_skyportal_conne.Sky.{byte, sky_cmd_ready, sky_cmd_activate, sky_cmd_status}
use wireless_skyportal_conne.Rtos.{length-push_newest}
use wireless_skyportal_conne.Console.{
  Console, Item, Apis, item_of, item_size, snoop_in, push_in, queue_local, on_tun_in, min_of,
}
use wireless_skyportal_conne.Console.Tunnel.{HasBuffers}
use wireless_skyportal_conne.Console.Quiet.{snoop_in_same}

module _ (api : Apis) where
  HasBuffers-push_in : (s : Console) (it : Item) → HasBuffers s → HasBuffers (push_in api s it)
  unfolding push_in
  HasBuffers-push_in s it v = record {
    ready = v.ready;
    act = v.act;
    queue = length-push_newest api.items 48 s.in_q it (omega arith) v.queue;
  }

  pub HasBuffers-queue_local :
      (s : Console) (junk d : List ℕ) → HasBuffers s → HasBuffers (queue_local api s junk d)
  unfolding queue_local
  HasBuffers-queue_local s junk d v =
      HasBuffers-push_in s (item_of junk (take (min_of item_size (length d)) d)) v

  HasBuffers-snoop_in :
      (s : Console) (r : List ℕ) (n : ℕ) → HasBuffers s → HasBuffers (snoop_in s r n)
  HasBuffers-snoop_in s r n v =
      let same = snoop_in_same s r n in
      record {
        ready = ap length same.2 ∙ v.ready;
        act = ap length same.3 ∙ v.act;
        queue = subst (λ q. length q ≤ 48) (sym same.0) v.queue;
      }

  HasBuffers-passed_on :
      (s : Console) (it : Item) (held : Bool)
      → HasBuffers s
      → HasBuffers (if held then s else push_in api s it)
  HasBuffers-passed_on s it true v = v
  HasBuffers-passed_on s it false v = HasBuffers-push_in s it v

  pub HasBuffers-on_tun_in :
      (s : Console) (junk report : List ℕ)
      → HasBuffers s
      → length report ≤ 64
      → HasBuffers (on_tun_in api s junk report)
  unfolding on_tun_in
  HasBuffers-on_tun_in s junk report v h =
      elim (Bool-cases (leb 1 (length report) && byte report 0 == sky_cmd_ready)) [
        | inl e ↦ rw e (record {
          ready = length-overwrite s.ready_resp 0 report (omega (arith, v.ready)) ∙ v.ready;
          act = v.act;
          queue = v.queue;
        })
        | inr e ↦ elim (Bool-cases (leb 1 (length report) && byte report 0 == sky_cmd_activate)) [
          | inl f ↦
              rw (e, f)
                (record {
                  ready = v.ready;
                  act = length-overwrite s.act_resp 0 report (omega (arith, v.act)) ∙ v.act;
                  queue = v.queue;
                })
          | inr f ↦
              let it = item_of junk report in
              rw (e, f)
                (HasBuffers-passed_on (snoop_in s it.bytes it.len) it
                  (byte it.bytes 0 == sky_cmd_status && not s.console_active)
                  (HasBuffers-snoop_in s it.bytes it.len v))
        ]
      ]
