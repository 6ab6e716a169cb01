-- ===== src/Console/Host.antt =====
-- The console's reports to the emulated portal: `tud_hid_set_report_cb` of console-side/src/main.c.
use wireless_skyportal_conne.Prelude.{
  ℕ, zero, suc, overwrite, ◌*◌, ◌/◌, ◌%◌, ◌<◌, ◌≤◌, ◌≡◌, ◌≢◌, bit_and, refl, arith, ap, ap₂, sym,
  subst, ◌∙◌, true, false, not, List, [], ◌∷◌, ◌==◌, ltb, length, take, set, take_all, le→leb, inl,
  inr, ◌⊎◌, ◌↔◌,
}
use wireless_skyportal_conne.Bits.{bit_and_digit}
use wireless_skyportal_conne.Sky.{byte, sky_cmd_ready, sky_cmd_activate, sky_cmd_write}
use wireless_skyportal_conne.Sky.Commands.{low_nibble}
use wireless_skyportal_conne.Console.{
  Console, Apis, item_of, item_size, push_in, queue_local, on_tun_in, set_report, answer, min_of,
  is_tag_write,
}
use wireless_skyportal_conne.Console.Tunnel.{
  learned, HasBuffers, waiting, with_newest, contents-item_of, waiting-push_in,
}
use wireless_skyportal_conne.Console.Buffers.{HasBuffers-on_tun_in}
use wireless_skyportal_conne.Console.Events.{Event, run}
use wireless_skyportal_conne.Console.Learned.{NoneBrings, ready_learned, act_learned, twice_set}
use wireless_skyportal_conne.Console.Between.{ready_learned-run, act_learned-run}

low_zero : (x y : ℕ) → bit_and x (2 * y) ≡ 2 * bit_and (x / 2) y
low_zero x y =
    let half : 2 * y / 2 ≡ y = omega arith in bit_and_digit x (2 * y) ∙ rw half (omega arith)

-- `x & 0xF0` of a byte
high_nibble : (x : ℕ) → x < 256 → bit_and x 0xF0 ≡ x / 16 * 16
high_nibble x h =
    low_zero x 120
    ∙ ap (λ t. 2 * t) (low_zero (x / 2) 60)
    ∙ ap (λ t. 2 * (2 * t)) (low_zero (x / 2 / 2) 30)
    ∙ ap (λ t. 2 * (2 * (2 * t))) (low_zero (x / 2 / 2 / 2) 15)
    ∙ ap (λ t. 2 * (2 * (2 * (2 * t)))) (low_nibble (x / 2 / 2 / 2 / 2))
    ∙ omega arith

-- A report, whose second byte is one, passes for a tag write exactly if it is `build_write`'s 'W', is
-- at least 19 bytes long, names a slot as 0x1? and a block below 64.
is_tag_write_lem :
    (buffer : List ℕ)
    → byte buffer 1 < 256
    → (is_tag_write buffer ≡ true) ↔ (
        (byte buffer 0 ≡ sky_cmd_write)
        × (19 ≤ length buffer)
        × (byte buffer 1 / 16 ≡ 1)
        × (byte buffer 2 < 64))
unfolding is_tag_write
is_tag_write_lem buffer h = ground (arith, high_nibble (byte buffer 1) h)

answer-not_write :
    (buffer : List ℕ)
    → (byte buffer 0 ≡ sky_cmd_ready) ⊎ (byte buffer 0 ≡ sky_cmd_activate)
    → is_tag_write buffer ≡ false
unfolding is_tag_write
answer-not_write buffer c = ground arith

pub take-second_set : (n : ℕ) (xs : List ℕ) (b : ℕ) → take n (set xs 1 b) ≡ set (take n xs) 1 b
take-second_set zero xs b = refl
take-second_set (suc n) [] b = refl
take-second_set (suc zero) (x ∷ []) b = refl
take-second_set (suc zero) (x ∷ y ∷ xs) b = refl
take-second_set (suc (suc n)) (x ∷ []) b = refl
take-second_set (suc (suc n)) (x ∷ y ∷ xs) b = refl

pub length-second_set : (xs : List ℕ) (b : ℕ) → length (set xs 1 b) ≡ length xs
length-second_set [] b = refl
length-second_set (x ∷ []) b = refl
length-second_set (x ∷ y ∷ xs) b = refl

module _ (api : Apis) where
  pub waiting-queue_local :
      (s : Console) (junk d : List ℕ)
      → length s.in_q ≤ 48
      → length d ≤ 64
      → waiting (queue_local api s junk d) ≡ with_newest (waiting s) d
  unfolding queue_local
  waiting-queue_local s junk d h l =
      waiting-push_in api s (item_of junk (take (min_of item_size (length d)) d)) h
      ∙ ap (with_newest (waiting s)) (
          contents-item_of junk (take (min_of item_size (length d)) d)
          ∙ take_all (min_of item_size (length d)) d (ground arith))

  -- A Ready or an Activate is no tag write and reaches `answer`.
  set_report-answer :
      (s : Console) (junk : List ℕ) (report_id : ℕ) (buffer : List ℕ)
      → report_id ≢ 0xEE
      → 1 ≤ length buffer
      → (byte buffer 0 ≡ sky_cmd_ready) ⊎ (byte buffer 0 ≡ sky_cmd_activate)
      → (set_report api s junk report_id buffer).0 ≡ answer api s junk buffer
  unfolding set_report
  set_report-answer s junk report_id buffer e h c = rw (other, full, elsewhere) refl
    where
      other : (report_id == 0xEE) ≡ false
      other = ground arith

      full : ltb (length buffer) 1 ≡ false
      full = ground arith

      elsewhere : is_tag_write buffer ≡ false
      elsewhere = answer-not_write buffer c

  ready-on_tun_in :
      (s : Console) (junk reply : List ℕ)
      → 1 ≤ length reply
      → byte reply 0 ≡ sky_cmd_ready
      → ready_learned (on_tun_in api s junk reply)
        ≡ (overwrite s.ready_resp 0 reply, length reply % 256)
  unfolding on_tun_in
  ready-on_tun_in s junk reply lo r =
      let is_ready : (byte reply 0 == sky_cmd_ready) ≡ true = ground arith in
      rw (le→leb 1 (length reply) lo, is_ready) refl

  act-on_tun_in :
      (s : Console) (junk reply : List ℕ)
      → 1 ≤ length reply
      → byte reply 0 ≡ sky_cmd_activate
      → act_learned (on_tun_in api s junk reply)
        ≡ (set (overwrite s.act_resp 0 reply) 1 0, length reply % 256)
  unfolding on_tun_in
  act-on_tun_in s junk reply lo r =
      let not_ready : (byte reply 0 == sky_cmd_ready) ≡ false = ground arith in
      let is_act : (byte reply 0 == sky_cmd_activate) ≡ true = ground arith in
      rw (le→leb 1 (length reply) lo, not_ready, is_act) refl

  -- What the console gets for a Ready while that reply is learned.
  ready-set_report :
      (s : Console) (junk reply old : List ℕ) (report_id : ℕ) (buffer : List ℕ)
      → HasBuffers s
      → length reply ≤ 64
      → ready_learned s ≡ (overwrite old 0 reply, length reply % 256)
      → report_id ≢ 0xEE
      → 1 ≤ length buffer
      → byte buffer 0 ≡ sky_cmd_ready
      → waiting (set_report api s junk report_id buffer).0 ≡ with_newest (waiting s) reply
  unfolding answer
  ready-set_report s junk reply old report_id buffer v hi k e h b =
      let same : take s.ready_len s.ready_resp ≡ reply =
        ap (λ p. take p.1 p.0) k ∙ learned api old reply hi in
      rw (set_report-answer s junk report_id buffer e h (inl b), b)
        (waiting-queue_local s junk (take s.ready_len s.ready_resp) v.queue
            (subst (λ t. length t ≤ 64) (sym same) hi)
          ∙ ap (with_newest (waiting s)) same)

  -- What it gets for an Activate with a flag while that reply is learned.
  act-set_report :
      (s : Console) (junk reply old : List ℕ) (report_id : ℕ) (buffer : List ℕ)
      → HasBuffers s
      → length reply ≤ 64
      → act_learned s ≡ (set (overwrite old 0 reply) 1 0, length reply % 256)
      → report_id ≢ 0xEE
      → 2 ≤ length buffer
      → byte buffer 0 ≡ sky_cmd_activate
      → let s' = (set_report api s junk report_id buffer).0 in
        (waiting s' ≡ with_newest (waiting s) (set reply 1 (byte buffer 1)))
        × (s'.console_active ≡ not (byte buffer 1 == 0))
  unfolding answer queue_local push_in
  act-set_report s junk reply old report_id buffer v hi k e h b =
      let flag = byte buffer 1 in
      let same : take s.act_len (set s.act_resp 1 flag) ≡ set reply 1 flag =
        ap₂ take (ap (λ p. p.1) k) (
          sym (twice_set s.act_resp 0 flag)
          ∙ ap (λ p. set p.0 1 flag) k
          ∙ twice_set (overwrite old 0 reply) 0 flag)
        ∙ take-second_set (length reply % 256) (overwrite old 0 reply) flag
        ∙ ap (λ t. set t 1 flag) (learned api old reply hi) in
      rw
        (
          set_report-answer s junk report_id buffer e (omega arith) (inr b),
          le→leb 2 (length buffer) h,
          b,
        )
        (
          waiting-queue_local
                (record s { act_resp = set s.act_resp 1 flag; console_active = not (flag == 0) })
                junk (take s.act_len (set s.act_resp 1 flag)) v.queue
                (subst (λ t. length t ≤ 64) (sym same)
                  (subst (λ n. n ≤ 64) (sym (length-second_set reply flag)) hi))
              ∙ ap (with_newest (waiting s)) same,
          refl,
        )

  -- After a reply of the portal's side to Ready and any events, no frame with another such reply among
  -- them, the console's Ready queues that reply, byte for byte, as the newest report to it.
  pub answer_to_ready :
      (s : Console) (junk junk' reply : List ℕ) (es : List Event) (report_id : ℕ) (buffer : List ℕ)
      → HasBuffers s
      → 1 ≤ length reply
      → length reply ≤ 64
      → byte reply 0 ≡ sky_cmd_ready
      → NoneBrings sky_cmd_ready es
      → report_id ≢ 0xEE
      → 1 ≤ length buffer
      → byte buffer 0 ≡ sky_cmd_ready
      → let s' = run api (on_tun_in api s junk reply) es in
        waiting (set_report api s' junk' report_id buffer).0 ≡ with_newest (waiting s') reply
  answer_to_ready s junk junk' reply es report_id buffer v lo hi r none e h b =
      let (buffers, kept) =
        ready_learned-run api (on_tun_in api s junk reply) es
          (HasBuffers-on_tun_in api s junk reply v hi) none in
      ready-set_report (run api (on_tun_in api s junk reply) es) junk' reply s.ready_resp report_id
        buffer buffers hi (kept ∙ ready-on_tun_in s junk reply lo r) e h b

  -- After a reply of the portal's side to Activate and any events, no frame with another such reply
  -- among them, the console's Activate with a flag queues that reply with the flag as its second byte,
  -- every other byte as it was, as the newest report to it; and the portal counts as activated exactly
  -- if the flag is not 0.
  pub answer_to_activate :
      (s : Console) (junk junk' reply : List ℕ) (es : List Event) (report_id : ℕ) (buffer : List ℕ)
      → HasBuffers s
      → 1 ≤ length reply
      → length reply ≤ 64
      → byte reply 0 ≡ sky_cmd_activate
      → NoneBrings sky_cmd_activate es
      → report_id ≢ 0xEE
      → 2 ≤ length buffer
      → byte buffer 0 ≡ sky_cmd_activate
      → let s' = run api (on_tun_in api s junk reply) es in
        let s'' = (set_report api s' junk' report_id buffer).0 in
        (waiting s'' ≡ with_newest (waiting s') (set reply 1 (byte buffer 1)))
        × (s''.console_active ≡ not (byte buffer 1 == 0))
  answer_to_activate s junk junk' reply es report_id buffer v lo hi r none e h b =
      let (buffers, kept) =
        act_learned-run api (on_tun_in api s junk reply) es
          (HasBuffers-on_tun_in api s junk reply v hi) none in
      act-set_report (run api (on_tun_in api s junk reply) es) junk' reply s.act_resp report_id
        buffer buffers hi (kept ∙ act-on_tun_in s junk reply lo r) e h b
