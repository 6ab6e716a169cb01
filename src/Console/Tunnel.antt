-- ===== src/Console/Tunnel.antt =====
-- What `on_link_recv` makes of the portal's reports and of acknowledgements.
use wireless_skyportal_conne.Prelude.{
  ℕ, suc, ◌+◌, ◌%◌, ◌≤◌, ◌≡◌, refl, arith, ap, ap₂, sym, subst, ◌∙◌, true, false, ◌&&◌, ◌||◌, not,
  List, [], ◌∷◌, ◌++◌, ◌==◌, ltb, if◌then◌else◌, length, take, drop, map, map-append, overwrite,
  slice-overwrite_self, take-append_left, take_all, le→leb, Bool-cases, inl, inr,
}
use wireless_skyportal_conne.Sky.{byte, sky_cmd_ready, sky_cmd_activate, sky_cmd_status}
use wireless_skyportal_conne.Frame.{hdr_init, tunnel_bytes, link_t_tun_in}
use wireless_skyportal_conne.Rtos.{push_newest_lem}
use wireless_skyportal_conne.Console.{
  Console, Item, Apis, item_of, contents, snoop_in, push_in, on_tun_in, on_link_recv, min_of,
}

-- The buffers have the sizes that they are declared with, and no queue holds more than its length.
pub record HasBuffers (s : Console) : Type 0 where
  pub ready : length s.ready_resp ≡ 64
  pub act : length s.act_resp ≡ 64
  pub queue : length s.in_q ≤ 48

pub contents-item_of : (junk bytes : List ℕ) → contents (item_of junk bytes) ≡ bytes
contents-item_of junk bytes = slice-overwrite_self junk 0 bytes (length bytes) (omega arith) refl

pub first-overwrite : (xs ys : List ℕ) → 1 ≤ length ys → byte (overwrite xs 0 ys) 0 ≡ byte ys 0
unfolding overwrite
first-overwrite xs [] h = absurd (omega arith)
first-overwrite xs (y ∷ ys) h = refl

-- What waits for the console: the reports, oldest first.
abbrev pub waiting : Console → List (List ℕ)
waiting s = map contents s.in_q

-- A queue of at most 48 reports after one more.
abbrev pub with_newest : List (List ℕ) → List ℕ → List (List ℕ)
with_newest q r = (if ltb (length q) 48 then q else drop 1 q) ++ (r ∷ [])

length-map-contents : (q : List Item) → length (map contents q) ≡ length q
length-map-contents [] = refl
length-map-contents (it ∷ q) = ap suc (length-map-contents q)

map-newest :
    (q : List Item) (it : Item)
    → map contents ((if ltb (length q) 48 then q else drop 1 q) ++ (it ∷ []))
      ≡ with_newest (map contents q) (contents it)
map-newest [] it = refl
map-newest (x ∷ q) it = ground (
  arith,
  length-map-contents q,
  map-append contents (x ∷ q) (it ∷ []),
  map-append contents q (it ∷ []),
)

min_of-le : (limit n : ℕ) → n ≤ limit → min_of limit n ≡ n
min_of-le limit n h = ground arith

-- The learned replies to Ready and to Activate.
abbrev pub answers : Console → List ℕ × List ℕ
answers s = (take s.ready_len s.ready_resp, take s.act_len s.act_resp)

module _ (api : Apis) where
  pub waiting-push_in :
      (s : Console) (it : Item)
      → length s.in_q ≤ 48
      → waiting (push_in api s it) ≡ with_newest (waiting s) (contents it)
  unfolding push_in
  waiting-push_in s it h =
      ap (map contents) (push_newest_lem api.items 48 s.in_q it (omega arith) h)
      ∙ map-newest s.in_q it

  snoop_in_keeps :
      (s : Console) (r : List ℕ) (len : ℕ)
      → ((snoop_in s r len).in_q ≡ s.in_q)
        × ((snoop_in s r len).console_active ≡ s.console_active)
        × (answers (snoop_in s r len) ≡ answers s)
  unfolding snoop_in
  snoop_in_keeps s r len = ground arith

  -- A frame of the portal's side reaches `on_tun_in` with the report that was sent.
  pub on_link_recv-tun_in :
      (s : Console) (junk report rest : List ℕ)
      → length report ≤ 64
      → on_link_recv api s junk link_t_tun_in
          (tunnel_bytes (hdr_init link_t_tun_in 0) (length report) report ++ rest)
          (7 + length report)
        ≡ on_tun_in api s junk report
  unfolding on_link_recv
  on_link_recv-tun_in s junk report rest h =
      rw (le→leb 7 (7 + length report) (omega arith), min_of-le 64 (length report) h)
        (ap (on_tun_in api s junk) (
          take-append_left (length report) report rest (omega arith)
          ∙ take_all (length report) report (omega arith)))

  pub learned :
      (old report : List ℕ)
      → length report ≤ 64
      → take (length report % 256) (overwrite old 0 report) ≡ report
  learned old report h =
      ap (λ n. take n (overwrite old 0 report)) (omega_mod report h)
      ∙ slice-overwrite_self old 0 report (length report) (omega arith) refl
    where
      omega_mod : (r : List ℕ) → length r ≤ 64 → length r % 256 ≡ length r
      omega_mod r l = omega arith

  ready_only : (b : ℕ) → (b == sky_cmd_ready) ≡ true → (b == sky_cmd_activate) ≡ false
  ready_only b e = ground arith

  answers-push_in : (s : Console) (it : Item) → answers (push_in api s it) ≡ answers s
  unfolding push_in
  answers-push_in s it = refl

  -- A report of 1 to 64 bytes from the portal's side. A reply to Ready or to Activate is kept as the
  -- answer to the console's next such command and goes no further; a status report is held back until
  -- the console has activated the portal; every other report is the newest in the queue to the console,
  -- byte for byte, and a full queue loses its oldest for it. Nothing changes the other answer.
  pub on_tun_in_lem :
      (s : Console) (junk report : List ℕ)
      → HasBuffers s
      → 1 ≤ length report
      → length report ≤ 64
      → let s' = on_tun_in api s junk report in
        let held = byte report 0 == sky_cmd_status && not s.console_active in
        let ready = byte report 0 == sky_cmd_ready in
        let act = byte report 0 == sky_cmd_activate in
        (waiting s' ≡ (if ready || act || held then waiting s else with_newest (waiting s) report))
        × (answers s' ≡ (
          if ready then report else take s.ready_len s.ready_resp,
          if act then report else take s.act_len s.act_resp,
        ))
  unfolding on_tun_in
  on_tun_in_lem s junk report v lo hi = elim (Bool-cases (byte report 0 == sky_cmd_ready)) [
    | inl e ↦
        rw (le→leb 1 (length report) lo, e, ready_only (byte report 0) e)
          (refl, ap (λ t. (t, take s.act_len s.act_resp)) (learned s.ready_resp report hi))
    | inr e ↦ elim (Bool-cases (byte report 0 == sky_cmd_activate)) [
      | inl f ↦
          rw (le→leb 1 (length report) lo, e, f)
            (refl, ap (λ t. (take s.ready_len s.ready_resp, t)) (learned s.act_resp report hi))
      | inr f ↦
          let it = item_of junk report in
          let kept = snoop_in_keeps s it.bytes it.len in
          let s1 = snoop_in s it.bytes it.len in
          rw (le→leb 1 (length report) lo, e, f, first-overwrite junk report lo)
            (elim (Bool-cases (byte report 0 == sky_cmd_status && not s.console_active)) [
              | inl g ↦ rw g (ap (map contents) kept.0, kept.2)
              | inr g ↦ rw g (
                waiting-push_in s1 it (subst (λ q. length q ≤ 48) (sym kept.0) v.queue)
                    ∙ ap₂ (λ q r. with_newest (map contents q) r) kept.0
                        (contents-item_of junk report),
                answers-push_in s1 it ∙ kept.2,
              )
            ])
    ]
  ]
