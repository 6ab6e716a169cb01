-- ===== src/Portal/Backup.antt =====
-- The snapshot before the first write to a figure.
use wireless_skyportal_conne.Prelude.{
  ℕ, ◌/◌, ◌%◌, ◌^◌, ◌≤◌, ◌≡◌, refl, arith, ap, Bool, true, false, not, ◌&&◌, List, [], ◌∷◌, ◌++◌,
  length, some, ltb, if◌then◌else◌, le→leb, lt→ltb, ◌⊎◌, inl, inr, get_or, set,
}
use wireless_skyportal_conne.Bits.Fields.{single_test}
use wireless_skyportal_conne.Sky.{byte}
use wireless_skyportal_conne.Sky.Commands.{low_nibble}
use wireless_skyportal_conne.Frame.{tunnel_len, link_t_tun_write}
use wireless_skyportal_conne.Rtos.{QueueApi, send_lem}
use wireless_skyportal_conne.Portal.{
  Portal, snooped_at, request_backup, backup_first, on_write, on_link_recv,
}

-- The slot that a write frame is for.
abbrev pub write_slot : List ℕ → ℕ
write_slot frame = byte frame 8 % 16

in_range : (frame : List ℕ) → ltb (write_slot frame) 16 ≡ true
in_range frame = lt→ltb (write_slot frame) 16 (omega arith)

module _ (api : QueueApi (List ℕ)) where
  abbrev after_write : Portal → ℕ → List ℕ → Portal
  after_write p now frame = (on_link_recv api p now link_t_tun_write frame).0

  slot_lem :
      (p : Portal) (now : ℕ) (frame : List ℕ)
      → 2 ≤ tunnel_len frame
      → after_write p now frame
        ≡ backup_first api (record p { last_write_ms = now }) (write_slot frame)
  unfolding on_link_recv on_write
  slot_lem p now frame h = rw (le→leb 2 (tunnel_len frame) h, low_nibble (byte frame 8))

  -- The first write to a present figure puts its copy, as it is then, at the end of the backup queue
  -- if fewer than 4 wait there, and drops it if not; the slot is marked in both cases, and all else but
  -- the time of the write is as before.
  pub first_write_lem :
      (p : Portal) (now : ℕ) (frame : List ℕ) (q : List (List ℕ))
      → 2 ≤ tunnel_len frame
      → p.bak_q ≡ some q
      → get_or p.backed_up (write_slot frame) false ≡ false
      → p.present / 2 ^ write_slot frame % 2 ≡ 1
      → after_write p now frame ≡ record p {
        last_write_ms = now;
        bak_q = some (if ltb (length q) 4 then q ++ (snooped_at p (write_slot frame) ∷ []) else q);
        backed_up = set p.backed_up (write_slot frame) true;
      }
  unfolding backup_first request_backup
  first_write_lem p now frame q l e fresh here =
      rw
        (
          slot_lem p now frame l,
          single_test (write_slot frame) p.present,
          fresh,
          here,
          in_range frame,
          e,
        )
        (ap
          (λ t. record p {
            last_write_ms = now;
            bak_q = some t;
            backed_up = set p.backed_up (write_slot frame) true;
          })
          (send_lem api 4 q (snooped_at p (write_slot frame))))

  -- A write to a slot that is marked, or that holds no figure, takes no copy: only the time changes.
  later_write_lem :
      (p : Portal) (now : ℕ) (frame : List ℕ)
      → 2 ≤ tunnel_len frame
      → (get_or p.backed_up (write_slot frame) false ≡ true)
        ⊎ (p.present / 2 ^ write_slot frame % 2 ≡ 0)
      → after_write p now frame ≡ record p { last_write_ms = now }
  unfolding backup_first
  later_write_lem p now frame l h =
      rw (slot_lem p now frame l, single_test (write_slot frame) p.present, in_range frame)
        (elim h [ inl marked ↦ rw marked | inr gone ↦ rw gone (skip _ _ _) ])
    where
      skip : (b : Bool) (x y : Portal) → (if not b && false then x else y) ≡ y
      skip true x y = refl
      skip false x y = refl
