-- ===== src/System/Numbers.antt =====
-- The numbers of the writes that `write_task` of console-side/src/main.c takes in hand, and what an ACK
-- of one of them tells.
use wireless_skyportal_conne.Prelude.{
  ℕ, suc, ◌^◌, ◌<◌, ◌≤◌, ◌≡◌, ◌⊎◌, arith, ap, sym, subst, ◌∙◌, true, false, List, [], ◌∷◌, ◌++◌,
  ◌==◌, Option, some, length, drop, inl, inr, Among, Among-append_right, All,
}
use wireless_skyportal_conne.Frame.{hdr_init, hdr_at, tunnel_bytes, link_t_tun_write}
use wireless_skyportal_conne.Console.{contents}
use wireless_skyportal_conne.Console.Writer.{write_frame}
use wireless_skyportal_conne.Console.Task.{Write}
use wireless_skyportal_conne.System.Answers.{Written, Among-All}

-- From the first one on, the newest at the head.
abbrev pub IsNumbered : List Write → Type 0
IsNumbered [] = Unit {0}
IsNumbered (w ∷ ws) = (w.seq ≡ suc (length ws)) × IsNumbered ws

pub number_in :
    (w : Write) (ws : List Write) → IsNumbered ws → Among w ws → (1 ≤ w.seq) × (w.seq ≤ length ws)
number_in w [] v h = absurd h
number_in w (x ∷ ws) v (inl e) =
    let f : w.seq ≡ suc (length ws) = ap (λ (t : Write). t.seq) e ∙ v.0 in
    (omega (arith, f), omega (arith, f))
number_in w (x ∷ ws) v (inr h) = let (lo, hi) = number_in w ws v.1 h in (lo, omega (arith, hi))

-- No two writes have the same number.
pub number_once :
    (a b : Write) (ws : List Write)
    → IsNumbered ws
    → Among a ws
    → Among b ws
    → a.seq ≡ b.seq
    → a ≡ b
number_once a b [] v h k e = absurd h
number_once a b (x ∷ ws) v (inl f) (inl g) e = f ∙ sym g
number_once a b (x ∷ ws) v (inl f) (inr k) e =
    let g : a.seq ≡ suc (length ws) = ap (λ (t : Write). t.seq) f ∙ v.0 in
    let (lo, hi) = number_in b ws v.1 k in absurd (omega (arith, e, g, hi))
number_once a b (x ∷ ws) v (inr h) (inl f) e =
    let g : b.seq ≡ suc (length ws) = ap (λ (t : Write). t.seq) f ∙ v.0 in
    let (lo, hi) = number_in a ws v.1 h in absurd (omega (arith, e, g, hi))
number_once a b (x ∷ ws) v (inr h) (inr k) e = number_once a b ws v.1 h k e

-- A write taken in hand, with the number in a `uint16_t`.
abbrev pub Begun : List Write → Write → Type 0
Begun begun w = Among w begun × (w.seq < 2 ^ 16)

-- A frame of the console's side that is no write, or one of those writes.
pub data Numbered (begun : List Write) (frame : List ℕ) : Type 0 where
  no_write : ((hdr_at frame).type == link_t_tun_write) ≡ false → Numbered begun frame
  write : (w : Write) → Begun begun w → frame ≡ write_frame w.seq w.item → Numbered begun frame

-- A write of that number was taken in hand, and its bytes have been transferred to the real portal.
abbrev pub Done : List Write → List (Option (List ℕ)) → ℕ → Type 0
Done begun transferred seq =
    (w : Write) × Among w begun × (w.seq ≡ seq) × Among (some (contents w.item)) transferred

pub Begun-more : (new begun : List Write) (w : Write) → Begun begun w → Begun (new ++ begun) w
Begun-more new begun w (m, h) = (Among-append_right w new begun m, h)

pub Numbered-more :
    (new begun : List Write) (frame : List ℕ) → Numbered begun frame → Numbered (new ++ begun) frame
Numbered-more new begun frame (no_write e) = no_write e
Numbered-more new begun frame (write w b e) = write w (Begun-more new begun w b) e

pub Done-more :
    (new begun : List Write) (done transferred : List (Option (List ℕ))) (seq : ℕ)
    → Done begun transferred seq
    → Done (new ++ begun) (done ++ transferred) seq
Done-more new begun done transferred seq (w, m, e, d) = (
  w,
  Among-append_right w new begun m,
  e,
  Among-append_right (some (contents w.item)) done transferred d,
)

number_sent :
    (seq : ℕ) (len : ℕ) (bytes : List ℕ)
    → seq < 2 ^ 16
    → (hdr_at (tunnel_bytes (hdr_init link_t_tun_write seq) len bytes)).seq ≡ seq
number_sent seq len bytes h = omega arith

-- What was known of the frame of a write is known of the write.
pub Done-Written :
    (begun : List Write) (to_portal : List (List ℕ)) (transferred : List (Option (List ℕ)))
    (seq : ℕ)
    → All (Numbered begun) to_portal
    → Written to_portal transferred seq
    → Done begun transferred seq
unfolding write_frame
Done-Written begun to_portal transferred seq all (frame, m, t, n, d) =
    go (Among-All (Numbered begun) frame to_portal m all)
  where
    go : Numbered begun frame → Done begun transferred seq
    go (no_write e) = absurd (differ (ap (λ k. k == link_t_tun_write) (sym t) ∙ e))
      where
        differ : true ≡ false → ⊥
        differ h = cc
    go (write w (b, h) e) = (
      w,
      b,
      sym (number_sent w.seq w.item.len (contents w.item) h) ∙ ap (λ f. (hdr_at f).seq) (sym e) ∙ n,
      subst (λ f. Among (some (drop 7 f)) transferred) e d,
    )

-- The write that the console's side last heard to be acknowledged, if any.
abbrev pub Heard : List Write → List (Option (List ℕ)) → ℕ → Type 0
Heard begun transferred seq = (seq ≡ 0) ⊎ Done begun transferred seq

pub Heard-more :
    (new begun : List Write) (done transferred : List (Option (List ℕ))) (seq : ℕ)
    → Heard begun transferred seq
    → Heard (new ++ begun) (done ++ transferred) seq
Heard-more new begun done transferred seq (inl e) = inl e
Heard-more new begun done transferred seq (inr d) = inr (Done-more new begun done transferred seq d)

-- That number is the one of the write in hand: it is that write which has been transferred.
pub Heard-once :
    (begun : List Write) (transferred : List (Option (List ℕ))) (seq : ℕ) (w : Write)
    → IsNumbered begun
    → Heard begun transferred seq
    → Among w begun
    → seq ≡ w.seq
    → Among (some (contents w.item)) transferred
Heard-once begun transferred seq w v (inl e) m f =
    let (lo, hi) = number_in w begun v m in absurd (omega (arith, lo, e, f))
Heard-once begun transferred seq w v (inr (w', m', e, d)) m f =
    subst (λ t. Among (some (contents t.item)) transferred) (number_once w' w begun v m' m (e ∙ f))
      d
