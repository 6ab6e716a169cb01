-- ===== src/System/Air.antt =====
-- The frames in the air between the boards, by what is common to them.
use wireless_skyportal_conne.Prelude.{
  ℕ, zero, suc, ◌≡◌, ◌⊎◌, refl, Bool-cases, List, [], ◌∷◌, none, some, inl, inr, All, All-append,
}
use wireless_skyportal_conne.Link.{Link}
use wireless_skyportal_conne.Link
use wireless_skyportal_conne.System.Sends.{frame_at, send_one, send_all}

pub All-frame_at :
    (P : List ℕ → Type 0) (frames : List (List ℕ)) (i : ℕ)
    → All P frames
    → (frame_at frames i ≡ none) ⊎ ((f : List ℕ) × (frame_at frames i ≡ some f) × P f)
All-frame_at P [] i h = inl refl
All-frame_at P (f ∷ frames) zero h = inr (f, refl, h.0)
All-frame_at P (f ∷ frames) (suc i) h = All-frame_at P frames i h.1

All-send_one :
    (P : List ℕ → Type 0) (l : Link) (frame : List ℕ) → P frame → All P (send_one l frame)
unfolding Link.link_send
All-send_one P l frame h = elim (Bool-cases l.linked) [ inl e ↦ rw e (h, tt) | inr e ↦ rw e tt ]

pub All-send_all :
    (P : List ℕ → Type 0) (l : Link) (frames : List (List ℕ))
    → All P frames
    → All P (send_all l frames)
All-send_all P l [] h = tt
All-send_all P l (frame ∷ frames) h =
    All-append P (send_one l frame) (send_all l frames) (All-send_one P l frame h.0)
      (All-send_all P l frames h.1)
