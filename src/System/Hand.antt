-- ===== src/System/Hand.antt =====
-- What is known of `write_task` of console-side/src/main.c, wherever it stands: its numbers, the write in
-- hand, the last ACK, and the writes that it has found acknowledged.
use wireless_skyportal_conne.Prelude.{
  ℕ, zero, suc, ◌%◌, ◌^◌, ◌≤◌, ◌≡◌, refl, arith, sym, subst, ◌∙◌, true, false, List, [], ◌∷◌, ◌++◌,
  ◌==◌, ==_iff, Option, some, length, Bool-cases, inl, inr, Among, Among-append_right, All, All-map,
}
use wireless_skyportal_conne.Rtos.{receive_cases}
use wireless_skyportal_conne.Console.{Console, Apis, contents}
use wireless_skyportal_conne.Console.Log.{dlog}
use wireless_skyportal_conne.Console.Live.{empty_sem}
use wireless_skyportal_conne.Console.Task.{
  Pc, Write, InHand, idle, testing, emptied, awaiting, taken, ended, write_step,
}
use wireless_skyportal_conne.System.Up.{Tagged}
use wireless_skyportal_conne.System.Numbers.{
  IsNumbered, Begun, Numbered, write, Heard, Heard-more, Heard-once,
}

-- A tag write of the games console whose bytes have been transferred to the real portal.
abbrev pub Delivered : List (List ℕ) → List (Option (List ℕ)) → Write → Type 0
Delivered commanded transferred w =
    Tagged commanded w.item × Among (some (contents w.item)) transferred

pub record IsKept (commanded : List (List ℕ)) (transferred : List (Option (List ℕ)))
    (begun acked : List Write) (s : Console) (pc : Pc) : Type 0 where
  pub next : s.write_seq ≡ suc (length begun) % 2 ^ 16
  pub numbered : length begun ≤ 65535 → IsNumbered begun
  pub hand : InHand (Begun begun) pc
  pub heard : Heard begun transferred s.acked_seq
  pub confirmed : length begun ≤ 65535 → All (Delivered commanded transferred) acked

module _ {begun acked : List Write} {pc : Pc} where
  -- Something else happens on the boards.
  pub IsKept-more :
      (commanded new : List (List ℕ)) (transferred done : List (Option (List ℕ))) (s s' : Console)
      → IsKept commanded transferred begun acked s pc
      → ((w : Write) → Tagged commanded w.item → Tagged new w.item)
      → s'.write_seq ≡ s.write_seq
      → Heard begun (done ++ transferred) s'.acked_seq
      → IsKept new (done ++ transferred) begun acked s' pc
  IsKept-more commanded new transferred done s s' v f e h = record {
    next = e ∙ v.next;
    numbered = v.numbered;
    hand = v.hand;
    heard = h;
    confirmed = λ few.
        All-map (Delivered commanded transferred) (Delivered new (done ++ transferred)) each acked
          (v.confirmed few);
  }
    where
      each : (w : Write) → Delivered commanded transferred w → Delivered new (done ++ transferred) w
      each w (t, m) = (f w t, Among-append_right (some (contents w.item)) done transferred m)

module _ (apis : Apis) (commanded : List (List ℕ)) (transferred : List (Option (List ℕ)))
    (begun acked : List Write) where
  -- Where the task stands changes alone.
  IsKept-pc :
      (s s' : Console) (pc pc' : Pc)
      → IsKept commanded transferred begun acked s pc
      → s'.write_seq ≡ s.write_seq
      → s'.acked_seq ≡ s.acked_seq
      → InHand (Begun begun) pc'
      → IsKept commanded transferred begun acked s' pc'
  IsKept-pc s s' pc pc' v e f h = record {
    next = e ∙ v.next;
    numbered = v.numbered;
    hand = h;
    heard = subst (λ n. Heard begun transferred n) (sym f) v.heard;
    confirmed = v.confirmed;
  }

  pub IsKept-write_step :
      (s : Console) (pc : Pc) (now : ℕ)
      → IsKept commanded transferred begun acked s pc
      → InHand (λ w. Tagged commanded w.item) pc
      → let t = write_step apis s pc now in
        IsKept commanded transferred (t.begun ++ begun) (t.acked ++ acked) t.console t.pc
        × All (Numbered (t.begun ++ begun)) t.frames
  unfolding write_step empty_sem dlog
  IsKept-write_step s idle now v k = elim (receive_cases apis.items s.write_q) [
    | inl e ↦ rw (write_step, e) (v, tt)
    | inr (it, rest, e, q) ↦
        let w : Write = record { seq = s.write_seq; item = it } in
        rw (write_step, e)
          (
            record {
              next = omega (arith, v.next);
              numbered = λ few. (omega (arith, v.next, few), v.numbered (omega (arith, few)));
              hand = (inl refl, omega (arith, v.next));
              heard = Heard-more (w ∷ []) begun [] transferred s.acked_seq v.heard;
              confirmed = λ few. v.confirmed (omega (arith, few));
            },
            tt,
          )
  ]
  IsKept-write_step s (testing w zero) now v k = (IsKept-pc s s _ _ v refl refl v.hand, tt)
  IsKept-write_step s (testing w (suc left)) now v k = elim (receive_cases apis.sem s.ack_sem) [
    | inl e ↦ rw (empty_sem, e) (IsKept-pc s s _ _ v refl refl v.hand, tt)
    | inr (t, rest, e, q) ↦ rw (empty_sem, e) (IsKept-pc s _ _ _ v refl refl v.hand, tt)
  ]
  IsKept-write_step s (emptied w left) now v k =
      (IsKept-pc s s _ _ v refl refl v.hand, (write w v.hand refl, tt))
  IsKept-write_step s (awaiting w left) now v k = elim (receive_cases apis.sem s.ack_sem) [
    | inl e ↦ rw (write_step, e) (IsKept-pc s s _ _ v refl refl v.hand, tt)
    | inr (t, rest, e, q) ↦ rw (write_step, e) (IsKept-pc s _ _ _ v refl refl v.hand, tt)
  ]
  IsKept-write_step s (taken w left) now v k = elim (Bool-cases (s.acked_seq == w.seq)) [
    | inl e ↦ rw e (
      record {
        next = v.next;
        numbered = v.numbered;
        hand = v.hand;
        heard = v.heard;
        confirmed = λ few. (
          (
            k,
            Heard-once begun transferred s.acked_seq w (v.numbered few) v.heard v.hand.0
                ((==_iff s.acked_seq w.seq).0 e),
          ),
          v.confirmed few,
        );
      },
      tt,
    )
    | inr e ↦ rw e (IsKept-pc s s _ _ v refl refl v.hand, tt)
  ]
  IsKept-write_step s (ended w true) now v k = (IsKept-pc s _ _ _ v refl refl tt, tt)
  IsKept-write_step s (ended w false) now v k = (IsKept-pc s _ _ _ v refl refl tt, tt)
