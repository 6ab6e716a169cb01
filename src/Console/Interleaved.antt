-- ===== src/Console/Interleaved.antt =====
-- The calls of `write_task` of console-side/src/main.c and the frames that arrive between them, as one
-- sequence: the attempts of `Console.Live` are such a sequence.
use wireless_skyportal_conne.Prelude.{
  ℕ, zero, suc, ◌≡◌, refl, ap, sym, ◌∙◌, true, List, [], ◌∷◌, ◌++◌, append_assoc, none, some, map,
  ◌==◌, if◌then◌else◌, Bool-cases, inl, inr,
}
use wireless_skyportal_conne.Rtos.{receive_cases}
use wireless_skyportal_conne.Console.{Console, Apis, on_link_recv}
use wireless_skyportal_conne.Console.Writer.{acks, write_frame}
use wireless_skyportal_conne.Console.Live.{
  Frame, Attempt, arrivals, empty_sem, await_ack, attempt, live_loop,
}
use wireless_skyportal_conne.Console.Task.{Pc, Write, testing, awaiting, taken, ended, write_step}

pub data Act : Type 0 where
  calls : (now : ℕ) → Act
  hears : (f : Frame) → Act

module _ (api : Apis) where
  -- The statics and the place of the task after those, and its frames.
  unfoldable pub play : Console → Pc → List Act → Console × Pc × List (List ℕ)
  play s pc [] = (s, pc, [])
  play s pc (calls now ∷ acts) =
      let t = write_step api s pc now in
      let r = play t.console t.pc acts in (r.0, r.1, t.frames ++ r.2)
  play s pc (hears f ∷ acts) = play (on_link_recv api s f.junk f.type f.bytes f.len) pc acts

  play-append :
      (s : Console) (pc : Pc) (xs ys : List Act)
      → play s pc (xs ++ ys)
        ≡ (let r = play s pc xs in let r' = play r.0 r.1 ys in (r'.0, r'.1, r.2 ++ r'.2))
  unfolding play
  play-append s pc [] ys = refl
  play-append s pc (calls now ∷ xs) ys =
      let t = write_step api s pc now in
      let r = play t.console t.pc xs in
      let r' = play r.0 r.1 ys in
      ap (λ (p : Console × Pc × List (List ℕ)). (p.0, p.1, t.frames ++ p.2))
        (play-append t.console t.pc xs ys)
      ∙ ap (λ fs. (r'.0, r'.1, fs)) (sym (append_assoc t.frames r.2 r'.2))
  play-append s pc (hears f ∷ xs) ys =
      play-append (on_link_recv api s f.junk f.type f.bytes f.len) pc xs ys

  play-hears :
      (s : Console) (pc : Pc) (fs : List Frame) (acts : List Act)
      → play s pc (map hears fs ++ acts) ≡ play (arrivals api s fs) pc acts
  unfolding play arrivals
  play-hears s pc [] acts = refl
  play-hears s pc (f ∷ fs) acts =
      play-hears (on_link_recv api s f.junk f.type f.bytes f.len) pc fs acts

  -- The calls of one attempt with its frames between them: those that come last only arrive if the wait
  -- got the semaphore.
  unfoldable pub attempt_acts : Console → Attempt → List Act
  attempt_acts s a =
      map hears a.before
      ++ (calls 0
          ∷ calls 0
          ∷ (map hears a.during
              ++ (calls 0
                  ∷ (let waits = arrivals api (empty_sem api (arrivals api s a.before)) a.during in
                      elim (api.sem.receive waits.ack_sem) [
                        | none ↦ []
                        | some (_, rest) ↦ map hears a.after ++ (calls 0 ∷ [])
                      ]))))

  -- Those of the attempts from number `k` on, with `n` left, up to the one that is acknowledged, or to the
  -- end of the loop.
  unfoldable pub loop_acts : (ℕ → Attempt) → ℕ → ℕ → ℕ → Console → List Act
  loop_acts script zero k seq s = calls 0 ∷ []
  loop_acts script (suc n) k seq s =
      let r = attempt api s (script k) in
      let rest = loop_acts script n (suc k) seq r.0 in
      attempt_acts s (script k) ++ (if acks seq r.1 then [] else rest)

  play-attempt :
      (s : Console) (w : Write) (left : ℕ) (a : Attempt)
      → play s (testing w (suc left)) (attempt_acts s a) ≡ (
          let r = attempt api s a in
          (
            r.0,
            if acks w.seq r.1 then ended w true else testing w left,
            write_frame w.seq w.item ∷ [],
          ))
  unfolding attempt await_ack play write_step attempt_acts
  play-attempt s w left a =
      let s' = empty_sem api (arrivals api s a.before) in
      let waits = arrivals api s' a.during in
      play-hears s (testing w (suc left)) a.before _
      ∙ ap (λ p. (p.0, p.1, write_frame w.seq w.item ∷ p.2))
          (play-hears s' (awaiting w left) a.during _)
      ∙ elim (receive_cases api.sem waits.ack_sem) [
        | inl e ↦ rw (write_step, await_ack, e) refl
        | inr (t, rest, e, q) ↦
            let s'' = record waits { ack_sem = rest } in
            rw (write_step, await_ack, e)
              (ap (λ p. (p.0, p.1, write_frame w.seq w.item ∷ p.2))
                (play-hears s'' (taken w left) a.after (calls 0 ∷ [])
                  ∙ last (arrivals api s'' a.after)))
      ]
    where
      last :
          (r : Console)
          → play r (taken w left) (calls 0 ∷ [])
            ≡ (r, if r.acked_seq == w.seq then ended w true else testing w left, [])
      last r = elim (Bool-cases (r.acked_seq == w.seq)) [ inl e ↦ rw e refl | inr e ↦ rw e refl ]

  -- Whatever frames arrive in the attempts at a write, the task's calls one by one, with these arrivals
  -- between them, send the same frames, come to the same outcome and leave the same statics.
  live_loop-play :
      (script : ℕ → Attempt) (n k : ℕ) (w : Write) (s : Console)
      → play s (testing w n) (loop_acts script n k w.seq s)
        ≡ (let r = live_loop api script n k w.seq w.item s in (r.0, ended w r.2, r.1))
  unfolding live_loop play write_step loop_acts
  live_loop-play script zero k w s = refl
  live_loop-play script (suc n) k w s =
      let r = attempt api s (script k) in
      play-append s (testing w (suc n)) (attempt_acts s (script k)) _
      ∙ elim (Bool-cases (acks w.seq r.1)) [
        | inl f ↦ rw (f, play-attempt s w n (script k), f) refl
        | inr f ↦
            rw (f, play-attempt s w n (script k), f, live_loop-play script n (suc k) w r.0) refl
      ]
