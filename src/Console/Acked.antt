-- ===== src/Console/Acked.antt =====
-- What it takes for `write_task` of console-side/src/main.c to count a write as acknowledged.
use wireless_skyportal_conne.Prelude.{
  ℕ, zero, suc, ◌+◌, ◌≤◌, ◌<◌, ◌≡◌, refl, arith, ap, sym, subst, ◌∙◌, true, false, List, [], ◌∷◌,
  ◌++◌, none, some, length, Bool-cases, inl, inr, ==_iff,
}
use wireless_skyportal_conne.Rtos.{receive_cases}
use wireless_skyportal_conne.Console.{Console, Item, Apis}
use wireless_skyportal_conne.Console.Writer.{timeout, given, acks}
use wireless_skyportal_conne.Console.Live.{
  Attempt, arrivals, empty_sem, await_ack, attempt, live_loop,
}
use wireless_skyportal_conne.Console.Arrivals.{
  any_ack, last_ack, Acks, Acks-append, acked_seq-arrivals, no_ack-arrivals, binary-arrivals,
}

module _ (api : Apis) where
  ack_sem-empty_sem : (s : Console) → length s.ack_sem ≤ 1 → (empty_sem api s).ack_sem ≡ []
  unfolding empty_sem
  ack_sem-empty_sem s h = elim (receive_cases api.sem s.ack_sem) [
    | inl e ↦ rw (empty_sem, e) (nothing_left s.ack_sem e)
    | inr (x, rest, e, q) ↦ rw (empty_sem, e) (one_less x rest q)
  ]
    where
      nothing_left : (q : List (Unit {0})) → api.sem.receive q ≡ none → q ≡ []
      nothing_left [] e = refl
      nothing_left (x ∷ q) e = absurd (ground (arith, api.sem.receive_cons x q))

      one_less : (x : Unit {0}) (rest : List (Unit {0})) → s.ack_sem ≡ x ∷ rest → rest ≡ []
      one_less x [] q = refl
      one_less x (y ∷ rest) q = absurd (omega (arith, h, ap length q))

  await_ack-none :
      (s : Console) (a : Attempt)
      → api.sem.receive s.ack_sem ≡ none
      → await_ack api s a ≡ (s, timeout)
  unfolding await_ack
  await_ack-none s a e = rw (await_ack, e) refl

  await_ack-some :
      (s : Console) (a : Attempt) (x : Unit {0}) (rest : List (Unit {0}))
      → api.sem.receive s.ack_sem ≡ some (x, rest)
      → let s' = arrivals api (record s { ack_sem = rest }) a.after in
        await_ack api s a ≡ (s', given s'.acked_seq)
  unfolding await_ack arrivals
  await_ack-some s a x rest e = rw (await_ack, e) refl

  binary-await_ack :
      (s : Console) (a : Attempt) → length s.ack_sem ≤ 1 → length (await_ack api s a).0.ack_sem ≤ 1
  binary-await_ack s a h = elim (receive_cases api.sem s.ack_sem) [
    | inl e ↦ subst (λ r. length r.0.ack_sem ≤ 1) (sym (await_ack-none s a e)) h
    | inr (x, rest, e, q) ↦
        subst (λ r. length r.0.ack_sem ≤ 1) (sym (await_ack-some s a x rest e))
          (binary-arrivals api a.after (record s { ack_sem = rest })
            (omega (arith, h, ap length q)))
  ]

  -- A wait that began with the semaphore empty and ended with the right number.
  Acks-await_ack :
      (s : Console) (a : Attempt) (seq : ℕ)
      → s.ack_sem ≡ []
      → acks seq (await_ack api (arrivals api s a.during) a).1 ≡ true
      → Acks seq (a.during ++ a.after)
  Acks-await_ack s a seq empty h =
      let s2 = arrivals api s a.during in
      elim (receive_cases api.sem s2.ack_sem) [
        | inl e ↦ absurd (no_timeout (subst (λ r. acks seq r.1 ≡ true) (await_ack-none s2 a e) h))
        | inr (x, rest, e, q) ↦
            let got = subst (λ r. acks seq r.1 ≡ true) (await_ack-some s2 a x rest e) h in
            let s3 = arrivals api (record s2 { ack_sem = rest }) a.after in
            let number =
              sym (
                acked_seq-arrivals api a.after (record s2 { ack_sem = rest })
                ∙ ap (λ n. last_ack n a.after) (acked_seq-arrivals api a.during s))
              ∙ (==_iff s3.acked_seq seq).0 got in
            elim (Bool-cases (any_ack a.during)) [
              | inl f ↦
                  subst (λ n. Acks n (a.during ++ a.after)) number
                    (Acks-append a.during a.after s.acked_seq f)
              | inr f ↦ absurd (empty_not (sym (no_ack-arrivals api a.during s empty f) ∙ q))
            ]
      ]
    where
      no_timeout : false ≡ true → ⊥
      no_timeout e = cc

      empty_not : {x : Unit {0}} {q : List (Unit {0})} → [] ≡ x ∷ q → ⊥
      empty_not e = cc

  attempt_lem :
      (s : Console) (a : Attempt) (seq : ℕ)
      → length s.ack_sem ≤ 1
      → (length (attempt api s a).0.ack_sem ≤ 1)
        × (acks seq (attempt api s a).1 ≡ true → Acks seq (a.during ++ a.after))
  unfolding attempt
  attempt_lem s a seq h =
      let s1 = empty_sem api (arrivals api s a.before) in
      let empty = ack_sem-empty_sem (arrivals api s a.before) (binary-arrivals api a.before s h) in
      let at_most : length s1.ack_sem ≤ 1 = rw empty (omega arith) in
      (
        binary-await_ack (arrivals api s1 a.during) a (binary-arrivals api a.during s1 at_most),
        Acks-await_ack s1 a seq empty,
      )

  live_loop-next :
      (script : ℕ → Attempt) (n k seq : ℕ) (w : Item) (s : Console)
      → acks seq (attempt api s (script k)).1 ≡ false
      → (live_loop api script (suc n) k seq w s).2
        ≡ (live_loop api script n (suc k) seq w (attempt api s (script k)).0).2
  unfolding live_loop
  live_loop-next script n k seq w s e = rw e refl

  -- With any frames arriving before the semaphore is emptied, during the wait for it and before the number
  -- is read, and the semaphore binary at first, a write counts as acknowledged only if in one of its
  -- attempts, after the emptying, an ACK bearing its number arrived.
  pub live_loop-Acks :
      (script : ℕ → Attempt) (n k seq : ℕ) (w : Item) (s : Console)
      → length s.ack_sem ≤ 1
      → (live_loop api script n k seq w s).2 ≡ true
      → (j : ℕ) × (j < n) × Acks seq ((script (k + j)).during ++ (script (k + j)).after)
  unfolding live_loop
  live_loop-Acks script zero k seq w s h e = absurd cc
  live_loop-Acks script (suc n) k seq w s h e =
      let r = attempt api s (script k) in
      let (binary, acked) = attempt_lem s (script k) seq h in
      elim (Bool-cases (acks seq r.1)) [
        | inl g ↦
            let here : k ≡ k + 0 = omega arith in
            (
              0,
              omega arith,
              subst (λ i. Acks seq ((script i).during ++ (script i).after)) here (acked g),
            )
        | inr g ↦
            let (j, l, later) =
              live_loop-Acks script n (suc k) seq w r.0 binary
                (sym (live_loop-next script n k seq w s g) ∙ e) in
            let one_on : suc k + j ≡ k + suc j = omega arith in
            (
              suc j,
              omega arith,
              subst (λ i. Acks seq ((script i).during ++ (script i).after)) one_on later,
            )
      ]
