-- ===== src/Portal/Button.antt =====
-- `button_task` and `led_task` of portal-side/src/main.c.
use wireless_skyportal_conne.Prelude.{
  ℕ, suc, ◌+◌, ◌≤◌, ◌≡◌, refl, arith, Bool, true, false, ◌&&◌, not, List, [], ◌∷◌, if◌then◌else◌,
  ltb,
}
use wireless_skyportal_conne.Portal.Led.{led_set}

-- A round of the task reads the level, and after a falling edge reads it again 50 ms later: `again`.
-- The result is the new `prev`, and whether `do_restore` is called.
abbrev pub button_round : Bool → Bool → Bool → Bool × Bool
button_round prev now again = (now, if prev && not now then not again else false)

unfoldable pub button_task : Bool → List (Bool × Bool) → List Bool
button_task prev [] = []
button_task prev ((now, again) ∷ rounds) =
    let r = button_round prev now again in r.1 ∷ button_task r.0 rounds

-- The number of restores.
abbrev pub restores : List Bool → ℕ
restores [] = 0
restores (true ∷ bs) = suc (restores bs)
restores (false ∷ bs) = restores bs

-- The number of times that the level goes from high to low.
abbrev pub falls : Bool → List (Bool × Bool) → ℕ
falls prev [] = 0
falls prev ((now, again) ∷ rounds) =
    let rest = falls now rounds in if prev && not now then suc rest else rest

-- The button is held down from the next round on: every level is low.
abbrev pub held : List (Bool × Bool) → List (Bool × Bool)
held [] = []
held ((now, again) ∷ rounds) = (false, again) ∷ held rounds

-- The button makes no more restores than its level falls, and however long it is held down after a
-- reading of low, it makes none.
pub button_task_once :
    (prev : Bool) (rounds : List (Bool × Bool))
    → (restores (button_task prev rounds) ≤ falls prev rounds)
      × (restores (button_task false (held rounds)) ≡ 0)
unfolding button_task
button_task_once prev [] = (omega arith, refl)
button_task_once true ((true, again) ∷ rounds) = button_task_once true rounds
button_task_once true ((false, true) ∷ rounds) =
    let (a, b) = button_task_once false rounds in (omega (arith, a), b)
button_task_once true ((false, false) ∷ rounds) =
    let (a, b) = button_task_once false rounds in (omega (arith, a), b)
button_task_once false ((true, again) ∷ rounds) = button_task_once true rounds
button_task_once false ((false, again) ∷ rounds) = button_task_once false rounds

-- A round of `led_task`: the new `blink`, and what it sets. The time is an `int64_t`, and a write after
-- `now` counts as recent, as it does there.
unfoldable pub led_round : Bool → Bool → ℕ → ℕ → Bool → Bool → Bool × List ℕ
led_round has_chan blink now last_write_ms linked portal =
    if ltb now (last_write_ms + 300)
    then (
      not blink,
      led_set has_chan (if not blink then 90 else 0) (if not blink then 90 else 0)
          (if not blink then 90 else 0),
    )
    else if linked && portal
    then (blink, led_set has_chan 0 30 0)
    else if linked
    then (blink, led_set has_chan 0 0 40)
    else (blink, led_set has_chan 40 0 0)
