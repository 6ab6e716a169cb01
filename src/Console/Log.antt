-- ===== src/Console/Log.antt =====
-- The event log of console-side/src/main.c: a ring of five lines of 20 characters.
use wireless_skyportal_conne.Prelude.{
  ℕ, zero, suc, ◌+◌, ◌/◌, ◌%◌, ◌<◌, ◌≡◌, refl, arith, ◌∙◌, List, [], ◌∷◌, ◌++◌, ltb, if◌then◌else◌,
  length, take, drop, set, get_or, length-set,
}
use wireless_skyportal_conne.Console.{Console}

abbrev pub log_lines : ℕ
log_lines = 5

abbrev pub lcd_cols : ℕ
lcd_cols = 20

-- `text` is what the format gives; a line keeps 20 characters of it.
unfoldable pub dlog : Console → List ℕ → Console
dlog s text = record s {
  log = set s.log s.log_head (take lcd_cols text);
  log_head = (s.log_head + 1) % log_lines;
}

-- `%u`, for a number of at most `fuel` digits.
unfoldable pub decimal : ℕ → ℕ → List ℕ
decimal zero n = []
decimal (suc fuel) n =
    let rest = decimal fuel (n / 10) in
    if ltb n 10 then (b'0' + n) ∷ [] else rest ++ ((b'0' + n % 10) ∷ [])

-- "WRITE %u LOST!" of a `uint16_t`.
unfoldable pub lost_text : ℕ → List ℕ
unfolding decimal
lost_text seq =
    (b'W' ∷ b'R' ∷ b'I' ∷ b'T' ∷ b'E' ∷ b' ' ∷ [])
    ++ (decimal 5 seq ++ (b' ' ∷ b'L' ∷ b'O' ∷ b'S' ∷ b'T' ∷ b'!' ∷ []))

-- The lines from `i` on, `n` of them, as `display_task` draws them from the head on.
unfoldable pub drawn_from : ℕ → ℕ → List (List ℕ) → ℕ → List (List ℕ)
drawn_from zero i log head = []
drawn_from (suc n) i log head =
    get_or log ((head + i) % log_lines) [] ∷ drawn_from n (suc i) log head

unfoldable pub drawn_log : Console → List (List ℕ)
unfolding drawn_from
drawn_log s = drawn_from log_lines 0 s.log s.log_head

ring_shift :
    (log : List (List ℕ)) (head : ℕ) (line : List ℕ)
    → length log ≡ 5
    → head < 5
    → drawn_from 5 0 (set log head line) ((head + 1) % 5)
      ≡ drop 1 (drawn_from 5 0 log head) ++ (line ∷ [])
unfolding drawn_from
ring_shift (a ∷ b ∷ c ∷ d ∷ e ∷ []) zero line l h = refl
ring_shift (a ∷ b ∷ c ∷ d ∷ e ∷ []) (suc zero) line l h = refl
ring_shift (a ∷ b ∷ c ∷ d ∷ e ∷ []) (suc (suc zero)) line l h = refl
ring_shift (a ∷ b ∷ c ∷ d ∷ e ∷ []) (suc (suc (suc zero))) line l h = refl
ring_shift (a ∷ b ∷ c ∷ d ∷ e ∷ []) (suc (suc (suc (suc zero)))) line l h = refl
ring_shift (a ∷ b ∷ c ∷ d ∷ e ∷ []) (suc (suc (suc (suc (suc n))))) line l h = absurd (omega arith)
ring_shift (a ∷ b ∷ c ∷ d ∷ e ∷ f ∷ log) head line l h = absurd (omega arith)
ring_shift (a ∷ b ∷ c ∷ d ∷ []) head line l h = absurd (omega arith)
ring_shift (a ∷ b ∷ c ∷ []) head line l h = absurd (omega arith)
ring_shift (a ∷ b ∷ []) head line l h = absurd (omega arith)
ring_shift (a ∷ []) head line l h = absurd (omega arith)
ring_shift [] head line l h = absurd (omega arith)

-- The log as it is declared: five lines, and a head inside.
pub record HasLog (s : Console) : Type 0 where
  pub lines : length s.log ≡ 5
  pub head_in : s.log_head < 5

-- A logged line goes to the bottom of what is drawn, cut to 20 characters; the top line goes, the four
-- others move up in their order, and the log keeps its shape.
pub drawn_log-dlog :
    (s : Console) (text : List ℕ)
    → HasLog s
    → (drawn_log (dlog s text) ≡ drop 1 (drawn_log s) ++ (take 20 text ∷ [])) × HasLog (dlog s text)
unfolding drawn_log dlog
drawn_log-dlog s text v = (
  ring_shift s.log s.log_head (take 20 text) v.lines v.head_in,
  record { lines = length-set s.log s.log_head (take 20 text) ∙ v.lines; head_in = omega arith },
)
