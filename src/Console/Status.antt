-- ===== src/Console/Status.antt =====
-- `display_task` of console-side/src/main.c: the event log of what changes, and the status screen.
use wireless_skyportal_conne.Prelude.{
  ℕ, suc, ◌+◌, ◌-◌, Bool, true, false, ◌&&◌, not, List, [], ◌∷◌, ◌++◌, ◌==◌, ltb, if◌then◌else◌,
  Option, none, some, ℤ, pos, negsuc, take,
}
use wireless_skyportal_conne.Console.{Console}
use wireless_skyportal_conne.Display.{rgb565}
use wireless_skyportal_conne.Console.Log.{dlog, decimal, drawn_log}

abbrev pub white : ℕ
white = rgb565 255 255 255

abbrev pub yellow : ℕ
yellow = rgb565 255 255 0

abbrev pub green : ℕ
green = rgb565 0 255 0

abbrev pub red : ℕ
red = rgb565 255 80 80

abbrev pub cyan : ℕ
cyan = rgb565 0 255 255

abbrev pub grey : ℕ
grey = rgb565 150 150 150

-- What a round reads from the link, TinyUSB and the clock.
pub record Readings : Type 0 where
  pub link : Bool
  pub rssi : ℤ
  pub mnt : Bool
  pub now : ℕ

-- The locals of the task: what it has logged last. `none` is the count of -1 that it starts with.
pub record Seen : Type 0 where
  pub p_link : Bool
  pub p_mnt : Bool
  pub p_cnt : Option ℕ
  pub p_toy : ℕ

abbrev pub first_seen : Seen
first_seen = record { p_link = false; p_mnt = false; p_cnt = none; p_toy = 0xFFFF }

-- A call of `draw_line`.
pub record Line : Type 0 where
  pub row : ℕ
  pub text : List ℕ
  pub fg : ℕ

abbrev pub same_flag : Bool → Bool → Bool
same_flag true b = b
same_flag false b = not b

abbrev pub same_count : Option ℕ → ℕ → Bool
same_count none n = false
same_count (some m) n = m == n

-- `%d`
unfoldable pub signed : ℤ → List ℕ
signed (pos n) = decimal 10 n
signed (negsuc n) = b'-' ∷ decimal 10 (n + 1)

-- "link up %ddB", "link lost"
unfoldable pub link_text : Bool → ℤ → List ℕ
link_text true rssi =
    (b'l' ∷ b'i' ∷ b'n' ∷ b'k' ∷ b' ' ∷ b'u' ∷ b'p' ∷ b' ' ∷ [])
    ++ (signed rssi ++ (b'd' ∷ b'B' ∷ []))
link_text false rssi = (b'l' ∷ b'i' ∷ b'n' ∷ b'k' ∷ b' ' ∷ b'l' ∷ b'o' ∷ b's' ∷ b't' ∷ [])

-- "host connected", "host gone"
unfoldable pub host_text : Bool → List ℕ
host_text true =
    (b'h' ∷ b'o' ∷ b's' ∷ b't' ∷ b' ' ∷ b'c' ∷ b'o' ∷ b'n' ∷ b'n' ∷ b'e' ∷ b'c' ∷ b't' ∷ b'e' ∷ b'd'
      ∷ [])
host_text false = (b'h' ∷ b'o' ∷ b's' ∷ b't' ∷ b' ' ∷ b'g' ∷ b'o' ∷ b'n' ∷ b'e' ∷ [])

-- "figures: %d"
unfoldable pub count_text : ℕ → List ℕ
count_text n = (b'f' ∷ b'i' ∷ b'g' ∷ b'u' ∷ b'r' ∷ b'e' ∷ b's' ∷ b':' ∷ b' ' ∷ []) ++ decimal 10 n

-- "toy id=%u"
unfoldable pub toy_text : ℕ → List ℕ
toy_text toy = (b't' ∷ b'o' ∷ b'y' ∷ b' ' ∷ b'i' ∷ b'd' ∷ b'=' ∷ []) ++ decimal 5 toy

abbrev pub log_if : Bool → Console → List ℕ → Console
log_if true s text = dlog s text
log_if false s text = s

-- The four tests for a change, each with its line.
unfoldable pub log_changes : Console → Seen → Readings → Console
log_changes s seen b =
    let s1 = log_if (not (same_flag seen.p_link b.link)) s (link_text b.link b.rssi) in
    let s2 = log_if (not (same_flag seen.p_mnt b.mnt)) s1 (host_text b.mnt) in
    let s3 = log_if (not (same_count seen.p_cnt s.present_count)) s2 (count_text s.present_count) in
    log_if (not (seen.p_toy == s.toy) && not (s.toy == 0)) s3 (toy_text s.toy)

-- The locals after them.
unfoldable pub now_seen : Console → Readings → Seen
now_seen s b = record {
  p_link = b.link;
  p_mnt = b.mnt;
  p_cnt = some s.present_count;
  p_toy = s.toy;
}

abbrev pub writing : Console → Readings → Bool
writing s b = ltb (b.now - s.last_write_ms) 400

-- The five lines of the status; `snprintf` keeps 23 characters in its buffer of 24.
unfoldable pub status_lines : Console → Readings → List Line
status_lines s b =
    record {
      row = 0;
      text =
          (b'W' ∷ b'L' ∷ b' ' ∷ b'P' ∷ b'O' ∷ b'R' ∷ b'T' ∷ b'A' ∷ b'L' ∷ b' ' ∷ b' ' ∷ b'T' ∷ b'U'
            ∷ b'N' ∷ b'N' ∷ b'E' ∷ b'L' ∷ []);
      fg = yellow;
    }
    ∷ record {
      row = 1;
      text = take 23 (
          (b'L' ∷ b'I' ∷ b'N' ∷ b'K' ∷ b' ' ∷ b' ' ∷ [])
          ++ ((if b.link then (b'O' ∷ b'K' ∷ []) else (b'-' ∷ b'-' ∷ []))
              ++ (b' ' ∷ (signed b.rssi ++ (b'd' ∷ b'B' ∷ [])))));
      fg = if b.link then green else red;
    }
    ∷ record {
      row = 2;
      text = take 23 (
          (b'U' ∷ b'S' ∷ b'B' ∷ b' ' ∷ b' ' ∷ b' ' ∷ [])
          ++ (if b.mnt
              then (b'C' ∷ b'O' ∷ b'N' ∷ b'N' ∷ b'E' ∷ b'C' ∷ b'T' ∷ b'E' ∷ b'D' ∷ [])
              else (b'-' ∷ b'-' ∷ b'-' ∷ b'-' ∷ [])));
      fg = if b.mnt then cyan else grey;
    }
    ∷ record {
      row = 3;
      text = take 23 (
          (b'F' ∷ b'I' ∷ b'G' ∷ b' ' ∷ [])
          ++ (decimal 5 s.toy
              ++ ((b' ' ∷ b'x' ∷ [])
                  ++ (decimal 10 s.present_count
                      ++ (b' '
                          ∷ (if writing s b
                              then (b'W' ∷ b'R' ∷ b'I' ∷ b'T' ∷ b'E' ∷ [])
                              else []))))));
      fg = if writing s b then white else if not (s.present_count == 0) then white else grey;
    }
    ∷ record {
      row = 4;
      text = take 23 (
          (b'W' ∷ b':' ∷ [])
          ++ (decimal 10 s.writes
              ++ ((b' ' ∷ b'S' ∷ b'N' ∷ b'D' ∷ b':' ∷ []) ++ decimal 10 s.sound_pkts)));
      fg = grey;
    }
    ∷ []

-- `draw_line(5 + i, …)` of the log, from row `row` on.
unfoldable pub log_rows : ℕ → List (List ℕ) → List Line
log_rows row [] = []
log_rows row (text ∷ texts) =
    record { row = row; text = text; fg = grey } ∷ log_rows (suc row) texts

-- One round: the changes are logged, and all ten lines drawn.
unfoldable pub display_round : Console → Seen → Readings → Console × Seen × List Line
display_round s seen b =
    let s' = log_changes s seen b in
    (s', now_seen s b, status_lines s b ++ log_rows 5 (drawn_log s'))
