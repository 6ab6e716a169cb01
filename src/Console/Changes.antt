-- ===== src/Console/Changes.antt =====
-- What `display_task` of console-side/src/main.c logs and draws in a round.
use wireless_skyportal_conne.Prelude.{ℕ, Bool, ◌&&◌, not, List, [], ◌∷◌, ◌++◌, ◌==◌, if◌then◌else◌}
use wireless_skyportal_conne.Console.{Console}
use wireless_skyportal_conne.Console.Log.{dlog}
use wireless_skyportal_conne.Console.Status.{
  Readings, Seen, same_flag, same_count, link_text, host_text, count_text, toy_text,
}

-- The lines for what differs from what was seen last, in order.
abbrev line_unless : Bool → List ℕ → List (List ℕ)
line_unless same text = if same then [] else text ∷ []

unfoldable pub notices : Console → Seen → Readings → List (List ℕ)
notices s seen b =
    line_unless (same_flag seen.p_link b.link) (link_text b.link b.rssi)
    ++ (line_unless (same_flag seen.p_mnt b.mnt) (host_text b.mnt)
        ++ (line_unless (same_count seen.p_cnt s.present_count) (count_text s.present_count)
            ++ (if not (seen.p_toy == s.toy) && not (s.toy == 0) then toy_text s.toy ∷ [] else [])))

abbrev pub logged : Console → List (List ℕ) → Console
logged s [] = s
logged s (text ∷ texts) = logged (dlog s text) texts
