-- ===== src/Console/Events.antt =====
-- What can happen to console-side/src/main.c, one handler or round at a time.
use wireless_skyportal_conne.Prelude.{
  ℕ, ◌≡◌, Bool, false, ◌&&◌, not, List, [], ◌∷◌, ◌==◌, leb, length, none, some,
}
use wireless_skyportal_conne.Sky.{byte, sky_cmd_activate}
use wireless_skyportal_conne.Console.{Console, Apis, on_link_recv, on_mount, set_report}
use wireless_skyportal_conne.Console.Writer.{Wait, write_round}

-- What happens to the console's side: a frame from the link, a report of the console, a (dis)connection,
-- or a round of one of the tasks that empty the queues.
pub data Event : Type 0 where
  from_link : (junk : List ℕ) (type : ℕ) (frame : List ℕ) (len : ℕ) → Event
  from_host : (junk : List ℕ) (report_id : ℕ) (buffer : List ℕ) → Event
  mounts : Event
  tx_takes : Event
  writer_takes : (waits : ℕ → Wait) (now : ℕ) → Event

-- The console's command to switch the portal on.
abbrev pub activates : Event → Bool
activates (from_host junk report_id buffer) =
    not (report_id == 0xEE)
    && leb 2 (length buffer)
    && byte buffer 0 == sky_cmd_activate
    && not (byte buffer 1 == 0)
activates (from_link junk type frame len) = false
activates mounts = false
activates tx_takes = false
activates (writer_takes waits now) = false

module _ (api : Apis) where
  unfoldable pub step : Console → Event → Console
  step s (from_link junk type frame len) = on_link_recv api s junk type frame len
  step s (from_host junk report_id buffer) = (set_report api s junk report_id buffer).0
  step s mounts = on_mount api s
  step s tx_takes = elim (api.items.receive s.in_q) [
    | none ↦ s
    | some (it, rest) ↦ record s { in_q = rest }
  ]
  step s (writer_takes waits now) = elim (api.items.receive s.write_q) [
    | none ↦ s
    | some (w, rest) ↦ (write_round (record s { write_q = rest }) w waits now).0
  ]

  unfoldable pub run : Console → List Event → Console
  run s [] = s
  run s (e ∷ es) = run (step s e) es

abbrev pub NoneActivates : List Event → Type 0
NoneActivates [] = Unit {0}
NoneActivates (e ∷ es) = (activates e ≡ false) × NoneActivates es
