-- ===== src/Lib.antt =====
-- Two boards that carry a USB "Portal of Power" over ESP-NOW, as modelled here:
--   real portal - [portal-side board] - radio - [console-side board] - games console
-- The portal-side board is a USB host. It tunnels every report of the real portal to the other board,
-- transfers what comes back to the real portal, keeps a live copy of each figure from the reads that
-- pass, saves a copy before the first write to a figure, and restores it at the press of a button. The
-- console-side board is a USB device. It answers the handshake from the replies it has learned, queues
-- the portal's reports for the console, and sends writes to tags until they are acknowledged.
--
-- Which file models what:
--   Sky, Sky/*        shared/sky_protocol.h: commands, reports, presence masks, CRC
--   Frame, Frame/*    shared/link_protocol.h: the messages between the boards, as packed bytes
--   Link, Link/*      portal-side/src/esp_now_link.c, which console-side/src/esp_now_link.c repeats:
--                     `recv_cb`, `rx_task`, `link_task`, `link_send`, `link_init`
--   SharedLink, SharedLink/*, Link/Direct
--                     shared/esp_now_link.c, the same link without the queue: its `recv_cb` calls the
--                     handler itself
--   Portal, Portal/*  portal-side/src/main.c: `snoop`, `on_portal_in`, `on_link_recv`,
--                     `request_backup`; Portal/Flash has `backup_task` and `do_restore`; Portal/Button
--                     `button_task` and `led_task`, Portal/Led portal-side/src/led.c,
--                     Portal/Boot the start of the flash store in `link_init`
--   TunnelHost        portal-side/src/tunnel_host.c: `iface_cb`, `device_cb` and the transfers
--   Console, Console/* console-side/src/main.c: `on_link_recv`, `tud_hid_set_report_cb`, the mount
--                     callbacks; Console/Writer has `write_task` in whole rounds,
--                     Console/Live with frames arriving during its attempts, Console/Task call by
--                     call, Console/Interleaved how the last two agree; Console/Sender `tx_task`, Console/Log
--                     `dlog` and the drawn log, Console/Screen `draw_line`, Console/Status and
--                     Console/Changes `display_task`; Console/Events runs handlers and rounds in
--                     sequence, and Console/Learned and Console/Between follow the learned answers
--                     through such a run
--   Usb               console-side/src/usb_descriptors.c: the tables, and a reader of them
--   Display, Display/* console-side/src/display.c: fill, characters, text, and `display_init`
--   System, System/*  both boards together: System/Tunnel and System/Write follow one report or write;
--                     System/World has both boards, the radio between them, the real portal with its
--                     USB host and the console as one state with a step for each handler, each round
--                     of a task and each call of `write_task`, in any order; System/Honest,
--                     System/Sent (with System/Press for the button), System/Acks and System/Delivery what
--                     holds after any such steps,
--                     System/Plugged, System/Reached and System/Unplugged with and without a portal
--                     plugged in;
--                     System/Progress, System/Rounds, System/Stages and System/Deliverable what the
--                     tasks can still bring about
--   Prelude, Bits     lists, tests and bit operations that the parts share
--   Rtos, Nvs         the FreeRTOS queue and the NVS store: records of calls with the laws that their
--                     documentation gives, and concrete instances that obey them
--   Examples          each theorem at concrete values
--
-- How state and operations correspond: a file's statics are one record (Link, Portal, Host,
-- Console); a handler, or one round of a task's endless loop, is a function from the record, the
-- time and its arguments to the new record and the calls that it makes, in order. Handlers and
-- rounds are atomic: races between tasks on the `volatile` statics are not modelled, but
-- `write_task` runs call by call in Console/Task and System/World, with any handler or task between
-- two of its calls. Bytes are naturals, with the wrap-around written where the code stores into 8,
-- 16 or 32 bits. Buffers on the stack are arguments (`junk`), as their old contents are any. A
-- transfer past the end of a buffer is `none` (tunnel_payload). Time is in ms and does not wrap. In
-- System/World the radio may lose, repeat, delay and reorder the boards' frames, from any address,
-- but carries no frame of another sender; `link_send` is taken to hand the frame to the radio. The
-- writes are told apart by numbers of 16 bits, so what is said of acknowledged writes is said of the
-- first 65535; the portal side's transfers are kept with what became of them, and its calls in their
-- order. The HID driver's answer to a transfer is not modelled: a transfer counts as failed only
-- without a device. All loops of the code have constant bounds and are recursion on them: 16 slots,
-- 64 blocks, 6 and 3 attempts, 50 polls, 8 bits of a byte; so no run is cut short.
--
-- Not modelled: the set-up of Wi-Fi, USB and tasks, with `usb_lib_task`, which only calls libraries;
-- the third-party parts console-side/src/esp_lcd_st7735.c and console-side/src/font8x8.h; and
-- shared/patch_components.py, which patches the fetched components when the boards' programs are
-- built.
pub mod Prelude
pub mod Bits
pub mod Sky
pub mod Rtos
pub mod Nvs
pub mod Frame
pub mod Portal
pub mod TunnelHost
pub mod Link
pub mod SharedLink
pub mod Display
pub mod Console
pub mod Usb
pub mod System
pub mod Examples
