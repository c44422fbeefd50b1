-- ===== src/Display.antt =====
-- rdpedisp.c: the display control channel, with the limits and the scale factors of utils.c. A `sint32`
-- is known by the `uint32` of its bits. What `ui_get_monitor_layout` stores is an argument.
pub mod Layout
mod Tests
use rdesktop.Common.{
  ℕ, ◌+◌, ◌-◌, ◌*◌, ◌/◌, ◌%◌, ◌^◌, Bool, true, false, not, ◌&&◌, ◌==◌, ltb, u32, has_bit, length,
}
use rdesktop.Common.{
  if◌then◌else◌, List, [], ◌∷◌, Option, none, some, Result, ok, exit, undefined, ◌>>=◌,
}
use rdesktop.Stream.{Stream, s_realloc, s_reset, s_mark_end, in_uint32_le, in_uint8s, out_uint32_le}
use rdesktop.Secure.{Security}
use rdesktop.Channels.{Numbers}
use rdesktop.Dvc.{Slot, Dvc, dvc_channels_is_available, dvc_channels_register, dvc_send}

-- RDPEDISP_CHANNEL_NAME
abbrev pub rdpedisp_channel_name : List ℕ
rdpedisp_channel_name =
    0x4d ∷ 0x69 ∷ 0x63 ∷ 0x72 ∷ 0x6f ∷ 0x73 ∷ 0x6f ∷ 0x66 ∷ 0x74 ∷ 0x3a ∷ 0x3a ∷ 0x57 ∷ 0x69 ∷ 0x6e
    ∷ 0x64 ∷ 0x6f ∷ 0x77 ∷ 0x73 ∷ 0x3a ∷ 0x3a ∷ 0x52 ∷ 0x44 ∷ 0x53 ∷ 0x3a ∷ 0x3a ∷ 0x44 ∷ 0x69
    ∷ 0x73 ∷ 0x70 ∷ 0x6c ∷ 0x61 ∷ 0x79 ∷ 0x43 ∷ 0x6f ∷ 0x6e ∷ 0x74 ∷ 0x72 ∷ 0x6f ∷ 0x6c ∷ 0 ∷ []

-- `RDP_MONITOR_LAYOUT`
pub record Monitor : Type 0 where
  pub left : ℕ
  pub top : ℕ
  pub right : ℕ
  pub bottom : ℕ
  pub flags : ℕ

pub record Scales : Type 0 where
  pub physwidth : ℕ
  pub physheight : ℕ
  pub desktopscale : ℕ
  pub devicescale : ℕ

-- The globals that wait for a resize.
pub record Resize : Type 0 where
  pub g_pending_resize_defer : Bool
  pub tv_sec : ℕ
  pub tv_usec : ℕ

unfoldable pub scale_factors : (width height dpi : ℕ) → Scales
scale_factors width height dpi =
    if dpi == 0
    then record { physwidth = 0; physheight = 0; desktopscale = 0; devicescale = 0 }
    else record {
      physwidth = u32 (width * 254) / u32 (dpi * 10);
      physheight = u32 (height * 254) / u32 (dpi * 10);
      desktopscale = if ltb dpi 96 then 100 else u32 (dpi * 100 + 48) / 96;
      devicescale = if ltb dpi 134 then 100 else (if ltb dpi 173 then 140 else 180);
    }

-- The product by which it divides may wrap around to 0.
unfoldable pub utils_calculate_dpi_scale_factors : (width height dpi : ℕ) → Result Scales
utils_calculate_dpi_scale_factors width height dpi =
    if not (dpi == 0) && (u32 (dpi * 10) == 0)
    then exit undefined
    else ok (scale_factors width height dpi)

abbrev pub limited : ℕ → ℕ
limited n = if ltb 8192 n then 8192 else (if ltb n 200 then 200 else n)

unfoldable pub utils_apply_session_size_limitations : (width height : ℕ) → ℕ × ℕ
utils_apply_session_size_limitations width height = (limited (width - width % 2), limited height)

unfoldable pub rdpedisp_process_caps_pdu : Stream → Resize → Result Resize
rdpedisp_process_caps_pdu s r = do
  (monitors, s1) ← in_uint32_le s
  (factor_a, s2) ← in_uint32_le s1
  (factor_b, s3) ← in_uint32_le s2
  ok (record { g_pending_resize_defer = false; tv_sec = 0; tv_usec = 0 })

unfoldable pub rdpedisp_process_pdu : Stream → Resize → Result Resize
rdpedisp_process_pdu s r = do
  (type, s1) ← in_uint32_le s
  s2 ← in_uint8s s1 4
  if type == 5 then rdpedisp_process_caps_pdu s2 r else ok r

-- The fields of a monitor that follow from the scale factors, with its orientation.
unfoldable pub write_scales : Scales → Stream → Result Stream
write_scales f s = do
  s ← out_uint32_le s f.physwidth
  s ← out_uint32_le s f.physheight
  s ← out_uint32_le s 0
  s ← out_uint32_le s f.desktopscale
  out_uint32_le s f.devicescale

unfoldable pub write_place : Monitor → (width height : ℕ) → Stream → Result Stream
write_place monitor width height s = do
  s ← out_uint32_le s (if has_bit monitor.flags 1 then 1 else 0)
  s ← out_uint32_le s monitor.left
  s ← out_uint32_le s monitor.top
  s ← out_uint32_le s width
  out_uint32_le s height

unfoldable pub rdpedisp_write_monitor_layout :
    (dpi : ℕ) → Monitor → (width height : ℕ) → Stream → Result Stream
rdpedisp_write_monitor_layout dpi monitor width height s = do
  s1 ← write_place monitor width height s
  f ← utils_calculate_dpi_scale_factors width height dpi
  write_scales f s1

-- `last - first + 1` of two `sint32`, as a `uint32`
abbrev pub extent : (first last : ℕ) → ℕ
extent first last = u32 ((last + 2 ^ 32 - first) + 1)

unfoldable pub write_monitors : (dpi : ℕ) → List Monitor → Stream → Result Stream
write_monitors dpi [] s = ok s
write_monitors dpi (m ∷ ms) s = do
  s1 ← rdpedisp_write_monitor_layout dpi m (extent m.left m.right) (extent m.top m.bottom) s
  write_monitors dpi ms s1

-- One monitor of the size of the session, unless the layout of several is known.
unfoldable pub monitors_of : Option (List Monitor) → (width height : ℕ) → List Monitor
monitors_of none width height =
    record {
      left = 0;
      top = 0;
      right = u32 (width + 2 ^ 32 - 1);
      bottom = u32 (height + 2 ^ 32 - 1);
      flags = 1;
    }
    ∷ []
monitors_of (some monitors) width height = monitors

-- `struct stream` after `memset`
abbrev pub no_data : Stream
no_data = record { buf = []; p = 0; end = 0; size = 0; hdr = λ _. none }

unfoldable pub rdpedisp_init_packet : Stream → (type length_ : ℕ) → Result Stream
rdpedisp_init_packet s type length_ = do
  s ← out_uint32_le (s_reset (s_realloc s length_)) type
  out_uint32_le s length_

-- What is handed to `rdpedisp_send`.
unfoldable pub monitor_layout : (dpi : ℕ) → List Monitor → Result Stream
monitor_layout dpi monitors = do
  s ← rdpedisp_init_packet no_data 2 (u32 (16 + length monitors * 40))
  s ← out_uint32_le s 40
  s ← out_uint32_le s (length monitors)
  s ← write_monitors dpi monitors s
  ok (s_mark_end s)

unfoldable pub rdpedisp_is_available : List Slot → Bool
rdpedisp_is_available channels = dvc_channels_is_available rdpedisp_channel_name channels

unfoldable pub rdpedisp_init : (handler : ℕ) → List Slot → Bool × List Slot
rdpedisp_init handler channels = dvc_channels_register rdpedisp_channel_name handler channels

module _ (n : Numbers) (c : Security) where
  unfoldable pub rdpedisp_send : Stream → Dvc → Result Dvc
  rdpedisp_send s d = dvc_send n c rdpedisp_channel_name s d

  unfoldable pub rdpedisp_send_monitor_layout_pdu :
      (dpi : ℕ) → Option (List Monitor) → (width height : ℕ) → Dvc → Result Dvc
  rdpedisp_send_monitor_layout_pdu dpi layout width height d = do
    s ← monitor_layout dpi (monitors_of layout width height)
    rdpedisp_send s d

  unfoldable pub rdpedisp_set_session_size :
      (dpi : ℕ) → Option (List Monitor) → (width height : ℕ) → Dvc → Result Dvc
  rdpedisp_set_session_size dpi layout width height d =
      let (w, h) = utils_apply_session_size_limitations width height in
      if not (rdpedisp_is_available d.channels)
      then ok d
      else rdpedisp_send_monitor_layout_pdu dpi layout w h d
