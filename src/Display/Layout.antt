-- ===== src/Display/Layout.antt =====
-- The layout message, byte for byte.
use rdesktop.Common.{
  ℕ, ◌+◌, ◌-◌, ◌*◌, ◌%◌, ◌^◌, ◌≤◌, ◌<◌, ◌≡◌, refl, sym, ◌∙◌, arith, List, [], ◌∷◌, ◌++◌, none,
}
use rdesktop.Common.{
  ok, length, take, length-append, true, false, ◌==◌, u32, has_bit, if◌then◌else◌, Bool-cases, inl,
  inr,
}
use mathlib.Core.List.{append-nil}
use mathlib.Core.Path.{subst}
use rdesktop.Stream.{Stream, s_realloc, s_reset, s_mark_end, out_uint8a, out_uint32_le, le_bytes}
use rdesktop.Stream.Valid.{IsValid}
use rdesktop.Stream.Write.{Writes, Writes-le, s_realloc_lem}
use rdesktop.Stream.Puts.{Puts, bytes-Puts, then-Puts, step-Puts}
use rdesktop.Secure.{Security}
use rdesktop.Channels.{Numbers}
use rdesktop.Dvc.{Dvc, dvc_send}
use rdesktop.Display.{
  Monitor, Scales, scale_factors, utils_calculate_dpi_scale_factors, limited,
  utils_apply_session_size_limitations, write_scales, write_place, rdpedisp_write_monitor_layout,
  extent, write_monitors, monitors_of,
}
use rdesktop.Display.{
  no_data, rdpedisp_init_packet, monitor_layout, rdpedisp_is_available, rdpedisp_channel_name,
  rdpedisp_send, rdpedisp_send_monitor_layout_pdu, rdpedisp_set_session_size,
}

abbrev pub scale_bytes : Scales → List ℕ
scale_bytes f =
    le_bytes 4 f.physwidth
    ++ (le_bytes 4 f.physheight
        ++ (le_bytes 4 0 ++ (le_bytes 4 f.desktopscale ++ le_bytes 4 f.devicescale)))

abbrev pub place_bytes : Monitor → (width height : ℕ) → List ℕ
place_bytes m width height =
    le_bytes 4 (if has_bit m.flags 1 then 1 else 0)
    ++ (le_bytes 4 m.left ++ (le_bytes 4 m.top ++ (le_bytes 4 width ++ le_bytes 4 height)))

abbrev pub monitor_bytes : ℕ → Monitor → List ℕ
monitor_bytes dpi m =
    let width = extent m.left m.right in
    let height = extent m.top m.bottom in
    place_bytes m width height ++ scale_bytes (scale_factors width height dpi)

abbrev pub monitors_bytes : ℕ → List Monitor → List ℕ
monitors_bytes dpi [] = []
monitors_bytes dpi (m ∷ ms) = monitor_bytes dpi m ++ monitors_bytes dpi ms

abbrev pub layout_bytes : ℕ → List Monitor → List ℕ
layout_bytes dpi ms =
    le_bytes 4 2
    ++ (le_bytes 4 (16 + length ms * 40)
        ++ (le_bytes 4 40 ++ (le_bytes 4 (length ms) ++ monitors_bytes dpi ms)))

length-monitors_bytes :
    (dpi : ℕ) (ms : List Monitor) → length (monitors_bytes dpi ms) ≡ length ms * 40
length-monitors_bytes dpi [] = refl
length-monitors_bytes dpi (m ∷ ms) = omega (
  arith,
  length-append (monitor_bytes dpi m) (monitors_bytes dpi ms),
  length-monitors_bytes dpi ms,
)

-- The density is small enough to divide by.
divides :
    (width height dpi : ℕ)
    → dpi < 2 ^ 28
    → utils_calculate_dpi_scale_factors width height dpi ≡ ok (scale_factors width height dpi)
unfolding utils_calculate_dpi_scale_factors
divides width height dpi h = elim (Bool-cases (dpi == 0)) [
  | inl zero_ ↦ rw zero_ refl
  | inr some_ ↦ let e : (u32 (dpi * 10) == 0) ≡ false = ground arith in rw (some_, e) refl
]

write_scales-Puts : (f : Scales) → Puts (write_scales f) (scale_bytes f)
unfolding write_scales out_uint32_le
write_scales-Puts f = step-Puts (le_bytes 4 f.physwidth) _ _ (
    step-Puts (le_bytes 4 f.physheight) _ _ (
      step-Puts (le_bytes 4 0) _ _
        (step-Puts (le_bytes 4 f.desktopscale) _ _ (bytes-Puts (le_bytes 4 f.devicescale)))))

write_place-Puts :
    (m : Monitor) (width height : ℕ)
    → Puts (write_place m width height) (place_bytes m width height)
unfolding write_place out_uint32_le
write_place-Puts m width height = step-Puts (le_bytes 4 (if has_bit m.flags 1 then 1 else 0)) _ _ (
    step-Puts (le_bytes 4 m.left) _ _ (
      step-Puts (le_bytes 4 m.top) _ _
        (step-Puts (le_bytes 4 width) _ _ (bytes-Puts (le_bytes 4 height)))))

write_monitor-Puts :
    (dpi : ℕ) (m : Monitor) (width height : ℕ)
    → dpi < 2 ^ 28
    → Puts
        (rdpedisp_write_monitor_layout dpi m width height)
        (place_bytes m width height ++ scale_bytes (scale_factors width height dpi))
unfolding rdpedisp_write_monitor_layout
write_monitor-Puts dpi m width height h = rw (divides width height dpi h) (
    then-Puts (write_place m width height) _ (place_bytes m width height) _
      (write_place-Puts m width height) (write_scales-Puts (scale_factors width height dpi)))

nothing-Puts : Puts (λ s. ok s) []
nothing-Puts s ws n w = (
  s,
  (
    refl,
    record {
      writes = subst (λ t. Writes s t n) (sym (append-nil ws)) (Writes-le n w (omega arith));
      moved = omega arith;
      same_hdr = refl;
    },
  ),
)

write_monitors-Puts :
    (dpi : ℕ) (ms : List Monitor)
    → dpi < 2 ^ 28
    → Puts (write_monitors dpi ms) (monitors_bytes dpi ms)
unfolding write_monitors
write_monitors-Puts dpi [] h = nothing-Puts
write_monitors-Puts dpi (m ∷ ms) h =
    then-Puts _ (write_monitors dpi ms) (monitor_bytes dpi m) (monitors_bytes dpi ms)
      (write_monitor-Puts dpi m (extent m.left m.right) (extent m.top m.bottom) h)
      (write_monitors-Puts dpi ms h)

-- The stream that `rdpedisp_init_packet` starts from.
start-Writes : (n : ℕ) → n < 2 ^ 32 → Writes (s_reset (s_realloc no_data n)) [] n
unfolding s_reset
start-Writes n h =
    let none_yet : IsValid no_data = record {
      room = refl;
      cursor = omega arith;
      mark = omega arith;
      wide = omega arith;
    } in
    let grown = s_realloc_lem n none_yet h in
    record {
      valid = record {
        room = grown.6.room;
        cursor = omega arith;
        mark = omega arith;
        wide = grown.6.wide;
      };
      before = refl;
      fits = omega (arith, grown.4);
    }

-- The steps of `monitor_layout`.
layout-steps :
    (dpi : ℕ) (ms : List Monitor) (s1 s2 s3 s4 s5 : Stream)
    → u32 (16 + length ms * 40) ≡ 16 + length ms * 40
    → out_uint8a (s_reset (s_realloc no_data (16 + length ms * 40))) (le_bytes 4 2) ≡ ok s1
    → out_uint8a s1 (le_bytes 4 (16 + length ms * 40)) ≡ ok s2
    → out_uint8a s2 (le_bytes 4 40) ≡ ok s3
    → out_uint8a s3 (le_bytes 4 (length ms)) ≡ ok s4
    → write_monitors dpi ms s4 ≡ ok s5
    → monitor_layout dpi ms ≡ ok (s_mark_end s5)
unfolding monitor_layout rdpedisp_init_packet out_uint32_le
layout-steps dpi ms s1 s2 s3 s4 s5 size e1 e2 e3 e4 e5 = rw (size, e1, e2, e3, e4, e5) refl

-- For at most 16 monitors and a density below 2^28, the message is complete, in a valid stream.
pub monitor_layout_lem :
    (dpi : ℕ) (ms : List Monitor)
    → dpi < 2 ^ 28
    → length ms ≤ 16
    → (s : Stream) × ((monitor_layout dpi ms ≡ ok s)
        × IsValid s
        × (s.end ≡ 16 + length ms * 40)
        × (take s.end s.buf ≡ layout_bytes dpi ms))
unfolding s_mark_end
monitor_layout_lem dpi ms hd hm =
    let size : u32 (16 + length ms * 40) ≡ 16 + length ms * 40 = omega arith in
    let w0 = start-Writes (16 + length ms * 40) (omega arith) in
    let long = length-monitors_bytes dpi ms in
    let k = length (monitors_bytes dpi ms) + 0 in
    let (s1, (e1, l1)) =
      bytes-Puts (le_bytes 4 2) _ [] (12 + k) (Writes-le (4 + (12 + k)) w0 (omega arith)) in
    let (s2, (e2, l2)) =
      bytes-Puts (le_bytes 4 (16 + length ms * 40)) s1 _ (8 + k)
        (Writes-le (4 + (8 + k)) l1.writes (omega arith)) in
    let (s3, (e3, l3)) =
      bytes-Puts (le_bytes 4 40) s2 _ (4 + k) (Writes-le (4 + (4 + k)) l2.writes (omega arith)) in
    let (s4, (e4, l4)) =
      bytes-Puts (le_bytes 4 (length ms)) s3 _ k (Writes-le (4 + k) l3.writes (omega arith)) in
    let (s5, (e5, l5)) = write_monitors-Puts dpi ms hd s4 _ 0 l4.writes in
    let at : s5.p ≡ 16 + length ms * 40 =
      omega
        (arith, at_start (16 + length ms * 40), l1.moved, l2.moved, l3.moved, l4.moved, l5.moved) in
    (
      s_mark_end s5,
      (
        layout-steps dpi ms s1 s2 s3 s4 s5 size e1 e2 e3 e4 e5,
        record {
          room = l5.writes.valid.room;
          cursor = l5.writes.valid.cursor;
          mark = l5.writes.valid.cursor;
          wide = l5.writes.valid.wide;
        },
        at,
        l5.writes.before,
      ),
    )
  where
    at_start : (n : ℕ) → (s_reset (s_realloc no_data n)).p ≡ 0
    at_start n = unfold s_reset in refl

-- The message for one monitor of `width` by `height` at the origin.
abbrev pub session_bytes : (dpi width height : ℕ) → List ℕ
session_bytes dpi width height =
    le_bytes 4 2
    ++ (le_bytes 4 56
        ++ (le_bytes 4 40
            ++ (le_bytes 4 1
                ++ (le_bytes 4 1
                    ++ (le_bytes 4 0
                        ++ (le_bytes 4 0
                            ++ (le_bytes 4 width
                                ++ (le_bytes 4 height
                                    ++ scale_bytes (scale_factors width height dpi)))))))))

limited-within : (n : ℕ) → (200 ≤ limited n) × (limited n ≤ 8192)
limited-within n = (ground arith, ground arith)

limited-even : (n : ℕ) → limited (n - n % 2) % 2 ≡ 0
limited-even n = ground arith

extent-size : (n : ℕ) → 1 ≤ n → n < 2 ^ 32 → extent 0 (u32 (n + 2 ^ 32 - 1)) ≡ n
extent-size n h k = omega arith

session-layout_bytes :
    (dpi width height : ℕ)
    → 1 ≤ width
    → width < 2 ^ 32
    → 1 ≤ height
    → height < 2 ^ 32
    → layout_bytes dpi (monitors_of none width height) ≡ session_bytes dpi width height
unfolding monitors_of
session-layout_bytes dpi width height w1 w2 h1 h2 =
    rw (extent-size width w1 w2, extent-size height h1 h2)
      (append-nil (session_bytes dpi width height))

-- While the channel is available, on one monitor and with a density below 2^28: the message that goes
-- to `dvc_send` is complete, and describes one monitor at the origin, whose width is even and whose
-- sides are between 200 and 8192.
pub set_session_size-sends :
    (n : Numbers) (c : Security) (dpi width height : ℕ) (d : Dvc)
    → dpi < 2 ^ 28
    → rdpedisp_is_available d.channels ≡ true
    → (w : ℕ) × (h : ℕ) × (s : Stream) × ((w % 2 ≡ 0)
        × (200 ≤ w)
        × (w ≤ 8192)
        × (200 ≤ h)
        × (h ≤ 8192)
        × IsValid s
        × (s.end ≡ 56)
        × (take s.end s.buf ≡ session_bytes dpi w h)
        × (rdpedisp_set_session_size n c dpi none width height d
            ≡ dvc_send n c rdpedisp_channel_name s d))
unfolding rdpedisp_set_session_size utils_apply_session_size_limitations
    rdpedisp_send_monitor_layout_pdu rdpedisp_send
set_session_size-sends n c dpi width height d hd available =
    let w = limited (width - width % 2) in
    let h = limited height in
    let wide = limited-within (width - width % 2) in
    let high = limited-within height in
    let (s, (e, valid, end, bytes)) =
      monitor_layout_lem dpi (monitors_of none w h) hd (unfold monitors_of in omega arith) in
    (
      w,
      h,
      s,
      (
        limited-even width,
        wide.0,
        wide.1,
        high.0,
        high.1,
        valid,
        end ∙ one_monitor w h,
        bytes
            ∙ session-layout_bytes dpi w h (omega (arith, wide.0)) (omega (arith, wide.1))
                (omega (arith, high.0)) (omega (arith, high.1)),
        rw (available, e) refl,
      ),
    )
  where
    one_monitor : (w h : ℕ) → 16 + length (monitors_of none w h) * 40 ≡ 56
    one_monitor w h = unfold monitors_of in refl
