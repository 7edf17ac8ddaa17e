-- ===== src/Examples/Device.antt =====
-- The driver's theorems at the device of the inputs.
use p4_hmd.Base.{ℕ, ◌+◌, ◌≤◌, ◌≡◌, refl, ap, arith, true, false, ◌⊎◌}
use p4_hmd.Base.{List, [], ◌∷◌, All, feed, length, some}
use p4_hmd.Update.Packet.{PacketHeader}
use p4_hmd.Update.Display.{draw_all}
use p4_hmd.Update.Receiver.{receive}
use p4_hmd.Update.Encoder.Sound.{IsSound}
use p4_hmd.Driver.State.{Handshake, off, blank, low, normal, buf_len}
use p4_hmd.Driver.Power.{p4_set_power_mode, p4_set_brightness}
use p4_hmd.Driver.Power.Laws.{
  Exclusive, showing, Takes, p4_set_power_mode-Exclusive, p4_set_brightness-target,
}
use p4_hmd.Driver.Buffer.{spi_buf_size}
use p4_hmd.Driver.Buffer.Laws.{all_bytes, feed-buf_emit-accepts}
use p4_hmd.Driver.Buffer.Wire.{receive-all_bytes, last_flags, clear_packet-IsSound}
use p4_hmd.Driver.Frame.Correct.{FrameReady, encode_frame-FrameReady}
use p4_hmd.Driver.Frame.Skipped.{FrameDropped, encode_frame-FrameDropped}
use p4_hmd.Driver.Drainer.{drainer_round, send_chunks}
use p4_hmd.Driver.Drainer.Sent.{Sending, send_chunks-Sending}
use p4_hmd.Driver.Drainer.Shown.{Carrying, RoundEnd, drainer_round-RoundEnd}
use p4_hmd.Driver.Link.{hw_reset_device, disconnect_work_fn, reconnect_work_fn}
use p4_hmd.Driver.Link.Laws.{
  LinkRun, RefreshDue, Announced, stay, go, idle_round, reconnect, LinkRun-RefreshDue,
}
use p4_hmd.Base.{ltb}
use p4_hmd.Driver.State.{Clock}
use p4_hmd.Driver.Vblank.{Vblank}
use p4_hmd.Driver.Vblank.Laws.{
  Event, vsync_irq, timer_period, Blanks, handle_all, handle_all-Blanks,
}
use p4_hmd.Examples.Inputs.{device, awakened, unchanged, good_link, bar}
use p4_hmd.Update.Packet.{pkt_init_data, read_bytes}
use p4_hmd.Driver.State.{Device}
use p4_hmd.Driver.Frame.{encode_frame, encode_buffers, encode_with, finish_frame, start_frame}
use p4_hmd.Driver.Buffer.{buf_emit, buf_reset, buf_is_empty, clear_packet, packet_bytes}
use p4_hmd.Driver.Buffer.Laws.{with_bytes}
use p4_hmd.Examples.Inputs.{refreshed, blank_screen, blank_screen-IsBytes}
use p4_hmd.Examples.Refresh
use p4_hmd.Examples.Refresh.{same_sent}
use p4_hmd.Driver.State.{rot_0}

found : (encode_frame refreshed).0 ≡ true
found = Refresh.found device.display_flags rot_0

unchanged_sent : encode_with false (start_frame unchanged) ≡ (true, start_frame unchanged)
unfolding encode_with start_frame buf_reset
unchanged_sent = same_sent (start_frame unchanged) blank_screen true blank_screen-IsBytes

nothing_found : (encode_frame unchanged).0 ≡ false
unfolding encode_frame encode_buffers start_frame buf_reset finish_frame buf_is_empty
nothing_found = ap (λ r. (finish_frame r).0) unchanged_sent

encode_frame-FrameReady_example : FrameReady refreshed (encode_frame refreshed).1
encode_frame-FrameReady_example =
    encode_frame-FrameReady refreshed blank_screen-IsBytes blank_screen-IsBytes found

encode_frame-FrameDropped_example :
    (((encode_frame unchanged).1 ≡ unchanged)
      × ((unchanged.device_online ≡ false) ⊎ (unchanged.dirty ≡ false)))
    ⊎ FrameDropped unchanged (encode_frame unchanged).1
encode_frame-FrameDropped_example =
    encode_frame-FrameDropped unchanged blank_screen-IsBytes blank_screen-IsBytes nothing_found

drainer_round-RoundEnd_example :
    (whole : List ℕ) × Carrying awakened whole
    × RoundEnd true good_link whole awakened (drainer_round true good_link awakened)
drainer_round-RoundEnd_example =
    drainer_round-RoundEnd true good_link awakened blank_screen-IsBytes blank_screen-IsBytes refl
      found

abbrev three_bytes : Device
three_bytes = record device { buf = 1 ∷ 2 ∷ 3 ∷ [] }

send_chunks-Sending_example : Sending good_link three_bytes (send_chunks 3 good_link three_bytes)
send_chunks-Sending_example =
    send_chunks-Sending 3 good_link three_bytes (omega arith) (omega arith)

abbrev one_packet : List PacketHeader
one_packet = clear_packet true ∷ []

one_packet-IsSound : All IsSound one_packet
one_packet-IsSound = (clear_packet-IsSound true, tt)

one_packet_fits : buf_len device + length (all_bytes one_packet) ≤ spi_buf_size
unfolding packet_bytes clear_packet pkt_init_data read_bytes
one_packet_fits = omega arith

feed-buf_emit-accepts_example :
    feed buf_emit one_packet device ≡ (true, with_bytes device (all_bytes one_packet))
feed-buf_emit-accepts_example =
    feed-buf_emit-accepts one_packet device ((clear_packet-IsSound true).in_range, tt) refl refl
      one_packet_fits

receive-all_bytes_example :
    receive 1 (all_bytes one_packet) (bar, 0)
    ≡ some (draw_all one_packet bar, last_flags 0 one_packet)
receive-all_bytes_example = receive-all_bytes one_packet 1 bar 0 one_packet-IsSound (omega arith)

p4_set_power_mode-Exclusive_example :
    let f = (p4_set_power_mode device blank).display_flags in
    Exclusive f
    × (f.upside_down ≡ device.display_flags.upside_down)
    × (p4_set_power_mode device off ≡ showing device off)
    × (p4_set_power_mode device blank ≡ showing device blank)
    × (p4_set_power_mode device low ≡ showing device low)
    × (p4_set_power_mode device normal ≡ showing device device.target_power)
p4_set_power_mode-Exclusive_example = p4_set_power_mode-Exclusive device blank

p4_set_brightness-target_example :
    (p4_set_brightness device off ≡ device)
    × Takes device blank
    × Takes device low
    × Takes device normal
p4_set_brightness-target_example = p4_set_brightness-target device

-- The display is taken off, a vsync passes, and it comes back.
abbrev good_handshake : Handshake
good_handshake = record { ready_first = true; ready_again = true; signalled = true }

abbrev without_display : Device
without_display = record device { display_connected = false }

abbrev unplugged : Device
unplugged = disconnect_work_fn 5 without_display

unplugged_offline : unplugged.device_online ≡ false
unfolding disconnect_work_fn hw_reset_device
unplugged_offline = refl

abbrev replugged : Device
replugged = reconnect_work_fn 9 good_handshake (drainer_round true good_link unplugged)

replugging : LinkRun unplugged replugged
replugging =
    idle_round true good_link unplugged replugged unplugged_offline
      (go _ _ _ (reconnect 9 good_handshake (drainer_round true good_link unplugged)) (stay _))

LinkRun-RefreshDue_example : RefreshDue replugged × Announced without_display replugged
LinkRun-RefreshDue_example = LinkRun-RefreshDue 5 without_display replugging

abbrev tick_clock : Clock
tick_clock = record { msecs_to_jiffies = λ n. n; jiffies_to_msecs = λ n. n; time_before = ltb }

abbrev vblank : Vblank
vblank = record {
  p4 = device;
  enabled = true;
  hw_vsync_seen = false;
  last_vsync_jiffies = 100;
  timer_on = true;
  irq_on = true;
  periods = 0;
  vblank_count = 0;
}

abbrev events : List Event
events = vsync_irq 120 ∷ vsync_irq 121 ∷ timer_period 130 ∷ timer_period 152 ∷ []

handle_all-Blanks_example :
    (times : List ℕ) × Blanks tick_clock events vblank (handle_all tick_clock events vblank) times
handle_all-Blanks_example = handle_all-Blanks tick_clock events vblank
