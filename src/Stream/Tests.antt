-- ===== src/Stream/Tests.antt =====
-- Streams of chat chunks: one that is complete, one that stops early, and one over the cap.
use droid_proxy.Prelude.{◌≡◌, refl, Option, none, some, List, [], ◌∷◌, String, ◌+◌, ℕ}
use droid_proxy.Stream.Forward.{
  Event, Options, whole, broken, Reason, upstream_eof, cap_exceeded, Ended, returned_nil,
  write_error, truncated, Signal, line, closed, tick, idle, Pump, Round, goes, ends, forward,
  chat_terminal,
}
use droid_proxy.Stream.Forward.Endings.{Verdict, IsBounded}
use droid_proxy.Stream.Forward.Schedules.{forward_ends}

abbrev options : Options
options = record {
  max_line = 1000;
  max_bytes = 60;
  is_terminal = some chat_terminal;
  truncation_frame = some "event: error\n\n";
  keep_alive_frame = ": keep-alive\n\n";
}

abbrev complete : List Signal
complete =
    line "data: {}\r\n" ∷ line "\n" ∷ tick ∷ line "data: [DONE]\n" ∷ line "\n" ∷ closed none ∷ []

abbrev cut_off : List Signal
cut_off = line "data: {}\n" ∷ closed none ∷ []

abbrev outcome : Round → Option (Ended × List String)
outcome (goes s) = none
outcome (ends e s) = some (e, s.written)

test_complete :
    outcome (forward options [] complete)
    ≡ some (
      returned_nil,
      "\n" ∷ "" ∷ "\n" ∷ "data: [DONE]" ∷ ": keep-alive\n\n" ∷ "\n" ∷ "" ∷ "\n" ∷ "data: {}" ∷ [],
    )
unfolding forward droid_proxy.Stream.Forward.forward_loop droid_proxy.Stream.Forward.round
    droid_proxy.Stream.Forward.on_line droid_proxy.Stream.Forward.relay_line
    droid_proxy.Stream.Forward.read_line droid_proxy.Prelude.Texts.is_blank
    droid_proxy.Prelude.Texts.trim_space droid_proxy.Stream.Forward.decode_wire_line
    droid_proxy.Prelude.Texts.trim_last droid_proxy.Prelude.Texts.cut_prefix
    droid_proxy.Stream.Forward.add_data droid_proxy.Stream.Forward.write
    droid_proxy.Stream.Forward.reset_idle droid_proxy.Stream.Forward.flush
    droid_proxy.Stream.Forward.flush_event chat_terminal droid_proxy.Prelude.Texts.is_prefix
    droid_proxy.Stream.Forward.close droid_proxy.Stream.Forward.on_closed
    droid_proxy.Stream.Forward.truncate droid_proxy.Stream.Forward.write_truncation
test_complete = refl

test_cut_off :
    outcome (forward options [] cut_off)
    ≡ some (truncated upstream_eof, "event: error\n\n" ∷ "\n" ∷ "\n" ∷ "data: {}" ∷ [])
unfolding forward droid_proxy.Stream.Forward.forward_loop droid_proxy.Stream.Forward.round
    droid_proxy.Stream.Forward.on_line droid_proxy.Stream.Forward.relay_line
    droid_proxy.Stream.Forward.read_line droid_proxy.Prelude.Texts.is_blank
    droid_proxy.Prelude.Texts.trim_space droid_proxy.Stream.Forward.decode_wire_line
    droid_proxy.Prelude.Texts.trim_last droid_proxy.Prelude.Texts.cut_prefix
    droid_proxy.Stream.Forward.add_data droid_proxy.Stream.Forward.write
    droid_proxy.Stream.Forward.reset_idle droid_proxy.Stream.Forward.on_closed
    droid_proxy.Stream.Forward.flush droid_proxy.Stream.Forward.close
    droid_proxy.Prelude.Texts.is_prefix droid_proxy.Stream.Forward.flush_event
    droid_proxy.Stream.Forward.truncate droid_proxy.Stream.Forward.write_truncation chat_terminal
test_cut_off = refl

test_over_cap :
    outcome (forward (record options { max_bytes = 5 }) [] cut_off)
    ≡ some (truncated cap_exceeded, "event: error\n\n" ∷ [])
unfolding forward droid_proxy.Stream.Forward.forward_loop droid_proxy.Stream.Forward.round
    droid_proxy.Stream.Forward.on_line droid_proxy.Stream.Forward.write_truncation
    droid_proxy.Stream.Forward.truncate droid_proxy.Stream.Forward.write
    droid_proxy.Stream.Forward.flush
test_over_cap = refl

test_broken :
    outcome (forward options (whole ∷ broken ∷ []) complete) ≡ some (write_error, "data: {}" ∷ [])
unfolding forward droid_proxy.Stream.Forward.forward_loop droid_proxy.Stream.Forward.round
    droid_proxy.Stream.Forward.on_line droid_proxy.Stream.Forward.relay_line
    droid_proxy.Stream.Forward.read_line droid_proxy.Prelude.Texts.is_blank
    droid_proxy.Prelude.Texts.trim_space droid_proxy.Stream.Forward.decode_wire_line
    droid_proxy.Prelude.Texts.trim_last droid_proxy.Prelude.Texts.cut_prefix
    droid_proxy.Stream.Forward.add_data droid_proxy.Stream.Forward.write
    droid_proxy.Stream.Forward.reset_idle
test_broken = refl

forward_ends_example :
    (e : Ended) × (s : Pump) × (forward options (whole ∷ []) cut_off ≡ ends e s)
    × Verdict options e s
    × IsBounded options s
forward_ends_example = forward_ends options (whole ∷ []) cut_off tt
