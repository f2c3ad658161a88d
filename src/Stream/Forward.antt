-- ===== src/Stream/Forward.antt =====
-- The pump that copies a stream of server-sent events: internal/stream/forward.go.
pub mod Endings
pub mod Schedules
use Prim.Native.String.{◌++◌, len}
use droid_proxy.Prelude.{
  ℕ, zero, suc, ◌+◌, ◌<◌, Bool, true, false, not, ◌&&◌, ◌||◌, Option, none, some, List, [], ◌∷◌,
  String, if◌then◌else◌, str_eq, ltb, is_none,
}
use droid_proxy.Prelude.Texts.{trim_space, is_blank, is_prefix, cut_prefix, trim_last}

pub record Event : Type 0 where
  pub name : String
  pub content : String

-- The options that a run depends on. `max_line` is the limit after its default, `max_bytes` is 0 for
-- no cap, and `truncation_frame` is what WriteTruncationError writes.
pub record Options : Type 0 where
  pub max_line : ℕ
  pub max_bytes : ℕ
  pub is_terminal : Option (Event → Bool)
  pub truncation_frame : Option String
  pub keep_alive_frame : String

-- How the downstream writer takes a write.
pub data WriteAnswer : Type 0 where
  whole : WriteAnswer
  short : WriteAnswer
  broken : WriteAnswer

pub data Reason : Type 0 where
  upstream_eof : Reason
  scan_error : String → Reason
  cap_exceeded : Reason
  event_too_large : Reason
  idle_timeout : Reason

-- What Forward returns.
pub data Ended : Type 0 where
  returned_nil : Ended
  context_error : Ended
  scanner_error : String → Ended
  write_error : Ended
  short_write : Ended
  truncated : Reason → Ended

-- What one round of the loop receives: a line with its newline, the end of the lines with the error
-- of the scanner, a tick of the keep-alive, the idle timer, or the end of the context.
pub data Signal : Type 0 where
  line : String → Signal
  closed : Option String → Signal
  tick : Signal
  idle : Signal
  cancelled : Signal

-- The variables of the loop, what it has written, the lines that OnLine and the events that
-- IsTerminal was called with, newest first, and the answers to the writes to come; when they end,
-- every write is whole.
pub record Pump : Type 0 where
  pub event_name : String
  pub event_data : String
  pub event_data_lines : ℕ
  pub saw_terminal : Bool
  pub total_bytes : ℕ
  pub written : List String
  pub flushes : ℕ
  pub idle_resets : ℕ
  pub observed : List String
  pub events : List Event
  pub answers : List WriteAnswer

pub data Round : Type 0 where
  goes : Pump → Round
  ends : Ended → Pump → Round

abbrev pub and_then : Round → (Pump → Round) → Round
and_then (goes s) k = k s
and_then (ends e s) k = ends e s

abbrev pub write_answered : String → Pump → List WriteAnswer → Round
write_answered b s [] = goes (record s { written = b ∷ s.written })
write_answered b s (whole ∷ rest) = goes (record s { written = b ∷ s.written; answers = rest })
write_answered b s (short ∷ rest) = ends short_write (record s { answers = rest })
write_answered b s (broken ∷ rest) = ends write_error (record s { answers = rest })

unfoldable pub write : String → Pump → Round
write b s = write_answered b s s.answers

unfoldable pub flush : Pump → Pump
flush s = record s { flushes = s.flushes + 1 }

-- The loop's line of bytes without its newline and its carriage return.
unfoldable pub decode_wire_line : String → String
decode_wire_line raw = trim_last b'\r' (trim_last b'\n' raw)

unfoldable pub truncate : Option String → Reason → Pump → Round
truncate none reason s = ends (truncated reason) s
truncate (some frame) reason s = and_then (write frame s) (λ t. ends (truncated reason) (flush t))

unfoldable pub write_truncation : Options → Reason → Pump → Round
write_truncation o reason s = truncate o.truncation_frame reason s

abbrev pub marks : Option (Event → Bool) → Event → Bool
marks none ev = false
marks (some f) ev = f ev

unfoldable pub flush_event : Options → Pump → Pump
flush_event o s =
    let ev : Event = record { name = s.event_name; content = s.event_data } in
    record s {
      event_name = "";
      event_data = "";
      event_data_lines = 0;
      saw_terminal = s.saw_terminal || marks o.is_terminal ev;
      events = ev ∷ s.events;
    }

unfoldable pub reset_idle : Pump → Pump
reset_idle s = record s { idle_resets = s.idle_resets + 1 }

-- A `data:` line: its part joins the data of the event, after a newline if there is some.
abbrev pub joined : String → Pump → String
joined part s = if ltb 0 s.event_data_lines then "\n" ++ part else part

unfoldable pub add_data : Options → String → Pump → Round
add_data o part s =
    if ltb o.max_line (len s.event_data + len (joined part s))
    then write_truncation o event_too_large s
    else goes (
        reset_idle (record s {
          event_data = s.event_data ++ joined part s;
          event_data_lines = s.event_data_lines + 1;
        }))

abbrev pub other_line : String → Pump → Round
other_line l s = goes (if is_prefix ":" (trim_space l) then s else reset_idle s)

abbrev pub data_line : Options → String → Pump → Option String → Round
data_line o l s (some part) = add_data o (trim_space part) s
data_line o l s none = other_line l s

abbrev pub event_line : Options → String → Pump → Option String → Round
event_line o l s (some name) = goes (reset_idle (record s { event_name = trim_space name }))
event_line o l s none = data_line o l s (cut_prefix "data:" l)

-- What a line means for the event that is being read.
unfoldable pub read_line : Options → String → Pump → Round
read_line o l s =
    if is_blank l then goes (flush_event o s) else event_line o l s (cut_prefix "event:" l)

abbrev pub if_terminal : Bool → Pump → Round
if_terminal true s = ends returned_nil s
if_terminal false s = goes s

-- A line that is within the cap: OnLine, its meaning, and its copy downstream.
unfoldable pub relay_line : Options → String → Pump → Round
relay_line o l s =
    and_then (read_line o l (record s { observed = l ∷ s.observed })) λ t.
      and_then (write l t) λ u. and_then (write "\n" u) λ v. if_terminal v.saw_terminal (flush v)

unfoldable pub on_line : Options → String → Pump → Round
on_line o raw s =
    let t = record s { total_bytes = s.total_bytes + len raw } in
    if ltb 0 o.max_bytes && ltb o.max_bytes t.total_bytes
    then write_truncation o cap_exceeded t
    else relay_line o (decode_wire_line raw) t

abbrev pub lacks_terminal : Options → Pump → Bool
lacks_terminal o s = not (is_none o.is_terminal) && not s.saw_terminal

abbrev pub scanned : Option String → Pump → Round
scanned none s = ends returned_nil s
scanned (some e) s = ends (scanner_error e) s

abbrev pub eof_reason : Option String → Reason
eof_reason none = upstream_eof
eof_reason (some e) = scan_error e

unfoldable pub close : Options → Option String → Pump → Round
close o e s = if lacks_terminal o s then write_truncation o (eof_reason e) s else scanned e s

-- The end of the lines: an event without its blank line is ended.
unfoldable pub on_closed : Options → Option String → Pump → Round
on_closed o e s =
    if not (str_eq s.event_name "") || ltb 0 s.event_data_lines
    then and_then (write "\n" s) (λ t. close o e (flush_event o (flush t)))
    else close o e s

-- One round of the loop.
unfoldable pub round : Options → Signal → Pump → Round
round o (line raw) s = on_line o raw s
round o (closed e) s = on_closed o e s
round o tick s = and_then (write o.keep_alive_frame s) (λ t. goes (flush t))
round o idle s = write_truncation o idle_timeout s
round o cancelled s = ends context_error s

-- The loop over a schedule of signals. `goes` stands for a loop that waits for the next one.
unfoldable pub forward_loop : Options → List Signal → Pump → Round
forward_loop o [] s = goes s
forward_loop o (x ∷ signals) s = and_then (round o x s) (forward_loop o signals)

abbrev pub started : List WriteAnswer → Pump
started answers = record {
  event_name = "";
  event_data = "";
  event_data_lines = 0;
  saw_terminal = false;
  total_bytes = 0;
  written = [];
  flushes = 0;
  idle_resets = 0;
  observed = [];
  events = [];
  answers = answers;
}

-- Forward, with a flusher.
unfoldable pub forward : Options → List WriteAnswer → List Signal → Round
forward o answers signals = forward_loop o signals (started answers)

-- ChatTerminal and AnthropicTerminal.
unfoldable pub chat_terminal : Event → Bool
chat_terminal ev = str_eq (trim_space ev.content) "[DONE]"

unfoldable pub anthropic_terminal : Event → Bool
anthropic_terminal ev = str_eq ev.name "message_stop" || str_eq ev.name "error"

abbrev ends_response : String → Bool
ends_response kind =
    str_eq kind "response.completed"
    || str_eq kind "response.failed"
    || str_eq kind "response.incomplete"
    || str_eq kind "error"

-- ResponsesTerminal, over the reader of the `type` of a JSON object; `none` for an error of it.
unfoldable pub responses_terminal : (String → Option String) → Event → Bool
responses_terminal type_of ev =
    if ends_response ev.name
    then true
    else elim (type_of ev.content) [ none ↦ false | some kind ↦ ends_response kind ]
