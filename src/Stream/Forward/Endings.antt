-- ===== src/Stream/Forward/Endings.antt =====
-- How Forward of internal/stream/forward.go ends, under any schedule of its signals and any answers
-- of the downstream writer.
use Prim.Native.String.{len}
use Prim.Native.String.len
use text.Mathlib.TextPositions.{len-append}
use droid_proxy.Prelude.{
  ℕ, ◌+◌, ◌≤◌, ◌≡◌, refl, Bool, true, false, not, ◌&&◌, ◌||◌, ◌⊎◌, inl, inr, Option, none, some,
  List, [], ◌∷◌, String, str_eq, eq_iff, ltb, is_none, any, arith, Bool-cases,
}
use droid_proxy.Prelude.Texts.{trim_space, is_blank, is_prefix, cut_prefix, trim_last}
use droid_proxy.Stream.Forward.{
  Event, Options, WriteAnswer, whole, short, broken, Reason, Ended, returned_nil, context_error,
  scanner_error, write_error, short_write, truncated, tick, Pump, Round, goes, ends, and_then,
  write_answered, write, flush, decode_wire_line, truncate, write_truncation, marks, flush_event,
  reset_idle, joined, add_data, data_line, event_line, read_line, if_terminal, relay_line, on_line,
  lacks_terminal, scanned, eof_reason, close, on_closed, round,
}

le_of_not_ltb : (a b : ℕ) → ltb a b ≡ false → b ≤ a
le_of_not_ltb a b h = ground arith

len-trim_last : (n : ℕ) (s : String) → len (trim_last n s) ≤ len s
unfolding trim_last
len-trim_last n String.[] = omega arith
len-trim_last n (String.◌∷◌ c s) = ground (
  arith,
  len-trim_last n s,
  len.cons c s,
  len.cons c (trim_last n s),
  len.cons c "",
  len.nil,
  eq_iff s "",
)

len-decode_wire_line : (raw : String) → len (decode_wire_line raw) ≤ len raw
unfolding decode_wire_line
len-decode_wire_line raw =
    omega (arith, len-trim_last b'\r' (trim_last b'\n' raw), len-trim_last b'\n' raw)

abbrev pub bytes_of : List String → ℕ
bytes_of [] = 0
bytes_of (l ∷ ls) = len l + bytes_of ls

-- One of the events that were ended is terminal.
abbrev pub ended_terminal : Options → Pump → Bool
ended_terminal o s = any (marks o.is_terminal) s.events

-- What a result says of the events that were ended: nil, or the scanner's own error, comes after a
-- terminal event where terminal events are told apart, and a truncation only where there was none.
abbrev pub Verdict : Options → Ended → Pump → Type 0
Verdict o returned_nil s = (o.is_terminal ≡ none) ⊎ (ended_terminal o s ≡ true)
Verdict o (scanner_error e) s = (o.is_terminal ≡ none) ⊎ (ended_terminal o s ≡ true)
Verdict o (truncated r) s = ended_terminal o s ≡ false
Verdict o context_error s = ended_terminal o s ≡ false
Verdict o write_error s = Unit
Verdict o short_write s = Unit

-- The lines that were passed on are within the cap, and the event in hand is within its limit.
abbrev pub IsBounded : Options → Pump → Type 0
IsBounded o s =
    ((o.max_bytes ≡ 0) ⊎ (bytes_of s.observed ≤ o.max_bytes)) × (len s.event_data ≤ o.max_line)

pub record Counts (o : Options) (saw : Bool) (total : ℕ) (observed : List String)
    (events : List Event) (content : String) : Type 0 where
  pub seen : saw ≡ any (marks o.is_terminal) events
  pub passed : bytes_of observed ≤ total
  pub capped : (o.max_bytes ≡ 0) ⊎ (bytes_of observed ≤ o.max_bytes)
  pub fits : len content ≤ o.max_line

-- Between the steps of a round.
abbrev pub Mid : Options → Pump → Type 0
Mid o s = Counts o s.saw_terminal s.total_bytes s.observed s.events s.event_data

-- Between the rounds.
abbrev pub Between : Options → Pump → Type 0
Between o s = Mid o s × (s.saw_terminal ≡ false)

abbrev pub Post : Options → (Pump → Type 0) → Round → Type 0
Post o I (goes s) = I s
Post o I (ends e s) = Verdict o e s × IsBounded o s

pub bind-Post :
    (o : Options) (I J : Pump → Type 0) (k : Pump → Round) (r : Round)
    → Post o I r
    → ((s : Pump) → I s → Post o J (k s))
    → Post o J (and_then r k)
bind-Post o I J k (goes s) h f = f s h
bind-Post o I J k (ends e s) h f = h

cap : (m t b : ℕ) → (ltb 0 m && ltb m t) ≡ false → b ≤ t → (m ≡ 0) ⊎ (b ≤ m)
cap m t b h k = ground arith

seen_or_none :
    (x : Option (Event → Bool)) (saw : Bool) (events : List Event)
    → saw ≡ any (marks x) events
    → (not (is_none x) && not saw) ≡ false
    → (x ≡ none) ⊎ (any (marks x) events ≡ true)
seen_or_none none saw events h n = inl refl
seen_or_none (some f) saw events h n = inr (ground (arith, h, n))

pub bounded : (o : Options) (s : Pump) → Mid o s → IsBounded o s
bounded o s h = (h.capped, h.fits)

pub none_seen : (o : Options) (s : Pump) → Between o s → ended_terminal o s ≡ false
none_seen o s (h, e) = ground (arith, h.seen, e)

module _ (o : Options) where
  -- A write changes only what is written and the answers to come.
  write-Post :
      (I : Pump → Type 0) (b : String) (s : Pump)
      → Mid o s
      → ((v : List String) (rest : List WriteAnswer) → I (record s { written = v; answers = rest }))
      → Post o I (write b s)
  unfolding write
  write-Post I b s h keep = go s.answers
    where
      go : (answers : List WriteAnswer) → Post o I (write_answered b s answers)
      go [] = keep (b ∷ s.written) s.answers
      go (whole ∷ rest) = keep (b ∷ s.written) rest
      go (short ∷ rest) = (tt, bounded o s h)
      go (broken ∷ rest) = (tt, bounded o s h)

  truncate-Post :
      (I : Pump → Type 0) (frame : Option String) (reason : Reason) (s : Pump)
      → Between o s
      → Post o I (truncate frame reason s)
  unfolding truncate flush
  truncate-Post I none reason s (h, e) = (none_seen o s (h, e), bounded o s h)
  truncate-Post I (some frame) reason s (h, e) =
      bind-Post o (Between o) I _ (write frame s)
        (write-Post (Between o) frame s h (λ v rest. (h, e)))
        (λ t k. (none_seen o t k, bounded o t k.0))

  pub truncation-Post :
      (I : Pump → Type 0) (reason : Reason) (s : Pump)
      → Between o s
      → Post o I (write_truncation o reason s)
  unfolding write_truncation
  truncation-Post I reason s h = truncate-Post I o.truncation_frame reason s h

  flush_event-Mid : (s : Pump) → Mid o s → Mid o (flush_event o s)
  unfolding flush_event
  flush_event-Mid s h = record {
    seen = ground (arith, h.seen);
    passed = h.passed;
    capped = h.capped;
    fits = omega arith;
  }

  -- The meaning of a line.
  add_data-Post : (part : String) (s : Pump) → Between o s → Post o (Mid o) (add_data o part s)
  unfolding add_data reset_idle
  add_data-Post part s b =
      elim (Bool-cases (ltb o.max_line (len s.event_data + len (joined part s)))) [
        | inl e ↦ rw e (truncation-Post (Mid o) _ s b)
        | inr e ↦ rw e record {
          seen = b.0.seen;
          passed = b.0.passed;
          capped = b.0.capped;
          fits = omega (
            arith,
            len-append s.event_data (joined part s),
            le_of_not_ltb o.max_line (len s.event_data + len (joined part s)) e,
          );
        }
      ]

  event_line-Post :
      (l : String) (s : Pump) (cut : Option String)
      → Between o s
      → Post o (Mid o) (event_line o l s cut)
  unfolding reset_idle
  event_line-Post l s (some name) b = b.0
  event_line-Post l s none b = data_line-Post (cut_prefix "data:" l)
    where
      data_line-Post : (cut : Option String) → Post o (Mid o) (data_line o l s cut)
      data_line-Post (some part) = add_data-Post (trim_space part) s b
      data_line-Post none = elim (Bool-cases (is_prefix ":" (trim_space l))) [
        | inl e ↦ rw e (b.0)
        | inr e ↦ rw e (b.0)
      ]

  read_line-Post : (l : String) (s : Pump) → Between o s → Post o (Mid o) (read_line o l s)
  unfolding read_line
  read_line-Post l s b = elim (Bool-cases (is_blank l)) [
    | inl e ↦ rw e (flush_event-Mid s b.0)
    | inr e ↦ rw e (event_line-Post l s (cut_prefix "event:" l) b)
  ]

  if_terminal-Post :
      (saw : Bool) (s : Pump)
      → s.saw_terminal ≡ saw
      → Mid o s
      → Post o (Between o) (if_terminal saw s)
  if_terminal-Post true s e h = (inr (ground (arith, h.seen, e)), bounded o s h)
  if_terminal-Post false s e h = (h, e)

  relay_line-Post :
      (l : String) (s : Pump)
      → Between o s
      → bytes_of (l ∷ s.observed) ≤ s.total_bytes
      → (o.max_bytes ≡ 0) ⊎ (bytes_of (l ∷ s.observed) ≤ o.max_bytes)
      → Post o (Between o) (relay_line o l s)
  unfolding relay_line flush
  relay_line-Post l s b passed capped =
      bind-Post o (Mid o) (Between o) _ _
        (read_line-Post l (record s { observed = l ∷ s.observed })
          (record { seen = b.0.seen; passed = passed; capped = capped; fits = b.0.fits }, b.1))
        (λ t h. bind-Post o (Mid o) (Between o) _ _ (write-Post (Mid o) l t h (λ v rest. h)) (λ u k.
          bind-Post o (Mid o) (Between o) _ _ (write-Post (Mid o) "\n" u k (λ v rest. k))
            (λ v q. if_terminal-Post v.saw_terminal (flush v) refl q)))

  pub on_line-Post : (raw : String) (s : Pump) → Between o s → Post o (Between o) (on_line o raw s)
  unfolding on_line
  on_line-Post raw s (h, e) =
      let t = record s { total_bytes = s.total_bytes + len raw } in
      let l = decode_wire_line raw in
      let passed : bytes_of (l ∷ s.observed) ≤ t.total_bytes =
        omega (arith, h.passed, len-decode_wire_line raw) in
      elim (Bool-cases (ltb 0 o.max_bytes && ltb o.max_bytes (s.total_bytes + len raw))) [
        | inl over ↦ rw over (
            truncation-Post (Between o) _ t (
              record {
                seen = h.seen;
                passed = omega (arith, h.passed);
                capped = h.capped;
                fits = h.fits;
              },
              e,
            ))
        | inr within ↦ rw within (
            relay_line-Post l t
              (
                record {
                  seen = h.seen;
                  passed = omega (arith, h.passed);
                  capped = h.capped;
                  fits = h.fits;
                },
                e,
              )
              passed
              (cap o.max_bytes (s.total_bytes + len raw) (bytes_of (l ∷ s.observed)) within passed))
      ]

  scanned-Post :
      (e : Option String) (s : Pump)
      → Mid o s
      → lacks_terminal o s ≡ false
      → Post o (λ u. true ≡ false) (scanned e s)
  scanned-Post none s h n =
      (seen_or_none o.is_terminal s.saw_terminal s.events h.seen n, bounded o s h)
  scanned-Post (some e) s h n =
      (seen_or_none o.is_terminal s.saw_terminal s.events h.seen n, bounded o s h)

  close-Post : (e : Option String) (s : Pump) → Mid o s → Post o (λ u. true ≡ false) (close o e s)
  unfolding close
  close-Post e s h = elim (Bool-cases (lacks_terminal o s)) [
    | inl l ↦ rw l (truncation-Post (λ u. true ≡ false) (eof_reason e) s (h, ground arith))
    | inr n ↦ rw n (scanned-Post e s h n)
  ]

  pub on_closed-Post :
      (e : Option String) (s : Pump) → Between o s → Post o (λ u. true ≡ false) (on_closed o e s)
  unfolding on_closed flush
  on_closed-Post e s (h, f) =
      elim (Bool-cases (not (str_eq s.event_name "") || ltb 0 s.event_data_lines)) [
        | inl x ↦ rw x (
            bind-Post o (Mid o) (λ u. true ≡ false) _ _ (write-Post (Mid o) "\n" s h (λ v rest. h))
              (λ t k. close-Post e (flush_event o (flush t)) (flush_event-Mid (flush t) k)))
        | inr x ↦ rw x (close-Post e s h)
      ]

  pub tick-Post : (s : Pump) → Between o s → Post o (Between o) (round o tick s)
  unfolding round flush
  tick-Post s b =
      bind-Post o (Between o) (Between o) _ _
        (write-Post (Between o) o.keep_alive_frame s b.0 (λ v rest. b)) (λ t k. k)
