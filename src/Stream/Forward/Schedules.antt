-- ===== src/Stream/Forward/Schedules.antt =====
-- Whole runs of Forward in internal/stream/forward.go.
use droid_proxy.Prelude.{◌≡◌, refl, true, false, List, [], ◌∷◌, arith, inr}
use droid_proxy.Stream.Forward.{
  Options, WriteAnswer, Ended, Signal, line, closed, tick, idle, cancelled, Pump, Round, goes, ends,
  round, forward_loop, started, forward, idle_timeout,
}
use droid_proxy.Stream.Forward.Endings.{
  Verdict, IsBounded, Between, Post, bind-Post, on_line-Post, on_closed-Post, tick-Post,
  truncation-Post, bounded, none_seen,
}

-- The lines end, the idle timer fires or the context is cancelled.
abbrev pub HasEnd : List Signal → Type 0
HasEnd [] = true ≡ false
HasEnd (line raw ∷ signals) = HasEnd signals
HasEnd (closed e ∷ signals) = Unit
HasEnd (tick ∷ signals) = HasEnd signals
HasEnd (idle ∷ signals) = Unit
HasEnd (cancelled ∷ signals) = Unit

abbrev Never : Pump → Type 0
Never s = true ≡ false

loop-Post :
    (o : Options) (signals : List Signal) (s : Pump)
    → HasEnd signals
    → Between o s
    → Post o Never (forward_loop o signals s)
unfolding forward_loop round
loop-Post o [] s h b = h
loop-Post o (line raw ∷ signals) s h b =
    bind-Post o (Between o) Never (forward_loop o signals) _ (on_line-Post o raw s b)
      (λ t k. loop-Post o signals t h k)
loop-Post o (closed e ∷ signals) s h b =
    bind-Post o Never Never (forward_loop o signals) _ (on_closed-Post o e s b)
      (λ t k. absurd (cc (k)))
loop-Post o (tick ∷ signals) s h b =
    bind-Post o (Between o) Never (forward_loop o signals) _ (tick-Post o s b)
      (λ t k. loop-Post o signals t h k)
loop-Post o (idle ∷ signals) s h b =
    bind-Post o Never Never (forward_loop o signals) _ (truncation-Post o Never idle_timeout s b)
      (λ t k. absurd (cc (k)))
loop-Post o (cancelled ∷ signals) s h b = (none_seen o s b, bounded o s b.0)

ended :
    (o : Options) (r : Round)
    → Post o Never r
    → (e : Ended) × (s : Pump) × (r ≡ ends e s) × Verdict o e s × IsBounded o s
ended o (goes s) h = absurd (cc (h))
ended o (ends e s) h = (e, s, refl, h.0, h.1)

-- Whatever the lines, the ticks and the answers of the downstream writer, a run of Forward ends when
-- the lines end, the idle timer fires or the context is cancelled, if not before. Where terminal
-- events are told apart, it returns nil or the error of the scanner only when one of the events that
-- were ended is terminal; it reports a truncation or a cancelled context only when none is. The bytes
-- of the lines that it passed on are within the cap, if there is one, and the data of the event in
-- hand is within the limit of a line.
pub forward_ends :
    (o : Options) (answers : List WriteAnswer) (signals : List Signal)
    → HasEnd signals
    → (e : Ended) × (s : Pump) × (forward o answers signals ≡ ends e s)
      × Verdict o e s
      × IsBounded o s
unfolding forward
forward_ends o answers signals h = ended o (forward o answers signals) (
    loop-Post o signals (started answers) h (
      record { seen = refl; passed = omega arith; capped = inr (omega arith); fits = omega arith },
      refl,
    ))
