-- ===== src/Handlers/Failover/Loop.antt =====
-- Induction along the rounds of the failover loop: what each round keeps holds of the result.
use droid_proxy.Prelude.{ℕ, zero, suc, ◌+◌, ◌≡◌, Option, some, arith}
use droid_proxy.Prelude.GoLibrary.{GoLibrary}
use droid_proxy.Handlers.Cooldown.{Gjson}
use droid_proxy.Handlers.Exchange.{
  Round, Reply, Failover, Outcome, replies, breaks, spends, replays, Request,
}
use droid_proxy.Handlers.Failover.{round, exhausted, loop}

module _ (go : GoLibrary) (json : Gjson) (req : Request) (world : ℕ → Round) where
  abbrev pub continued : ℕ → ℕ → ℕ → Outcome → Option (Reply × Failover)
  continued fuel left i o = elim o [
    | replies reply t ↦ some (reply, t)
    | breaks t ↦ some (exhausted go json req t)
    | spends t ↦ loop go json req fuel left world (i + 1) t
    | replays t ↦ loop go json req fuel (suc left) world (i + 1) t
  ]

  module _ (Inv : ℕ → Failover → Type 0) (Post : Reply × Failover → Type 0) where
    -- What a round with `left` attempts behind it has to establish.
    abbrev pub Leads : ℕ → Outcome → Type 0
    Leads left (replies reply t) = Post (reply, t)
    Leads left (breaks t) = Post (exhausted go json req t)
    Leads left (spends t) = Inv left t
    Leads left (replays t) = Inv (suc left) t

    continued-Post :
        (fuel left i : ℕ) (o : Outcome) (x : Reply × Failover)
        → ((t : Failover)
            → Inv left t
            → loop go json req fuel left world (i + 1) t ≡ some x
            → Post x)
        → ((t : Failover)
            → Inv (suc left) t
            → loop go json req fuel (suc left) world (i + 1) t ≡ some x
            → Post x)
        → Leads left o
        → continued fuel left i o ≡ some x
        → Post x
    continued-Post fuel left i (replies reply t) x f g h e = ground (arith, h)
    continued-Post fuel left i (breaks t) x f g h e = ground (arith, h)
    continued-Post fuel left i (spends t) x f g h e = f t h e
    continued-Post fuel left i (replays t) x f g h e = g t h e

    -- What every round keeps holds of the result.
    pub loop-induct :
        ((left i : ℕ) (s : Failover)
          → Inv (suc left) s
          → Leads left (round go json req (world i) s))
        → ((s : Failover) → Inv 0 s → Post (exhausted go json req s))
        → (fuel left i : ℕ) (s : Failover) (x : Reply × Failover) → Inv left s
        → loop go json req fuel left world i s ≡ some x
        → Post x
    unfolding loop
    loop-induct step stop fuel zero i s x h e = ground (arith, stop s h)
    loop-induct step stop zero (suc left) i s x h e = cc
    loop-induct step stop (suc fuel) (suc left) i s x h e =
        continued-Post fuel left i (round go json req (world i) s) x
          (λ t k c. loop-induct step stop fuel left (i + 1) t x k c)
          (λ t k c. loop-induct step stop fuel (suc left) (i + 1) t x k c) (step left i s h) e
