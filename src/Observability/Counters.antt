-- ===== src/Observability/Counters.antt =====
-- metrics.service.ts on in-process-event-bus.ts: what a scrape shows of the bus.
use senior_io_t_platform_arc.Prelude.{
  ℕ, ◌+◌, ◌-◌, ◌≤◌, ◌≡◌, refl, ap, ◌∙◌, false, List, [], ◌∷◌, ltb, Option, none, some, arith,
}
use senior_io_t_platform_arc.Platform.Events.{DomainEvent}
use senior_io_t_platform_arc.Platform.Bus.{Subscription, EventBus, Outcome, Action}
use senior_io_t_platform_arc.Platform.Bus.Order.{run}
use senior_io_t_platform_arc.Platform.Bus.Totals.{run-Grown}
use senior_io_t_platform_arc.Observability.{
  BusCounter, published_total, delivered_total, failed_total, timeouts_total, pick, Collector,
  collect, fresh_collector,
}

abbrev with_value : ℕ → Option (List ℕ) → Option (List ℕ)
with_value n none = none
with_value n (some values) = some (n ∷ values)

-- What a scrape shows, before what the next ones do.
abbrev scraped : Option Collector → (Collector → Option (List ℕ)) → Option (List ℕ)
scraped none next = none
scraped (some c) next = with_value c.value (next c)

collect-total :
    (total : ℕ) (c : Collector)
    → c.value ≡ c.last
    → c.last ≤ total
    → collect total c ≡ some (record { value = total; last = total })
unfolding collect
collect-total total c e le =
    let fits : ltb total c.last ≡ false = ground (arith, le) in
    let shown : c.value + (total - c.last) ≡ total = omega (arith, e, le) in
    rw fits (ap (λ (n : ℕ). some (record { value = n; last = total })) shown)

module _ {P : Type 0} (attempt_outcome : Subscription → DomainEvent P → ℕ → Outcome)
    (counter : BusCounter) where
  abbrev pub total : EventBus P → ℕ
  total bus = pick counter bus.counters

  -- A scrape after each stretch of the bus's work: the values that are shown, or none if one throws.
  pub scrapes : List (List (Action attempt_outcome)) → EventBus P → Collector → Option (List ℕ)
  scrapes [] bus c = some []
  scrapes (actions ∷ stretches) bus c =
      let next = run attempt_outcome actions bus in
      scraped (collect (total next) c) (λ after. scrapes stretches next after)

  -- The bus's own totals at those times.
  pub totals : List (List (Action attempt_outcome)) → EventBus P → List ℕ
  totals [] bus = []
  totals (actions ∷ stretches) bus =
      let next = run attempt_outcome actions bus in total next ∷ totals stretches next

  total-run :
      (actions : List (Action attempt_outcome)) (bus : EventBus P)
      → total bus ≤ total (run attempt_outcome actions bus)
  total-run actions bus =
      let grown = run-Grown attempt_outcome actions bus in
      elim counter
        as (λ k. pick k bus.counters ≤ pick k (run attempt_outcome actions bus).counters) [
          | published_total ↦ grown.0
          | delivered_total ↦ grown.1
          | failed_total ↦ grown.2
          | timeouts_total ↦ grown.3
        ]

  scrapes-from :
      (stretches : List (List (Action attempt_outcome))) (bus : EventBus P) (c : Collector)
      → c.value ≡ c.last
      → c.last ≤ total bus
      → scrapes stretches bus c ≡ some (totals stretches bus)
  unfolding scrapes totals
  scrapes-from [] bus c e le = refl
  scrapes-from (actions ∷ stretches) bus c e le =
      let next = run attempt_outcome actions bus in
      let after : Collector = record { value = total next; last = total next } in
      ap (λ o. scraped o (λ k. scrapes stretches next k))
        (collect-total (total next) c e (omega (arith, le, total-run actions bus)))
      ∙ ap (with_value (total next)) (scrapes-from stretches next after refl (omega arith))

  -- Scrapes at any times, with any work of the bus between them, never throw, and each shows the bus's own
  -- total.
  pub scrapes-totals :
      (stretches : List (List (Action attempt_outcome))) (bus : EventBus P)
      → scrapes stretches bus fresh_collector ≡ some (totals stretches bus)
  scrapes-totals stretches bus = scrapes-from stretches bus fresh_collector refl (omega arith)
