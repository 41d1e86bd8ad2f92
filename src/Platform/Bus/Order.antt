-- ===== src/Platform/Bus/Order.antt =====
-- in-process-event-bus.ts: the order of the deliveries of one lane, under every schedule.
use mathlib.Core.List.{append-nil, append_assoc}
use senior_io_t_platform_arc.Prelude.{
  ℕ, ◌≡◌, refl, sym, ap, ◌∙◌, List, [], ◌∷◌, ◌++◌, is_nil, or_else, Text, text_eq, text_eq_iff,
  arith, if◌then◌else◌, Bool-cases, inl, inr,
}
use senior_io_t_platform_arc.Prelude.Dict.{get, get-set, get-delete}
use senior_io_t_platform_arc.Platform.Events.{DomainEvent}
use senior_io_t_platform_arc.Platform.Bus.{
  Subscription, EventBus, Delivery, Outcome, Action, publishes, finishes, publish, finish,
  finish_queue, step, targets_of, lane_of,
}

-- The deliveries of a lane that have not finished.
abbrev pub queue : {P : Type 0} → Text → EventBus P → List (Delivery P)
queue lane bus = or_else (get lane bus.lanes) []

-- The delivery that a publish adds to a lane, if any.
abbrev pub accepted : {P : Type 0} → Text → List Subscription → DomainEvent P → List (Delivery P)
accepted lane subs event =
    if is_nil (targets_of event subs)
    then []
    else (if text_eq (lane_of event) lane
        then record { event = event; targets = targets_of event subs } ∷ []
        else [])

-- The first element, as a list.
abbrev pub first : {A : Type 0} → List A → List A
first [] = []
first (x ∷ xs) = x ∷ []

abbrev pub finished : {P : Type 0} → Text → Text → EventBus P → List (Delivery P)
finished lane chosen bus = if text_eq chosen lane then first (queue chosen bus) else []

queue-publish :
    {P : Type 0} (lane : Text) (event : DomainEvent P) (bus : EventBus P)
    → queue lane (publish event bus) ≡ queue lane bus ++ accepted lane bus.subscriptions event
unfolding publish
queue-publish {P} lane event bus = elim (Bool-cases (is_nil (targets_of event bus.subscriptions))) [
  | inl e ↦ rw e (sym (append-nil _))
  | inr e ↦ elim (Bool-cases (text_eq (lane_of event) lane)) [
    | inl t ↦
        let same = (text_eq_iff (lane_of event) lane).0 t in
        let added : List (Delivery P) =
          record { event = event; targets = targets_of event bus.subscriptions } ∷ [] in
        rw (e, get-set, t) (ap (λ (l : Text). or_else (get l bus.lanes) [] ++ added) same)
    | inr f ↦ rw (e, get-set, f) (sym (append-nil _))
  ]
]

-- How one action joins the rest of a schedule: its own part is added to what is published, or
-- taken from what is held.
after_publish {ℓ} :
    {A : Type ℓ} (held part : List A) {out held' later later' : List A}
    → later' ≡ later
    → held' ≡ held ++ part
    → out ≡ held' ++ later'
    → out ≡ held ++ (part ++ later)
after_publish held part {later} p q e = e ∙ rw (p, q) (append_assoc held part later)

after_finish {ℓ} :
    {A : Type ℓ} (part out rest held' : List A) {held later later' : List A}
    → later' ≡ later
    → part ++ held' ≡ held
    → out ++ rest ≡ held' ++ later'
    → (part ++ out) ++ rest ≡ held ++ later
after_finish part out rest held' {later'} p q e =
    append_assoc part out rest
    ∙ ap (◌++◌ part) e
    ∙ rw (← p, ← q) (sym (append_assoc part held' later'))

module _ {P : Type 0} (attempt_outcome : Subscription → DomainEvent P → ℕ → Outcome) where
  queue-finish_queue :
      (lane chosen : Text) (bus : EventBus P) (q : List (Delivery P))
      → queue chosen bus ≡ q
      → (if text_eq chosen lane then first q else [])
          ++ queue lane (finish_queue attempt_outcome chosen q bus)
        ≡ queue lane bus
  unfolding finish_queue
  queue-finish_queue lane chosen bus [] e = ground arith
  queue-finish_queue lane chosen bus (d ∷ []) e = elim (Bool-cases (text_eq chosen lane)) [
    | inl t ↦
        rw (get-delete, t) (sym e ∙ ap (λ (l : Text). queue l bus) ((text_eq_iff chosen lane).0 t))
    | inr f ↦ rw (get-delete, f)
  ]
  queue-finish_queue lane chosen bus (d ∷ r ∷ rs) e = elim (Bool-cases (text_eq chosen lane)) [
    | inl t ↦
        rw (get-set, t) (sym e ∙ ap (λ (l : Text). queue l bus) ((text_eq_iff chosen lane).0 t))
    | inr f ↦ rw (get-set, f)
  ]

  queue-finish :
      (lane chosen : Text) (bus : EventBus P)
      → finished lane chosen bus ++ queue lane (finish attempt_outcome chosen bus) ≡ queue lane bus
  unfolding finish
  queue-finish lane chosen bus = queue-finish_queue lane chosen bus (queue chosen bus) refl

  -- The deliveries of a lane that a schedule finishes, in the order in which it does.
  pub finished_by : Text → List (Action attempt_outcome) → EventBus P → List (Delivery P)
  finished_by lane [] bus = []
  finished_by lane (publishes event ∷ actions) bus = finished_by lane actions (publish event bus)
  finished_by lane (finishes chosen ∷ actions) bus =
      finished lane chosen bus ++ finished_by lane actions (finish attempt_outcome chosen bus)

  -- The deliveries of a lane that a schedule publishes, in the order in which it does.
  pub accepted_by : Text → List Subscription → List (Action attempt_outcome) → List (Delivery P)
  accepted_by lane subs [] = []
  accepted_by lane subs (publishes event ∷ actions) =
      accepted lane subs event ++ accepted_by lane subs actions
  accepted_by lane subs (finishes chosen ∷ actions) = accepted_by lane subs actions

  unfoldable pub run : List (Action attempt_outcome) → EventBus P → EventBus P
  run [] bus = bus
  run (a ∷ actions) bus = run actions (step attempt_outcome a bus)

  subscriptions-publish :
      (event : DomainEvent P) (bus : EventBus P)
      → (publish event bus).subscriptions ≡ bus.subscriptions
  unfolding publish
  subscriptions-publish event bus = ground arith

  subscriptions-finish_queue :
      (lane : Text) (q : List (Delivery P)) (bus : EventBus P)
      → (finish_queue attempt_outcome lane q bus).subscriptions ≡ bus.subscriptions
  unfolding finish_queue
  subscriptions-finish_queue lane [] bus = refl
  subscriptions-finish_queue lane (d ∷ q) bus = refl

  -- Whatever the schedule, the deliveries that a lane has finished, followed by those that it
  -- still holds, are those that it held, followed by those published to it since, in that order.
  pub lane_order :
      (lane : Text) (actions : List (Action attempt_outcome)) (bus : EventBus P)
      → finished_by lane actions bus ++ queue lane (run actions bus)
        ≡ queue lane bus ++ accepted_by lane bus.subscriptions actions
  unfolding finished_by accepted_by run step finish
  lane_order lane [] bus = sym (append-nil _)
  lane_order lane (publishes event ∷ actions) bus =
      after_publish (queue lane bus) (accepted lane bus.subscriptions event)
        (ap (λ subs. accepted_by lane subs actions) (subscriptions-publish event bus))
        (queue-publish lane event bus) (lane_order lane actions (publish event bus))
  lane_order lane (finishes chosen ∷ actions) bus =
      let next = finish attempt_outcome chosen bus in
      after_finish (finished lane chosen bus) (finished_by lane actions next)
        (queue lane (run actions next)) (queue lane next)
        (ap (λ subs. accepted_by lane subs actions)
          (subscriptions-finish_queue chosen (queue chosen bus) bus))
        (queue-finish lane chosen bus) (lane_order lane actions (finish attempt_outcome chosen bus))
