-- ===== src/Audit/Recording.antt =====
-- event-log.service.ts: what the recording of an event does to the log.
use senior_io_t_platform_arc.Prelude.{
  ℕ, ◌≡◌, Bool, ◌&&◌, ◌||◌, not, List, ◌∷◌, any, if◌then◌else◌, Option, Text, text_eq, text_eq_refl,
  arith,
}
use senior_io_t_platform_arc.Platform.Catalog.{is_audited_event_type}
use senior_io_t_platform_arc.Platform.Events.{DomainEvent}
use senior_io_t_platform_arc.Audit.{EventLogRecord, record_of, record_if_audited}

abbrev pub is_recorded : {P : Type 0} → Text → List (EventLogRecord P) → Bool
is_recorded id log = any (λ r. text_eq r.event_id id) log

-- Handing the same event over again, at whatever time, changes nothing; an event is in the log
-- afterwards exactly if it was before or is audited; and the log is the one of before, with at most
-- the event's own row added as its newest.
pub record_if_audited-once :
    {P : Type 0} (to_date : Text → ℕ) (empty : P) (seq now later_seq later : ℕ)
    (event : DomainEvent (Option P)) (log : List (EventLogRecord P))
    → let after = record_if_audited to_date empty seq now event log in
      (record_if_audited to_date empty later_seq later event after ≡ after)
      × (is_recorded event.event_id after
          ≡ (is_audited_event_type event.event_type || is_recorded event.event_id log))
      × (after ≡ (
          if is_audited_event_type event.event_type && not (is_recorded event.event_id log)
          then record_of to_date empty seq now event ∷ log
          else log))
unfolding record_if_audited
record_if_audited-once to_date empty seq now later_seq later event log = (
  ground (arith, text_eq_refl event.event_id),
  ground (arith, text_eq_refl event.event_id),
  ground arith,
)
