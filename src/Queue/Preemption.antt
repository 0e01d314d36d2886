-- ===== src/Queue/Preemption.antt =====
-- How a running job gives up its resource: `RestartWindow` and `Preemption` of src/queue.rs. Spans
-- are in nanoseconds. A clock that went backwards counts as age zero, as subtraction on ℕ does.
use homebased.Base.{
  ◌-◌, ◌*◌, Bool, false, ◌&&◌, String, if◌then◌else◌, ltb, leb, Option, none, some, map_or, Result,
  ok, err,
}
use homebased.Ids.{Time, Span}
use homebased.Error.{QueueError, invalid_restart_window}

abbrev pub second : Span
second = 1000000000

pub record RestartWindow : Type 0 where
  pub span : Span

abbrev pub min_window : Span
min_window = 60 * second

abbrev pub max_window : Span
max_window = 24 * 60 * 60 * second

-- `TryFrom<Duration> for RestartWindow`.
unfoldable pub window_of_span : Span → Result RestartWindow QueueError
window_of_span window =
    if leb min_window window && leb window max_window
    then ok (record { span = window })
    else err (invalid_restart_window window)

unfoldable pub contains : RestartWindow → Time → Time → Bool
contains window started_at now = ltb (now - started_at) window.span

pub data Preemption : Type 0 where
  restart : Preemption
  wait yield : Option RestartWindow → Preemption

pub data PreemptionMode : Type 0 where
  restart wait yield : PreemptionMode

pub record PreemptionWire : Type 0 where
  pub mode : PreemptionMode
  pub restart_within : Option RestartWindow

of_mode : PreemptionMode → Option RestartWindow → Result Preemption String
of_mode PreemptionMode.restart (some _) =
    err "restart_within applies only to wait and yield; restart mode always restarts"
of_mode PreemptionMode.restart none = ok Preemption.restart
of_mode PreemptionMode.wait window = ok (Preemption.wait window)
of_mode PreemptionMode.yield window = ok (Preemption.yield window)

-- `TryFrom<PreemptionWire> for Preemption`.
unfoldable pub of_wire : PreemptionWire → Result Preemption String
unfolding of_mode
of_wire wire = of_mode wire.mode wire.restart_within

pub data PreemptStop : Type 0 where
  restart yield : PreemptStop

inside : Option RestartWindow → Time → Time → Bool
unfolding contains
inside window started_at now = map_or window false (λ w. contains w started_at now)

unfoldable pub stop_at : Preemption → Time → Time → Option PreemptStop
unfolding inside
stop_at Preemption.restart started_at now = some PreemptStop.restart
stop_at (Preemption.wait window) started_at now =
    if inside window started_at now then some PreemptStop.restart else none
stop_at (Preemption.yield window) started_at now =
    if inside window started_at now then some PreemptStop.restart else some PreemptStop.yield

abbrev pub mode : Preemption → String
mode Preemption.restart = "restart"
mode (Preemption.wait _) = "wait"
mode (Preemption.yield _) = "yield"
