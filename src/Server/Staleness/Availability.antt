-- ===== src/Server/Staleness/Availability.antt =====
-- The availability messages of a serial, over any sequence of telemetry and watchdog runs.
use foxess_local_gateway.Prelude.{ℕ, List, [], ◌∷◌, ◌++◌, Bool, true, false, ◌=b◌, if◌then◌else◌}
use foxess_local_gateway.Server.Staleness.{
  Monitor, Message, online, offline, telemetry, publish_telemetry, mark_stale_telemetry,
}

-- The availability messages for one serial, in order: `true` for online.
abbrev pub availability : List ℕ → List Message → List Bool
availability s [] = []
availability s (online j ∷ ms) =
    let rest = availability s ms in if j =b s then true ∷ rest else rest
availability s (offline j ∷ ms) =
    let rest = availability s ms in if j =b s then false ∷ rest else rest
availability s (telemetry j ∷ ms) = availability s ms

-- What the messages make of a serial, from a state (`true`: offline) to a state: it goes offline only
-- when it is not, and an online message leaves it online.
pub data Toggles : Bool → List Bool → Bool → Type 0 where
  steady : {b : Bool} → Toggles b [] b
  down : {ms : List Bool} {e : Bool} → Toggles true ms e → Toggles false (false ∷ ms) e
  up : {ms : List Bool} {e : Bool} → Toggles false ms e → Toggles true (true ∷ ms) e
  again : {ms : List Bool} {e : Bool} → Toggles false ms e → Toggles false (true ∷ ms) e

abbrev resumed : Bool → List ℕ → List Message
resumed was_stale j = if was_stale then online j ∷ [] else []

-- What the application sees: a telemetry frame, with the two clocks, or a run of the watchdog.
pub data Event : Type 0 where
  heard : List ℕ → ℕ → ℕ → Event
  watchdog : ℕ → Event

module _ (timeout min_interval : ℕ) where
  abbrev pub handle : Event → Monitor → Monitor × List Message
  handle (heard serial mono now) m = publish_telemetry serial mono now min_interval m
  handle (watchdog now) m = mark_stale_telemetry timeout now m

  abbrev pub handle_all : List Event → Monitor → Monitor × List Message
  handle_all [] m = (m, [])
  handle_all (e ∷ es) m =
      let (m', first) = handle e m in let (last, later) = handle_all es m' in (last, first ++ later)
