-- ===== src/Server/PowerLimit/Pending.antt =====
-- The setpoint that is still to be applied, against the history of commands and acknowledgements.
use foxess_local_gateway.Prelude.{
  ℕ, suc, ◌+◌, ◌≤◌, ◌≡◌, refl, arith, List, [], ◌∷◌, ◌&&◌, ◌==◌, ◌=b◌, =b-refl, Option, none, some,
  if◌then◌else◌,
}
use foxess_local_gateway.Dict.{get, get-put, =b_iff}
use foxess_local_gateway.Server.PowerLimit.{
  PowerLimits, init, or_zero, current_generation, set_desired, mark_applied, pending,
}

-- What happens to the table: a command, or the acknowledgement of the command with a generation.
pub data Event : Type 0 where
  command : List ℕ → ℕ → Event
  acknowledged : List ℕ → ℕ → ℕ → Event

-- The state after a history, which has its latest event first.
abbrev pub after : List Event → PowerLimits
after [] = init
after (command s percent ∷ es) = (set_desired s percent (after es)).0
after (acknowledged s percent g ∷ es) = mark_applied s percent g (after es)

-- How many commands the serial has had.
abbrev pub commands : List ℕ → List Event → ℕ
commands s [] = 0
commands s (command j percent ∷ es) = if j =b s then suc (commands s es) else commands s es
commands s (acknowledged j percent g ∷ es) = commands s es

-- The specification: the last command's value, until that very command is acknowledged.
abbrev pub unacknowledged : List ℕ → List Event → Option ℕ
unacknowledged s [] = none
unacknowledged s (command j percent ∷ es) = if j =b s then some percent else unacknowledged s es
unacknowledged s (acknowledged j percent g ∷ es) =
    if j =b s && g == commands s es then none else unacknowledged s es

-- Only generations that were handed out are acknowledged.
abbrev pub IsHistory : List Event → Type 0
IsHistory [] = Unit
IsHistory (command s percent ∷ es) = IsHistory es
IsHistory (acknowledged s percent g ∷ es) = (g ≤ commands s es) × IsHistory es

-- What holds of the tables at one serial.
record Agrees (s : List ℕ) (es : List Event) (p : PowerLimits) : Type 0 where
  generations : or_zero (get s p.gen) ≡ commands s es
  confirmed : or_zero (get s p.confirmed_gen) ≤ commands s es
  waiting : pending s p ≡ unacknowledged s es

command-Agrees :
    (s j : List ℕ) (percent : ℕ) (es : List Event) (p : PowerLimits)
    → Agrees s es p
    → Agrees s (command j percent ∷ es) (set_desired j percent p).0
unfolding set_desired pending
command-Agrees s j percent es p h = record {
  generations =
      ground (arith, h.generations, get-put j s (or_zero (get j p.gen) + 1) p.gen, =b_iff j s);
  confirmed = ground (arith, h.confirmed);
  waiting = ground (
    arith,
    h.generations,
    h.confirmed,
    h.waiting,
    get-put j s (or_zero (get j p.gen) + 1) p.gen,
    get-put j s percent p.desired,
    =b_iff j s,
  );
}

acknowledged-Agrees :
    (s j : List ℕ) (percent g : ℕ) (es : List Event) (p : PowerLimits)
    → g ≤ commands j es
    → Agrees s es p
    → Agrees s (acknowledged j percent g ∷ es) (mark_applied j percent g p)
unfolding mark_applied pending
acknowledged-Agrees s j percent g es p issued h = record {
  generations = h.generations;
  confirmed = ground (arith, h.confirmed, get-put j s g p.confirmed_gen, =b_iff j s);
  waiting =
      ground
        (arith, h.generations, h.confirmed, h.waiting, get-put j s g p.confirmed_gen, =b_iff j s);
}

init-Agrees : (s : List ℕ) → Agrees s [] init
unfolding get pending
init-Agrees s = record { generations = refl; confirmed = omega arith; waiting = refl }

history-Agrees : (s : List ℕ) (es : List Event) → IsHistory es → Agrees s es (after es)
history-Agrees s [] h = init-Agrees s
history-Agrees s (command j percent ∷ es) h =
    command-Agrees s j percent es (after es) (history-Agrees s es h)
history-Agrees s (acknowledged j percent g ∷ es) (issued, h) =
    acknowledged-Agrees s j percent g es (after es) issued (history-Agrees s es h)

-- After any history of commands and acknowledgements, for any serials and in any order, the setpoint
-- pending for a serial is that of its last command, unless the acknowledgement of that very command
-- has come; late acknowledgements of earlier commands, and other serials, do not change it.
pub pending_refines :
    (s : List ℕ) (es : List Event) → IsHistory es → pending s (after es) ≡ unacknowledged s es
pending_refines s es h = (history-Agrees s es h).waiting

pub current_generation_lem :
    (s : List ℕ) (es : List Event) → IsHistory es → current_generation s (after es) ≡ commands s es
unfolding current_generation
current_generation_lem s es h = (history-Agrees s es h).generations

-- The generation that a command is given is the number of the serial's commands so far, itself
-- included; so it is the one that a history may acknowledge.
pub set_desired_generation :
    (s : List ℕ) (percent : ℕ) (es : List Event)
    → IsHistory es
    → (set_desired s percent (after es)).1 ≡ commands s (command s percent ∷ es)
unfolding set_desired
set_desired_generation s percent es h =
    rw (=b-refl s) (omega (arith, (history-Agrees s es h).generations))
