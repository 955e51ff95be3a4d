-- ===== src/LocalControl/Outcome.antt =====
-- What a write reports, whatever else the session does while it waits.
use foxess_local_gateway.Prelude.{
  ℕ, suc, ◌<◌, ◌≢◌, List, [], ◌∷◌, Bool, true, ◌=b◌, some, none, Option, if◌then◌else◌,
}
use foxess_local_gateway.Dict.{get}
use foxess_local_gateway.LocalControl.{
  LocalControl, normalize_device, device_for, begin_write, finish_write, resolve_response,
  read_holding, device_byte_write, Registry, startup,
}

-- What can happen in the session while a write waits: an uplink frame that is recognised as an
-- answer, another request, the end of another write.
pub data Event : Type 0 where
  answer : List ℕ → Bool → Event
  write : Bool → ℕ → ℕ → Event
  read : ℕ → ℕ → Option ℕ → Event
  finish : List ℕ → Event

-- The session's side of a read is left out here: it does not touch the writes.
abbrev pub unheard : Registry (Unit {0})
unheard = record { register = λ k a n x o s. s; unregister = λ k s. s }

abbrev pub happen : Event → LocalControl → LocalControl
happen (answer device ack) c = resolve_response device ack c
happen (write waits address value) c = (begin_write waits address value c).0
happen (read address count expected) c =
    (read_holding unheard address count expected startup c tt).0.0
happen (finish key) c = (finish_write key c).0

abbrev pub happen_all : List Event → LocalControl → LocalControl
happen_all [] c = c
happen_all (e ∷ es) c = happen_all es (happen e c)

-- The first answer to the request with this key.
abbrev pub first_answer : List ℕ → List Event → Option Bool
first_answer key [] = none
first_answer key (answer device ack ∷ es) =
    if normalize_device device =b key then some ack else first_answer key es
first_answer key (e ∷ es) = first_answer key es

-- How many requests are issued.
abbrev pub issued : List Event → ℕ
issued [] = 0
issued (write w a v ∷ es) = suc (issued es)
issued (read a n x ∷ es) = suc (issued es)
issued (e ∷ es) = issued es

-- No other task ends the write with this key.
abbrev pub NotFinished : List ℕ → List Event → Type 0
NotFinished key [] = Unit
NotFinished key (finish k ∷ es) = (k ≢ key) × NotFinished key es
NotFinished key (e ∷ es) = NotFinished key es

module _ (key : List ℕ) where
  abbrev future : LocalControl → Option (Option Bool)
  future c = get key c.pending_writes

  -- An answer settles a write that is still open, if it has its key.
  abbrev answered : Bool → Bool → Option (Option Bool) → Option (Option Bool)
  answered true ack (some none) = some (some ack)
  answered _ ack o = o

-- What was there, or the answer.
abbrev first_of_two : Option Bool → Option Bool → Option Bool
first_of_two (some b) o = some b
first_of_two none o = o

module _ (n : ℕ) (small : n < 65536) where
  abbrev mine : List ℕ
  mine = normalize_device (device_for device_byte_write n)
