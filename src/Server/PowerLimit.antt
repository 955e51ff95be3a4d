-- ===== src/Server/PowerLimit.antt =====
-- The ActivePowerLimit bookkeeping of `FoxessLocalCloud` in foxess_local_cloud/server.py: desired and
-- applied setpoints by serial, and the command generations that tie an acknowledgement to its
-- command.
pub mod Pending
use foxess_local_gateway.Prelude.{
  ℕ, ◌+◌, List, [], ◌∷◌, Option, none, some, ltb, leb, if◌then◌else◌,
}
use foxess_local_gateway.Dict.{get, put}

abbrev pub Table : Type 0
Table = List (List ℕ × ℕ)

pub record PowerLimits : Type 0 where
  pub desired : Table
  pub applied : Table
  pub gen : Table
  pub confirmed_gen : Table

abbrev pub init : PowerLimits
init = record { desired = []; applied = []; gen = []; confirmed_gen = [] }

-- `d.get(serial, 0)`
abbrev pub or_zero : Option ℕ → ℕ
or_zero none = 0
or_zero (some n) = n

unfoldable pub current_generation : List ℕ → PowerLimits → ℕ
current_generation serial p = or_zero (get serial p.gen)

abbrev pub confirmed_generation : List ℕ → PowerLimits → ℕ
confirmed_generation serial p = or_zero (get serial p.confirmed_gen)

-- The new state and the command's generation.
unfoldable pub set_desired : List ℕ → ℕ → PowerLimits → PowerLimits × ℕ
set_desired serial percent p =
    let generation = or_zero (get serial p.gen) + 1 in
    (
      record p { desired = put serial percent p.desired; gen = put serial generation p.gen },
      generation,
    )

unfoldable pub mark_applied : List ℕ → ℕ → ℕ → PowerLimits → PowerLimits
mark_applied serial percent generation p = record p {
  applied = put serial percent p.applied;
  confirmed_gen =
      (if ltb (or_zero (get serial p.confirmed_gen)) generation
        then put serial generation p.confirmed_gen
        else p.confirmed_gen);
}

unfoldable pub pending : List ℕ → PowerLimits → Option ℕ
pending serial p = elim (get serial p.desired) [
  | none ↦ none
  | some desired ↦
      if leb (or_zero (get serial p.gen)) (or_zero (get serial p.confirmed_gen))
      then none
      else some desired
]
