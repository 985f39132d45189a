-- ===== src/Rpc/Generation.antt =====
-- `createGeneration`: a hybrid logical clock, whose two module variables are the state.
use Prim.Native.String.{◌++◌}
use happy_server.Common.{
  ℕ, ◌+◌, ◌<◌, String, List, [], ◌∷◌, ltb, if◌then◌else◌, ◌≡◌, ◌⊎◌, ◌^◌, true,
}
use happy_server.Rpc.{Platform}

pub record GenerationClock : Type 0 where
  pub last_registration_timestamp_ms : ℕ
  pub last_registration_sequence : ℕ

unfoldable pub tick : GenerationClock → ℕ → GenerationClock
tick c observed_at_ms =
    if ltb c.last_registration_timestamp_ms observed_at_ms
    then (record {
      last_registration_timestamp_ms = observed_at_ms;
      last_registration_sequence = 0;
    })
    else if ltb 99999999 (c.last_registration_sequence + 1)
    then (record {
      last_registration_timestamp_ms = c.last_registration_timestamp_ms + 1;
      last_registration_sequence = 0;
    })
    else (record c { last_registration_sequence = c.last_registration_sequence + 1 })

unfoldable pub create_generation :
    Platform → GenerationClock → ℕ → String → GenerationClock × String
unfolding tick
create_generation js c observed_at_ms uuid =
    let now = tick c observed_at_ms in
    (
      now,
      js.pad_start now.last_registration_timestamp_ms 16
          ++ (":" ++ (js.pad_start now.last_registration_sequence 8 ++ (":" ++ uuid))),
    )

-- The clock after registrations at the observed times, whatever the wall clock does.
unfoldable pub clock_after : Platform → GenerationClock → List (ℕ × String) → GenerationClock
clock_after js c [] = c
clock_after js c ((observed_at_ms, uuid) ∷ rounds) =
    clock_after js (create_generation js c observed_at_ms uuid).0 rounds

abbrev pub IsBefore : GenerationClock → GenerationClock → Type 0
IsBefore c d =
    (c.last_registration_timestamp_ms < d.last_registration_timestamp_ms)
    ⊎ ((c.last_registration_timestamp_ms ≡ d.last_registration_timestamp_ms)
        × (c.last_registration_sequence < d.last_registration_sequence))

-- `<` on texts, with `padStart` of decimal numbers: texts are compared at their first difference, and
-- padded numbers of one width as the numbers are.
abbrev pub IsLexicographic : Platform → Type 0
IsLexicographic js =
    ((x y p q : String)
      → js.length x ≡ js.length y
      → js.before x y ≡ true
      → js.before (x ++ p) (y ++ q) ≡ true)
    × ((x p q : String) → js.before p q ≡ true → js.before (x ++ p) (x ++ q) ≡ true)
    × ((a b width : ℕ)
        → a < b
        → b < 10 ^ width
        → js.before (js.pad_start a width) (js.pad_start b width) ≡ true)
    × ((a width : ℕ) → a < 10 ^ width → js.length (js.pad_start a width) ≡ width)

module _ (js : Platform) where
  -- The text of a generation.
  abbrev text_of : GenerationClock → String → String
  text_of c uuid =
      js.pad_start c.last_registration_timestamp_ms 16
      ++ (":" ++ (js.pad_start c.last_registration_sequence 8 ++ (":" ++ uuid)))
