-- ===== src/Rpc/GenerationExamples.antt =====
-- A platform that compares texts by their characters and pads decimal numbers, and the order of the
-- generations on it.
use Prim.Native.String.{◌++◌}
use Prim.Native.Char.{Char, char, code}
use happy_server.Common.{
  ℕ, zero, suc, ◌+◌, ◌/◌, ◌%◌, String, Bool, true, false, ◌&&◌, ◌||◌, none, [], ltb, nat_eq,
}
use happy_server.Rpc.{Platform}
use happy_server.Rpc.Generation.{GenerationClock}

abbrev size_of : String → ℕ
size_of String.[] = 0
size_of (String.◌∷◌ c s) = size_of s + 1

abbrev is_before : String → String → Bool
is_before String.[] String.[] = false
is_before String.[] (String.◌∷◌ d t) = true
is_before (String.◌∷◌ c s) String.[] = false
is_before (String.◌∷◌ c s) (String.◌∷◌ d t) =
    ltb (code c) (code d) || (nat_eq (code c) (code d) && is_before s t)

abbrev digit : ℕ → Char
digit zero = char 48 tt
digit (suc zero) = char 49 tt
digit (suc (suc zero)) = char 50 tt
digit (suc (suc (suc zero))) = char 51 tt
digit (suc (suc (suc (suc zero)))) = char 52 tt
digit (suc (suc (suc (suc (suc zero))))) = char 53 tt
digit (suc (suc (suc (suc (suc (suc zero)))))) = char 54 tt
digit (suc (suc (suc (suc (suc (suc (suc zero))))))) = char 55 tt
digit (suc (suc (suc (suc (suc (suc (suc (suc zero)))))))) = char 56 tt
digit n = char 57 tt

-- The last digits of a number, as many as the width.
unfoldable padded : ℕ → ℕ → String
padded n zero = String.[]
padded n (suc width) = padded (n / 10) width ++ String.◌∷◌ (digit (n % 10)) String.[]

abbrev texts : Platform
texts = record {
  stringify = λ v. "";
  parse = λ t. none;
  cjson_decode = λ t. none;
  before = is_before;
  is_generation = λ t. true;
  length = size_of;
  pad_start = padded;
  digest = λ u m. u;
}

abbrev clock : GenerationClock
clock = record { last_registration_timestamp_ms = 7; last_registration_sequence = 0 }
