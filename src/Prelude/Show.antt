-- ===== src/Prelude/Show.antt =====
-- `str` of a natural number.
use Prim.Native.Nat.{ℕ, zero, suc, ◌/◌, ◌%◌, ◌+◌}
use Prim.Native.String.{String, ◌++◌}
use evo_ci.Prelude.Integers.{ℤ, pos, negsuc}
use evo_ci.Prelude.Tests.{ltb, eqb, if◌then◌else◌}

abbrev digit : ℕ → String
digit n =
    if eqb n 0
    then "0"
    else if eqb n 1
    then "1"
    else if eqb n 2
    then "2"
    else if eqb n 3
    then "3"
    else if eqb n 4
    then "4"
    else if eqb n 5
    then "5"
    else if eqb n 6
    then "6"
    else if eqb n 7
    then "7"
    else if eqb n 8
    then "8"
    else "9"

-- One round for each digit; `n + 1` rounds are more than the digits of `n`.
digits : ℕ → ℕ → String
digits zero n = ""
digits (suc rounds) n =
    let more = digits rounds (n / 10) in if ltb n 10 then digit n else more ++ digit (n % 10)

unfoldable pub show : ℕ → String
unfolding digits
show n = digits (n + 1) n

unfoldable pub show_int : ℤ → String
show_int (pos n) = show n
show_int (negsuc n) = "-" ++ show (n + 1)
