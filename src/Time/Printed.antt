-- ===== src/Time/Printed.antt =====
-- packages/schemas/src/trading/schemas/time.py: printing instants, as the code points of a text. The
-- C library refuses years that do not fit its int, far beyond an int64 of nanoseconds.
use self_improving_trading_s.Prelude.{
  ℕ, zero, suc, ◌+◌, ◌-◌, ◌/◌, ◌%◌, ◌^◌, if◌then◌else◌, ltb, List, [], ◌∷◌, ◌++◌, ℤ, pos, negsuc,
  floor_div, floor_mod,
}
use self_improving_trading_s.Calendar.{StructTime, gmtime}
use self_improving_trading_s.Time.{ns_per_second}

-- The last digits of a number.
unfoldable pub fixed : ℕ → ℕ → List ℕ
fixed zero n = []
fixed (suc width) n = (b'0' + n / 10 ^ width) ∷ fixed width (n % 10 ^ width)

-- The digits of a number, on fuel: one more than the number is enough.
decimal : ℕ → ℕ → List ℕ
decimal zero n = []
decimal (suc fuel) n =
    let front = decimal fuel (n / 10) in
    if ltb n 10 then (b'0' + n) ∷ [] else front ++ ((b'0' + n % 10) ∷ [])

-- `f"{n:0{width}d}"`: a number that is too long for the width keeps its digits.
unfoldable pub padded : ℕ → ℕ → List ℕ
unfolding fixed decimal
padded width n = if ltb n (10 ^ width) then fixed width n else decimal (suc n) n

unfoldable pub padded_int : ℕ → ℤ → List ℕ
padded_int width (pos n) = padded width n
padded_int width (negsuc n) = b'-' ∷ padded (width - 1) (n + 1)

unfoldable pub format_parts : StructTime → ℕ → List ℕ
format_parts t nanos =
    padded_int 4 t.tm_year
    ++ (b'-'
        ∷ (padded 2 t.tm_mon
            ++ (b'-'
                ∷ (padded 2 t.tm_mday
                    ++ (b'T'
                        ∷ (padded 2 t.tm_hour
                            ++ (b':'
                                ∷ (padded 2 t.tm_min
                                    ++ (b':'
                                        ∷ (padded 2 t.tm_sec
                                            ++ (b'.' ∷ (padded 9 nanos ++ (b'Z' ∷ [])))))))))))))

-- The code points of the text.
unfoldable pub format_ns : ℤ → List ℕ
format_ns value =
    format_parts (gmtime (floor_div value ns_per_second)) (floor_mod value ns_per_second)
