-- ===== src/Clock.antt =====
-- Instants, and the order of the texts that the tables hold. An instant is a number of
-- microseconds. `_iso` of storage/store.py and pipeline.py prints "YYYY-MM-DDTHH:MM:SS", then
-- ".ffffff" unless the microseconds are zero, then "Z"; SQLite compares these texts. Texts of two
-- seconds compare as the seconds do. Within one second ".ffffff" goes before "Z", since "." is the
-- smaller character, so the whole second comes last.
use vpn_pulse.Prelude.{
  ℕ, ◌+◌, ◌*◌, ◌/◌, ◌%◌, ◌≤◌, ◌<◌, Bool, true, ◌≡◌, ltb, leb, nat_eq, if◌then◌else◌, arith,
}

abbrev pub second : ℕ
second = 1000000

abbrev pub seconds : ℕ → ℕ
seconds n = n * 1000000

abbrev pub days : ℕ → ℕ
days n = n * 86400000000

-- The place of the text of an instant in the order of the texts.
unfoldable pub text_rank : ℕ → ℕ
text_rank t = t / second * 2000000 + (if ltb 0 (t % second) then t % second else second)

-- `a <= b` and `a < b` between columns that hold such texts.
unfoldable pub text_le : ℕ → ℕ → Bool
unfolding text_rank
text_le a b = leb (text_rank a) (text_rank b)

unfoldable pub text_lt : ℕ → ℕ → Bool
unfolding text_rank
text_lt a b = ltb (text_rank a) (text_rank b)

-- The order of the texts is that of the instants, but for less than a second.
pub text_le-bound : (a b : ℕ) → text_le a b ≡ true → a < b + second
unfolding text_le
text_le-bound a b h = ground arith

pub text_le_of_second : (a b : ℕ) → a + second ≤ b → text_le a b ≡ true
unfolding text_le
text_le_of_second a b h = ground arith

pub text_lt-bound : (a b : ℕ) → text_lt a b ≡ true → a < b + second
unfolding text_lt
text_lt-bound a b h = ground arith

pub text_lt_of_second : (a b : ℕ) → a + second ≤ b → text_lt a b ≡ true
unfolding text_lt
text_lt_of_second a b h = ground arith

-- The bound is met: half a second into a second, the text of that whole second is still later.
pub whole_second_last :
    (s f : ℕ) → 0 < f → f < second → text_lt (s * second + f) (s * second) ≡ true
unfolding text_lt
whole_second_last s f h k = ground arith
