-- ===== src/Json/Equality.antt =====
-- What Python's comparisons on JSON values mean.
use platform_engineering.Prelude.{String, ◌≡◌, true, eq_iff, ap, arith}
use platform_engineering.Json.{Value, null, bool, int, str, arr, obj, is_text}

pub is_text→eq : (v : Value) (s : String) → is_text v s ≡ true → v ≡ str s
is_text→eq (str t) s h = ap str ((eq_iff t s).0 h)
is_text→eq null s h = ground arith
is_text→eq (bool b) s h = ground arith
is_text→eq (int n) s h = ground arith
is_text→eq (arr xs) s h = ground arith
is_text→eq (obj d) s h = ground arith
