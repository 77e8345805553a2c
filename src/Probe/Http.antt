-- ===== src/Probe/Http.antt =====
-- The status line of an answer, engine/filter/probe.py: _HTTP_STATUS_RE and what reads it.
use infinity_proxy.Prelude.{
  ℕ, ◌+◌, ◌-◌, ◌*◌, String, Bool, false, ◌&&◌, ◌||◌, Option, none, some, [], ◌∷◌, ◌++◌, leb, ltb,
  ◌==◌, if◌then◌else◌,
}
use infinity_proxy.Wire.{Bytes, ascii}

abbrev pub is_digit : ℕ → Bool
is_digit b = leb 48 b && leb b 57

abbrev pub is_version : ℕ → Bool
is_version b = is_digit b || b == 46

-- ` ([0-9]{3})`
unfoldable pub code_at : Bytes → Option ℕ
code_at (s ∷ x ∷ y ∷ z ∷ rest) =
    if s == 32 && (is_digit x && (is_digit y && is_digit z))
    then some ((x - 48) * 100 + (y - 48) * 10 + (z - 48))
    else none
code_at _ = none

-- `[0-9.]*`, and the code after it
unfoldable pub after_version : Bytes → Option ℕ
unfolding code_at
after_version [] = none
after_version (b ∷ bs) =
    let further = after_version bs in if is_version b then further else code_at (b ∷ bs)

-- the expression at the beginning of the bytes
unfoldable pub status_at : Bytes → Option ℕ
unfolding after_version
status_at (h ∷ t ∷ t' ∷ p ∷ s ∷ v ∷ rest) =
    if h == b'H' && (t == b'T' && (t' == b'T' && (p == b'P' && (s == b'/' && is_version v))))
    then after_version rest
    else none
status_at _ = none

-- _http_status: the first place where the expression matches
unfoldable pub http_status : Bytes → Option ℕ
unfolding status_at
http_status [] = none
http_status (b ∷ bs) =
    let further = http_status bs in elim (status_at (b ∷ bs)) [ none ↦ further | some n ↦ some n ]

abbrev pub in_range : Option ℕ → Bool
in_range none = false
in_range (some n) = leb 200 n && ltb n 400

unfoldable pub is_successful_http : Bytes → Bool
unfolding http_status
is_successful_http bs = in_range (http_status bs)

unfoldable pub probe_request : String → Bytes → Bytes
probe_request path host =
    ascii "GET "
    ++ (ascii path ++ (ascii " HTTP/1.0\r\n" ++ (ascii "Host: " ++ (host ++ ascii "\r\n\r\n"))))
