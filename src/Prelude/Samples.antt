-- ===== src/Prelude/Samples.antt =====
-- A small host for the concrete runs: ASCII letters are lowered, a date is a decimal number, and a
-- URL is a text that starts with `https:` or `javascript:`.
use urwhaturead.Prelude.{
  ℕ, ◌+◌, ◌-◌, ◌*◌, ◌&&◌, Option, none, some, [], ◌∷◌, map, if◌then◌else◌, leb, Text, codes,
  starts_with, ℤ, pos,
}
use urwhaturead.Prelude.Host.{Host, Url}

abbrev pub lower : ℕ → ℕ
lower c = if leb 65 c && leb c 90 then c + 32 else c

abbrev pub number_from : ℕ → Text → ℕ
number_from n [] = n
number_from n (c ∷ s) = number_from (n * 10 + (c - 48)) s

abbrev date_of : Text → Option ℤ
date_of [] = none
date_of (c ∷ s) = some (pos (number_from 0 (c ∷ s)))

abbrev url_of : Text → Text → Url
url_of protocol value = record { protocol = protocol; hostname = []; pathname = []; href = value }

abbrev parsed : Text → Option Text → Option Url
parsed value base =
    if starts_with value (codes "https:")
    then some (url_of (codes "https:") value)
    else if starts_with value (codes "javascript:")
    then some (url_of (codes "javascript:") value)
    else none

abbrev pub small_host : Host
small_host = record { to_lower_case = map lower; date_parse = date_of; parse_url = parsed }
