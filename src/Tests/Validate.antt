-- ===== src/Tests/Validate.antt =====
-- Normalization at concrete inputs.
use nexus_control.Base.{◌≡◌, ◌≤◌, refl, true, some, text}
use nexus_control.Strings.{trim_space, len}
use nexus_control.Service.Validate.{
  to_lower, username_char, request_char, every_char, normalize_username, normalize_request_id,
}
use nexus_control.Service.ValidateLaws.{normalize_username_idem, normalize_request_id_idem}

ann_normal : normalize_username (text " Ann-1 ") ≡ some (text "ann-1")
unfolding normalize_username trim_space to_lower len every_char username_char
ann_normal = refl

normalize_username_idem_example :
    (3 ≤ len (text "ann-1"))
    × (len (text "ann-1") ≤ 64)
    × (every_char username_char (text "ann-1") ≡ true)
    × (normalize_username (text "ann-1") ≡ some (text "ann-1"))
normalize_username_idem_example = normalize_username_idem (text " Ann-1 ") (text "ann-1") ann_normal

request_normal : normalize_request_id (text " req:00001") ≡ some (text "req:00001")
unfolding normalize_request_id trim_space len every_char request_char
request_normal = refl

normalize_request_id_idem_example :
    (8 ≤ len (text "req:00001"))
    × (len (text "req:00001") ≤ 128)
    × (every_char request_char (text "req:00001") ≡ true)
    × (normalize_request_id (text "req:00001") ≡ some (text "req:00001"))
normalize_request_id_idem_example =
    normalize_request_id_idem (text " req:00001") (text "req:00001") request_normal
