-- ===== src/Tests/PasswordReplies.antt =====
-- A change of the password after a setup.
use nexus_control.Base.{refl, text}
use nexus_control.Service.Act.{World}
use nexus_control.Service.Records.{ChangePasswordInput}
use nexus_control.Service.Serving.{set_up, serve}
use nexus_control.Service.Passwords.{change_password}
use nexus_control.Service.PasswordReplies.{Told, change_password-Tells}
use nexus_control.Store.Passwords.{password_change_outcome}
use nexus_control.Strings.{trim_space, trim_left, trim_right, is_empty, len}
use nexus_control.Service.Validate.{normalize_request_id, every_char, request_char}
use nexus_control.Tests.Surroundings.{alone, service, at_start}
use nexus_control.Tests.Serving.{ann_starts}

abbrev set : World
set = serve alone service (set_up ann_starts) at_start

abbrev change : ChangePasswordInput
change = record {
  user_id = text "user_d";
  request_id = text "request-1";
  current_password = text "password";
  new_password = text "new password";
}

change_password-Tells_example : Told (change_password alone change set).0 (
    password_change_outcome
      (trim_space (text "user_d"))
      (text "request-1")
      (change_password alone change set).1.db)
unfolding trim_space trim_left trim_right is_empty normalize_request_id every_char request_char len
change_password-Tells_example =
    change_password-Tells alone change (text "request-1") set (λ n db user request e h. h) refl refl
