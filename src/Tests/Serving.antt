-- ===== src/Tests/Serving.antt =====
-- Requests to the service, from the setup on.
use nexus_control.Base.{refl, [], ◌∷◌, List, text}
use nexus_control.Store.Owners.{IsGoverned}
use nexus_control.Store.Reachable.{starts}
use nexus_control.Service.Records.{SetupOwnerInput, LoginInput}
use nexus_control.Service.Serving.{
  Request, set_up, log_in, log_out, registration, serve_all, serve_all-IsGoverned,
}
use nexus_control.Tests.Surroundings.{alone, alone-IsFair, service, at_start}

abbrev pub ann_starts : SetupOwnerInput
ann_starts = record {
  username = text "ann";
  display_name = text " Ann ";
  password = text "password";
  deployment_name = [];
  organization_name = [];
}

abbrev pub ann_enters : LoginInput
ann_enters = record {
  username = text " Ann";
  password = text "password";
  client_ip = [];
  user_agent = [];
}

abbrev bob_registers : LoginInput
bob_registers = record {
  username = text "bob";
  password = text "password";
  client_ip = [];
  user_agent = [];
}

abbrev day : List Request
day =
    set_up ann_starts ∷ log_in ann_enters ∷ registration bob_registers ∷ log_out (text "token") ∷ []

serve_all-IsGoverned_example : IsGoverned (serve_all alone service day at_start).db
serve_all-IsGoverned_example =
    serve_all-IsGoverned alone service day at_start alone-IsFair
      (starts {db = at_start.db} (refl, refl))
