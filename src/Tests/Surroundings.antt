-- ===== src/Tests/Surroundings.antt =====
-- Surroundings in which a single client uses the service: a clock that ticks, random texts that are
-- counted, and readable stand-ins for the hash functions and the signature.
use nexus_control.Base.{◌+◌, true, some, [], ◌∷◌, text}
use nexus_control.Service.Act.{Env, World}
use nexus_control.Service.Signing.{Signer}
use nexus_control.Service.Sessions.{Service, Config}
use nexus_control.Service.Refinement.Rules.{IsFair, stays}
use nexus_control.Tests.Fixtures.{office}
use nexus_control.Tests.Setup.{empty}

abbrev pub alone : Env
alone = record {
  clock = λ n. 100 + n;
  others = λ n db. db;
  random_id = λ n. (b'a' + n) ∷ [];
  random_token = λ n. some (text "token");
  random_salt = λ n. some (1 ∷ 2 ∷ 3 ∷ 4 ∷ []);
  sha256 = λ bytes. bytes;
  argon = record { version = 19; id_key = λ password salt t m p l. password };
}

pub alone-IsFair : IsFair alone
alone-IsFair n db = stays

abbrev pub pen : Signer
pen = record { marshal = λ c. some (c.issued_at ∷ []); signature = λ bytes. 7 ∷ [] }

abbrev pub config : Config
config = record {
  session_ttl = 1000;
  principal_ttl = 60;
  principal_audience = text "nexus";
  setup_token = text "secret";
  registration_enabled = true;
}

abbrev pub service : Service
service = record {
  signer = pen;
  session_ttl = 1000;
  principal_ttl = 60;
  audiences = text "nexus" ∷ text "nexus-relay-user" ∷ [];
  setup_enabled = true;
  registration_enabled = true;
}

-- The world of the fixture, and that before the setup.
abbrev pub at_office : World
at_office = record { turn = 0; db = office }

abbrev pub at_start : World
at_start = record { turn = 0; db = empty }
