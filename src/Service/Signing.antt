-- ===== src/Service/Signing.antt =====
-- internal/service/auth/signing.go: the claims of a principal and the token around them. The JSON of
-- the claims and the Ed25519 signature are parameters. Instants are counted in microseconds.
use Prim.Native.Nat.{◌/◌}
use nexus_control.Base.{ℕ, ◌+◌, Bool, Option, none, some, List, ◌++◌, Text, text}
use nexus_control.Strings.{utf8}
use nexus_control.Schema.{Role}
use nexus_control.Service.Base64.{url, encode}
use nexus_control.Service.Records.{Entitlement, Principal}

-- The role in a token: that of the deployment, or `"node"`.
pub data TokenRole : Type 0 where
  platform : Role → TokenRole
  node_role : TokenRole

-- `PrincipalClaims`
pub record PrincipalClaims : Type 0 where
  pub web_access_disabled : Bool
  pub organization_role : Option Role
  pub node_id : Text
  pub parent_session_id : Text
  pub agent_ids : List Text
  pub version : ℕ
  pub issuer : Text
  pub audience : Text
  pub issued_at : ℕ
  pub expires_at : ℕ
  pub deployment_id : Text
  pub organization_id : Text
  pub organization_name : Text
  pub user_id : Text
  pub username : Text
  pub display_name : Text
  pub role : TokenRole
  pub avatar : Text
  pub auth_method : Text
  pub session_id : Text
  pub entitlement : Entitlement

-- `time.Unix` of an instant.
abbrev pub unix : ℕ → ℕ
unix t = t / 1_000_000

-- The claims that `Sign` writes.
unfoldable pub claims : Principal → TokenRole → Text → ℕ → ℕ → PrincipalClaims
claims p role audience now ttl = record {
  web_access_disabled = p.web_access_disabled;
  organization_role = p.organization_role;
  node_id = p.node_id;
  parent_session_id = p.parent_session_id;
  agent_ids = p.agent_ids;
  version = 1;
  issuer = text "nexus-control";
  audience = audience;
  issued_at = unix now;
  expires_at = unix (now + ttl);
  deployment_id = p.deployment_id;
  organization_id = p.organization_id;
  organization_name = p.organization_name;
  user_id = p.user_id;
  username = p.username;
  display_name = p.display_name;
  role = role;
  avatar = p.avatar;
  auth_method = p.auth_method;
  session_id = p.session_id;
  entitlement = p.entitlement;
}

-- `json.Marshal` of claims, and `ed25519.Sign` with the private key.
pub record Signer : Type 0 where
  pub marshal : PrincipalClaims → Option (List ℕ)
  pub signature : List ℕ → List ℕ

-- `principalTokenHeader`
abbrev pub principal_token_header : Text
principal_token_header = text "{\"alg\":\"EdDSA\",\"typ\":\"NEXUS-PRINCIPAL\",\"v\":1}"

abbrev pub signed_part : List ℕ → Text
signed_part payload = encode url (utf8 principal_token_header) ++ (text "." ++ encode url payload)

abbrev pub token_of : Signer → Option (List ℕ) → Option Text
token_of signer none = none
token_of signer (some payload) = some (
    signed_part payload ++ (text "." ++ encode url (signer.signature (utf8 (signed_part payload)))))

-- `Sign`; no token is an error.
unfoldable pub sign : Signer → Principal → TokenRole → Text → ℕ → ℕ → Option Text
unfolding claims encode
sign signer p role audience now ttl =
    token_of signer (signer.marshal (claims p role audience now ttl))
