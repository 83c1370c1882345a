-- ===== src/Tests/Permissions.antt =====
-- An invitation that the owner of the organization withdraws.
use nexus_control.Base.{text}
use nexus_control.Schema.{role_owner}
use nexus_control.Service.Records.{Principal, principal_from_record}
use nexus_control.Service.Duties.{Administration, withdraws}
use nexus_control.Tests.Fixtures.{ann, principal}

abbrev ann_leads : Principal
ann_leads = principal_from_record (principal ann role_owner)

abbrev request : Administration
request = withdraws ann_leads (text " inv ")
