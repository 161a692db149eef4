-- ===== src/Scenarios/Access.antt =====
-- Tokens, roles and the answers to errors.
use cloudops_sentinel.Base.{String, some, ◌==◌, if◌then◌else◌}
use cloudops_sentinel.Types.{admin, viewer}
use cloudops_sentinel.Auth.{Verified, throws, an_object, AuthClaims, verify_access_token}
use cloudops_sentinel.Auth.Guards.{Checked, verify_access_token-Checked}

-- A token library that knows one token.
abbrev pub knows_ann : String → String → Verified
knows_ann jwt secret =
    if jwt == "good"
    then an_object (record {
      sub = some "u1";
      email = some "ann@x.io";
      role = some admin;
      workspace_id = some "ws";
    })
    else throws

abbrev same_text : String → String
same_text s = s

abbrev ann : AuthClaims
ann = record { sub = "u1"; email = "ann@x.io"; role = viewer; workspace_id = "ws" }

verify_access_token-Checked_example :
    Checked (knows_ann "good" "s") (verify_access_token knows_ann "good" "s")
verify_access_token-Checked_example = verify_access_token-Checked knows_ann "good" "s"
