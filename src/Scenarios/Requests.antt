-- ===== src/Scenarios/Requests.antt =====
-- Requests to the application of app.ts.
use cloudops_sentinel.Base.{String, ◌≡◌, refl, ◌⊎◌, true, false, none, some}
use cloudops_sentinel.Errors.Handler.{error_handler}
use cloudops_sentinel.Routes.{post_approve}
use cloudops_sentinel.App.{Incoming, serve, correlation_id_of}
use cloudops_sentinel.App.Served.{IsPermitted, Discreet, serve_safe}
use cloudops_sentinel.Scenarios.Access.{knows_ann}
use cloudops_sentinel.Scenarios.Workflow.{no_provider, rethrown}
use cloudops_sentinel.Scenarios.Sample.{db, mongo, config}

abbrev same_text : String → String
same_text s = s

abbrev approval : Incoming
approval = record {
  headers = record {
    authorization = some "Bearer good";
    x_correlation_id = some "";
    x_request_id = some "from-a-proxy";
  };
  body_accepted = true;
  rate_limited = false;
  request = post_approve "p1" "t2" "other" 15;
}

-- An empty header is passed over.
approval_id : correlation_id_of same_text approval.headers "made" ≡ "from-a-proxy"
unfolding correlation_id_of
approval_id = refl

-- A body that cannot be read is answered with a 500, and without a correlation id.
unread_body :
    (serve mongo no_provider config same_text rethrown knows_ann same_text
      (record approval { body_accepted = false })
      "made"
      db).1
    ≡ record {
      status = 500;
      error = some (record {
        code = "INTERNAL_ERROR";
        message = "Internal server error";
        details = none;
        correlation_id = none;
      });
      correlation_id = none;
    }
unfolding serve error_handler
unread_body = refl

serve_safe_example :
    let (d', answer) =
      serve mongo no_provider config same_text rethrown knows_ann same_text approval "made" db in
    ((d' ≡ db)
      ⊎ IsPermitted mongo no_provider config same_text rethrown knows_ann same_text approval.headers
          approval.request)
    × ((answer.correlation_id ≡ some (correlation_id_of same_text approval.headers "made"))
        ⊎ (approval.body_accepted ≡ false))
    × Discreet answer
serve_safe_example =
    serve_safe mongo no_provider config same_text rethrown knows_ann same_text approval "made" db
