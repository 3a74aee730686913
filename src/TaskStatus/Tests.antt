-- ===== src/TaskStatus/Tests.antt =====
-- Rows of two components.
use kube_min_cli.Base.{◌≡◌, refl, true, List, [], ◌∷◌, text, text_eq, lookup, insert, All, ◌==◌}
use kube_min_cli.Config.{completed, failed, running}
use kube_min_cli.Naming.{Unicode, to_lower}
use kube_min_cli.TaskStatus.{
  JobInfo, ComponentTaskStatus, aggregate, add_job, choose_agg_status, severity, first_status,
}
use kube_min_cli.TaskStatus.Aggregate.{rows_of, AtMost, attains, aggregate-AtMost}

abbrev ascii : Unicode
ascii = record { lower = λ c. c; is_space = λ c. c == 32 }

abbrev deployed : JobInfo
deployed = record {
  service_name = text "Web";
  type = text "deploy";
  status = failed;
  error = text "no image";
  start_time = 4;
  end_time = 9;
}

abbrev exposed : JobInfo
exposed = record deployed {
  service_name = text "web";
  status = completed;
  error = [];
  start_time = 2;
}

abbrev stored : JobInfo
stored = record exposed { service_name = text "db"; status = running }

abbrev rows : List JobInfo
rows = exposed ∷ stored ∷ deployed ∷ []

abbrev web : ComponentTaskStatus
web = record {
  name = text "web";
  type = text "deploy";
  status = failed;
  error = text "no image";
  start_time = 2;
  end_time = 9;
}

aggregate-AtMost_example :
    All (λ j. AtMost (first_status j) web) (rows_of ascii (text "web") rows)
    × (attains web (rows_of ascii (text "web") rows) ≡ true)
unfolding aggregate add_job choose_agg_status severity lookup insert text_eq to_lower
aggregate-AtMost_example = aggregate-AtMost ascii (text "web") rows web refl
