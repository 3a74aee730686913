-- ===== src/Builder/Tests.antt =====
-- A web service with a port and a database, deployed step by step.
use kube_min_cli.Base.{Bool, true, false, some, none, List, [], ◌∷◌, text, Dict, All, ◌==◌}
use kube_min_cli.Config.{waiting, server_job, store_job, step_by_step}
use kube_min_cli.Model.{WorkflowQueue, WorkflowStep, unlabelled, labelled}
use kube_min_cli.Naming.{Unicode}
use kube_min_cli.Builder.Share.{Component}
use kube_min_cli.Builder.Objects.{pvc_object}
use kube_min_cli.Builder.Component.{Env}
use kube_min_cli.Builder.Steps.{generate_job_tasks}
use kube_min_cli.Builder.Executions.{IsExecution, generate_job_tasks-IsExecution}

abbrev ascii : Unicode
ascii = record { lower = λ c. c; is_space = λ c. c == 32 }

-- The properties of a component: whether it has ports.
abbrev cluster : Env
cluster = record {
  Properties = Bool;
  unicode = ascii;
  has_ports = λ ports. ports;
  generate_web_service = λ c. some (record { service = labelled []; additional_objects = [] });
  generate_store_service = λ c. some (record {
    service = labelled [];
    additional_objects =
        record { kind = pvc_object; name = text "data"; namespace = []; labels = [] } ∷ [];
  });
  generate_config_map = λ c. unlabelled;
  generate_secret = λ c. unlabelled;
  generate_service = λ c. labelled [];
}

abbrev web : Component Bool
web = record {
  app_id = text "app-1";
  name = text "web";
  namespace = [];
  kind = server_job;
  properties = true;
  share = none;
}

abbrev db : Component Bool
db = record web {
  name = text "db";
  kind = store_job;
  properties = false;
  share = some (text "ignore");
}

abbrev task : WorkflowQueue
task = record {
  task_id = text "task-1";
  project_id = [];
  workflow_name = text "wf";
  app_id = text "app-1";
  workflow_id = text "wf-1";
  status = waiting;
  task_revoker = [];
  create_time = 7;
  update_time = 7;
}

abbrev both : Dict (Component Bool)
both = (text "web", web) ∷ (text "db", db) ∷ []

abbrev one_step : List WorkflowStep
one_step =
    record {
      name = text "deploy";
      mode = step_by_step;
      properties = (text "web" ∷ text "db" ∷ []) ∷ [];
      sub_steps = [];
    }
    ∷ []

generate_job_tasks-IsExecution_example :
    All
      (IsExecution task)
      (generate_job_tasks cluster (some one_step) (some (web ∷ db ∷ [])) task 60)
generate_job_tasks-IsExecution_example =
    generate_job_tasks-IsExecution cluster task 60 (some one_step) (some (web ∷ db ∷ []))
