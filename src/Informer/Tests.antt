-- ===== src/Informer/Tests.antt =====
-- Trials of the waiters, and the witnesses of their properties.
use kube_min_cli.Base.{
  ℕ, ◌≡◌, refl, List, [], ◌∷◌, some, Text, text, text_eq, lookup, insert, delete,
}
use kube_min_cli.Informer.{
  Object, deployment, build_key, object_key, set_entry, begin_wait, end_wait, blocks,
  receives_ready, receive, on_update, updates, deletes, handle,
}
use kube_min_cli.Informer.Waits.{Action, event, begins, ends, act, act_all}
use kube_min_cli.Informer.Verdict.{verdict, act_all-verdict, no_waits, no_waits-IsSound}

abbrev atoi : Text → ℕ
atoi t = 0

abbrev web : ℕ → Object
web n = record {
  resource_type = deployment;
  namespace = text "shop";
  name = text "web";
  labels = [];
  spec_replicas = some 2;
  ready_replicas = n;
}

abbrev web_key : Text
web_key = object_key (web 0)

abbrev rollout : List (Action atoi)
rollout =
    event (updates (web 1))
    ∷ begins (text "Deployment/shop/db")
    ∷ event (updates (web 2))
    ∷ ends (text "Deployment/shop/db")
    ∷ event (deletes (web 2))
    ∷ []

act_all-verdict_example :
    receive ((act_all atoi rollout (begin_wait web_key no_waits)).entries 0) ≡ receives_ready
unfolding verdict build_key text_eq
act_all-verdict_example = act_all-verdict atoi web_key no_waits rollout no_waits-IsSound refl

-- Two goroutines wait for one resource. The first gives up, and removes the entry of the second.
abbrev shared : List (Action atoi)
shared = begins web_key ∷ begins web_key ∷ ends web_key ∷ event (updates (web 2)) ∷ []

second_wait_blocks : receive ((act_all atoi shared no_waits).entries 1) ≡ blocks
unfolding act_all act handle on_update set_entry begin_wait end_wait receive build_key text_eq
    lookup insert delete
second_wait_blocks = refl
