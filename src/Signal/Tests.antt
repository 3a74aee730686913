-- ===== src/Signal/Tests.antt =====
-- A task with two jobs that is cancelled.
use kube_min_cli.Base.{
  List, ℕ, Dict, lookup, insert, delete, ◌≡◌, refl, true, false, Option, Text, some, none, [], ◌∷◌,
  text, text_eq, ◌==◌,
}
use kube_min_cli.Naming.{Unicode, trim_space}
use kube_min_cli.Signal.{
  after_prefix, is_cancelled_token, extract_cancel_reason, cancel_marker, CancelWatcher, watching,
  watch_with_client, step, stop,
}
use kube_min_cli.Signal.Protocol.{
  Action, Channel, watches, ticks, reads, deletes, cancels, channel_after, unused, reply_of,
  cancel-reaches,
}
use kube_min_cli.Signal.Registry.{
  removes, change, is_watching, watches_after, registry_remove, is_watching-change,
}

abbrev ascii : Unicode
ascii = record { lower = λ c. c; is_space = λ c. c == 32 }

abbrev first : CancelWatcher
first = record { token = text "aa"; reason = []; cancelled = false }

abbrev second : CancelWatcher
second = record { token = text "bb"; reason = []; cancelled = false }

-- The first job watches, and the second one stops behind the cancellation.
abbrev watched_first : Channel
watched_first = record { key = some (text "aa"); releasing = [] }

abbrev later : List Action
later = reads second ∷ deletes (text "bb") ∷ []

abbrev key_then : Option Text
key_then = (channel_after ascii (cancels (text "stop") ∷ later) watched_first).key

cancel-reaches_example :
    ((step first (reply_of key_then)).0.cancelled ≡ true)
    × ((w' : CancelWatcher) × (watch_with_client (text "cc") (some key_then) (reply_of key_then)
          ≡ watching w')
        × (w'.cancelled ≡ true))
unfolding is_cancelled_token after_prefix
cancel-reaches_example =
    cancel-reaches ascii (text "stop") (text "cc") later watched_first first refl (refl, (tt, tt))
      refl

abbrev refusing_key : Option Text
refusing_key = (channel_after ascii (watches (text "aa") ∷ ticks first ∷ []) (unused ascii)).key

-- The first job learns the reason.
told :
    (step first
      (reply_of (channel_after ascii (cancels (text "stop") ∷ []) watched_first).key)).0.reason
    ≡ text "stop"
unfolding step channel_after cancel_marker extract_cancel_reason after_prefix trim_space text_eq
told = refl

-- A cancellation between the GET and the DEL of the first job's stop is lost.
marker_lost :
    (channel_after ascii
      (reads first ∷ cancels (text "stop") ∷ deletes (text "aa") ∷ [])
      watched_first).key
    ≡ none
unfolding channel_after stop text_eq
marker_lost = refl

abbrev two_watchers : Dict (List ℕ)
two_watchers = (text "task-1", 1 ∷ 2 ∷ []) ∷ []

is_watching-change_example :
    is_watching (text "task-1") 2 (change (removes (text "task-1") 1) two_watchers)
    ≡ watches_after
        (removes (text "task-1") 1)
        (text "task-1")
        2
        (is_watching (text "task-1") 2 two_watchers)
is_watching-change_example =
    is_watching-change (removes (text "task-1") 1) (text "task-1") 2 two_watchers

-- The second watcher is still there.
second_stays :
    is_watching (text "task-1") 2 (change (removes (text "task-1") 1) two_watchers) ≡ true
unfolding change registry_remove lookup insert delete text_eq
second_stays = refl
