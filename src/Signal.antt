-- ===== src/Signal.antt =====
-- pkg/apiserver/workflow/signal/cancel.go: how a running task learns that it was cancelled, by a key
-- in Redis. What Redis answers is an argument of the functions, and what they ask of it is a
-- `Command`. Expiry times are left out.
pub mod Reasons
pub mod Protocol
pub mod Registry
pub mod Tests
use kube_min_cli.Base.{
  ℕ, Bool, true, false, not, ◌&&◌, Option, some, none, List, [], ◌∷◌, ◌++◌, Text, text, text_eq,
  is_nil, ◌==◌, if◌then◌else◌,
}
use kube_min_cli.Naming.{Unicode, trim_space}

abbrev pub key_prefix : Text
key_prefix = text "kubemin:workflow:cancel:"

abbrev marker_prefix : Text
marker_prefix = text "cancelled:"

-- `strings.HasPrefix(s, prefix)`, and what stands behind the prefix.
unfoldable pub after_prefix : Text → Text → Option Text
after_prefix [] s = some s
after_prefix (p ∷ ps) [] = none
after_prefix (p ∷ ps) (c ∷ cs) = if p == c then after_prefix ps cs else none

unfoldable pub is_cancelled_token : Text → Bool
unfolding after_prefix
is_cancelled_token val = elim (after_prefix marker_prefix val) [ none ↦ false | some rest ↦ true ]

-- The value starts with "cancelled:", so the text behind its first colon is the rest.
unfoldable pub extract_cancel_reason : Text → Text
unfolding after_prefix
extract_cancel_reason val = elim (after_prefix marker_prefix val) [
  | none ↦ text "cancelled"
  | some rest ↦ if is_nil rest then text "cancelled" else rest
]

unfoldable pub cancel_marker : Unicode → Text → Text
cancel_marker u reason =
    let trimmed = trim_space u reason in
    marker_prefix ++ (if is_nil trimmed then text "cancelled" else trimmed)

-- A reply of Redis to GET: the value, no such key, or an error.
pub data Reply : Type 0 where
  value : Text → Reply
  no_key : Reply
  reply_error : Reply

pub record CancelWatcher : Type 0 where
  pub token : Text
  pub reason : Text
  pub cancelled : Bool

pub data Command : Type 0 where
  set_key delete_key expire_key : Command

pub data Watched : Type 0 where
  watch_error already_running : Watched
  watching : CancelWatcher → Watched

-- `WatchWithClient`: SETNX on the key as it is then, with `none` for an error of the call, and where
-- SETNX sets nothing the reply to the GET behind it.
unfoldable pub watch_with_client : Text → Option (Option Text) → Reply → Watched
unfolding is_cancelled_token extract_cancel_reason
watch_with_client token none existing = watch_error
watch_with_client token (some none) existing =
    watching (record { token = token; reason = []; cancelled = false })
watch_with_client token (some (some v)) reply_error = watch_error
watch_with_client token (some (some v)) no_key = already_running
watch_with_client token (some (some v)) (value existing) =
    if is_cancelled_token existing
    then watching
        (record { token = token; reason = extract_cancel_reason existing; cancelled = true })
    else already_running

-- One tick of `maintain`: the watcher and what is asked of Redis.
unfoldable pub step : CancelWatcher → Reply → CancelWatcher × List Command
unfolding extract_cancel_reason
step w no_key = (record w { cancelled = true }, [])
step w reply_error = (w, [])
step w (value val) =
    if text_eq val w.token
    then (w, expire_key ∷ [])
    else (record w { reason = extract_cancel_reason val; cancelled = true }, [])

-- `Stop` behind its GET: the key is deleted where it held the watcher's own token.
unfoldable pub stop : CancelWatcher → Reply → List Command
stop w (value val) = if text_eq val w.token then delete_key ∷ [] else []
stop w no_key = []
stop w reply_error = []
