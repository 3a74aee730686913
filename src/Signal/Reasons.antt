-- ===== src/Signal/Reasons.antt =====
-- The marker of a cancellation and the reason in it.
use kube_min_cli.Base.{◌≡◌, refl, true, [], ◌∷◌, Text, text, is_nil, if◌then◌else◌}
use kube_min_cli.Naming.{Unicode, trim_space}
use kube_min_cli.Signal.{after_prefix, is_cancelled_token, extract_cancel_reason, cancel_marker}

pub cancel_marker-is_token :
    (u : Unicode) (reason : Text) → is_cancelled_token (cancel_marker u reason) ≡ true
unfolding is_cancelled_token cancel_marker after_prefix
cancel_marker-is_token u reason = refl

-- The reason of a marker whose trimmed reason is `t`.
marked : Text → Text
marked t = if is_nil t then text "cancelled" else t

marked_again : (t : Text) → (if is_nil (marked t) then text "cancelled" else marked t) ≡ marked t
unfolding marked
marked_again [] = refl
marked_again (c ∷ cs) = refl

-- The reason that is read from a marker is the one that was put in, without the space around it,
-- or "cancelled" where nothing is left.
pub extract-cancel_marker :
    (u : Unicode) (reason : Text)
    → extract_cancel_reason (cancel_marker u reason)
      ≡ (if is_nil (trim_space u reason) then text "cancelled" else trim_space u reason)
unfolding extract_cancel_reason cancel_marker after_prefix marked
extract-cancel_marker u reason = marked_again (trim_space u reason)
