-- ===== src/Signal/Protocol.antt =====
-- The key of a task between the watchers of its jobs and whoever cancels the task.
use kube_min_cli.Base.{
  ◌≡◌, ◌≢◌, refl, sym, ◌∙◌, ap, true, false, Option, some, none, List, [], ◌∷◌, Text, text_eq,
  text_eq_iff, member, if◌then◌else◌, All, Bool-cases, inl, inr,
}
use kube_min_cli.Naming.{Unicode}
use kube_min_cli.Signal.{
  is_cancelled_token, cancel_marker, Reply, value, no_key, CancelWatcher, Command, delete_key,
  watching, watch_with_client, step, stop,
}
use kube_min_cli.Signal.Reasons.{cancel_marker-is_token}

-- What happens to the key: a job starts to watch with a token, a watcher ticks, a `Stop` reads the key,
-- a `Stop` that found its own token deletes the key, and the task is cancelled. The GET and the
-- DEL of a `Stop` are calls of their own, between which others come.
pub data Action : Type 0 where
  watches : Text → Action
  ticks : CancelWatcher → Action
  reads : CancelWatcher → Action
  deletes : Text → Action
  cancels : Text → Action

-- The key, and the tokens of the stops that are between their GET and their DEL.
pub record Channel : Type 0 where
  pub key : Option Text
  pub releasing : List Text

abbrev pub reply_of : Option Text → Reply
reply_of none = no_key
reply_of (some v) = value v

-- SETNX
abbrev set_if_absent : Text → Option Text → Option Text
set_if_absent token none = some token
set_if_absent token (some v) = some v

-- A stop whose commands ask for a deletion is about to send it.
abbrev awaits : List Command → Text → List Text → List Text
awaits [] token ts = ts
awaits (delete_key ∷ cs) token ts = token ∷ ts
awaits (c ∷ cs) token ts = awaits cs token ts

abbrev without : Text → List Text → List Text
without t [] = []
without t (x ∷ xs) = if text_eq x t then xs else x ∷ without t xs

token_not_marker : true ≢ false
token_not_marker e = cc

module _ (u : Unicode) where
  unfoldable pub channel_after : List Action → Channel → Channel
  unfolding stop cancel_marker
  channel_after [] c = c
  channel_after (watches token ∷ later) c =
      channel_after later (record { key = set_if_absent token c.key; releasing = c.releasing })
  channel_after (ticks w ∷ later) c = channel_after later c
  channel_after (reads w ∷ later) c =
      channel_after later
        (record { key = c.key; releasing = awaits (stop w (reply_of c.key)) w.token c.releasing })
  channel_after (deletes token ∷ later) c = channel_after later (
      if member token c.releasing
      then record { key = none; releasing = without token c.releasing }
      else c)
  channel_after (cancels reason ∷ later) c =
      channel_after later (record { key = some (cancel_marker u reason); releasing = c.releasing })

  -- A watcher's own token, a UUID, is no marker.
  abbrev pub HasToken : Action → Type 0
  HasToken (ticks w) = is_cancelled_token w.token ≡ false
  HasToken (reads w) = is_cancelled_token w.token ≡ false
  HasToken _ = Unit {0}

  not_own :
      (v token : Text)
      → is_cancelled_token v ≡ true
      → is_cancelled_token token ≡ false
      → text_eq v token ≡ false
  not_own v token m t = elim (Bool-cases (text_eq v token)) [
    | inl same ↦
        absurd
          (token_not_marker (sym m ∙ (ap is_cancelled_token ((text_eq_iff v token).0 same) ∙ t)))
    | inr other ↦ other
  ]

  -- A channel whose key holds a text, and on which no stop is about to delete it.
  abbrev pub holding : Text → Channel
  holding v = record { key = some v; releasing = [] }

  marker_stays :
      (later : List Action) (v : Text)
      → is_cancelled_token v ≡ true
      → All HasToken later
      → (v' : Text) × (channel_after later (holding v) ≡ holding v')
        × (is_cancelled_token v' ≡ true)
  unfolding channel_after
  marker_stays [] v m h = (v, refl, m)
  marker_stays (watches token ∷ later) v m h = marker_stays later v m h.1
  marker_stays (ticks w ∷ later) v m h = marker_stays later v m h.1
  marker_stays (reads w ∷ later) v m h = rw (not_own v w.token m h.0) (marker_stays later v m h.1)
  marker_stays (deletes token ∷ later) v m h = marker_stays later v m h.1
  marker_stays (cancels reason ∷ later) v m h =
      marker_stays later (cancel_marker u reason) (cancel_marker-is_token u reason) h.1

  -- Where a task is cancelled while no stop is between its GET and its DEL, the next tick of any of
  -- its watchers cancels that watcher's job, and a job that starts to watch then is cancelled at
  -- once, whatever ticks, starts, GETs and DELs of stops and further cancellations come between,
  -- as long as the key does not expire and no token is a marker.
  pub cancel-reaches :
      (reason token : Text) (later : List Action) (c : Channel) (w : CancelWatcher)
      → c.releasing ≡ []
      → All HasToken later
      → is_cancelled_token w.token ≡ false
      → let key = (channel_after (cancels reason ∷ later) c).key in
        ((step w (reply_of key)).0.cancelled ≡ true)
        × ((w' : CancelWatcher) × (watch_with_client token (some key) (reply_of key) ≡ watching w')
            × (w'.cancelled ≡ true))
  unfolding channel_after watch_with_client
  cancel-reaches reason token later c w empty h t =
      let (v, kept, m) =
        marker_stays later (cancel_marker u reason) (cancel_marker-is_token u reason) h in
      rw (empty, kept) (unfold step in rw (not_own v w.token m t) refl, rw m (_, refl, refl))

  -- An action that leaves the key of the watcher with token `a` alone.
  abbrev pub Leaves : Text → Action → Type 0
  Leaves a (reads w) = text_eq a w.token ≡ false
  Leaves a (cancels reason) = ⊥
  Leaves a _ = Unit {0}

  abbrev pub unused : Channel
  unused = record { key = none; releasing = [] }
