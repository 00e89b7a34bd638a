-- ===== src/Rabbit/Watch.antt =====
-- Consumers of rabbit-client-python/src/hs_rabbit_client/client.py once they run: the callback of a
-- message, the watchdog, and the handle.
pub mod Cancels
pub mod Recovery
use rabbit_speed_test.Base.{
  ℕ, zero, suc, not, Bool, true, false, Option, none, some, List, [], ◌∷◌, ◌++◌, contains, keep,
  Text, list_eq, nat_eq, option_eq, ◌==◌, if◌then◌else◌, ltb,
}
use rabbit_speed_test.Rabbit.Client.{
  Client, Request, cancel_tag, Reply, accepted, refused, Result, ok, not_connected, broken, Action,
  ◌>>◌, ◌>>=◌, then_do, establish_consumer,
}

-- How a handler ends: it returns, it raises an Exception, or a BaseException unwinds it.
pub data Handled : Type 0 where
  returns fails unwinds : Handled

-- What the callback tells the broker about the delivery.
pub data Answer : Type 0 where
  ack nack_requeue : Answer

-- on_message, after the handler
unfoldable pub on_message : Handled → Option Answer
on_message returns = some ack
on_message fails = some nack_requeue
on_message unwinds = none

-- What the watchdog sees at one poll: the connection is unusable, or the channel under the consume
-- channel, if there is one, with the tags of its consumers.
pub data Poll : Type 0 where
  disconnected : Poll
  connected : Option (ℕ × List Text) → Poll

pub record Watchdog : Type 0 where
  pub underlay : Option ℕ
  pub misses : ℕ

-- One turn of the loop of _watch_consumer: `none` raises ConsumerCancelledError.
unfoldable pub missed : Watchdog → Option Watchdog
missed w = if ltb (suc w.misses) 2 then some (record w { misses = suc w.misses }) else none

unfoldable pub watch_turn : Text → Watchdog → Poll → Option Watchdog
unfolding missed
watch_turn tag w disconnected = some (record w { misses = zero })
watch_turn tag w (connected none) = some (record w { misses = zero })
watch_turn tag w (connected (some (channel, consumers))) =
    if some channel == w.underlay
    then (if contains tag consumers then some (record w { misses = zero }) else missed w)
    else some (record { underlay = some channel; misses = zero })

unfoldable pub watch : Text → Option Watchdog → List Poll → Option Watchdog
unfolding watch_turn
watch tag none polls = none
watch tag (some w) [] = some w
watch tag (some w) (p ∷ polls) = watch tag (watch_turn tag w p) polls

abbrev pub forget : Text → Client → Client
forget name c = record c { con_queues = keep (λ n. not (name == n)) c.con_queues }

-- `finally` of _watch_consumer: the cancel at the broker, and the purge of the cache when it fails.
unfoldable pub cancel_consumer : (List Request → Request → Reply) → Text → Text → Client → Client
cancel_consumer reply name tag c =
    let c' = record c { requests = c.requests ++ cancel_tag name tag ∷ [] } in
    elim (reply c.requests (cancel_tag name tag)) [ accepted n ↦ c' | refused e ↦ forget name c' ]

-- One round of _consume_forever after the watchdog has raised: the purge, the cancel, the backoff,
-- and the new consumer.
unfoldable pub recover : (List Request → Request → Reply) → Text → Text → Option ℕ → Action ℕ
unfolding cancel_consumer establish_consumer
recover reply name tag prefetch c =
    establish_consumer reply name prefetch (cancel_consumer reply name tag (forget name c))

-- How the task of a consumer is done.
pub data TaskEnd : Type 0 where
  task_cancelled task_returned : TaskEnd
  task_failed : ℕ → TaskEnd

pub record Handle : Type 0 where
  pub cancel_requested : Bool
  -- how many times the task was asked to cancel
  pub cancels : ℕ

-- cancel(), up to its wait
unfoldable pub cancel : Handle → Handle
cancel h =
    if h.cancel_requested then h else record { cancel_requested = true; cancels = suc h.cancels }

-- wait(), once the task is done
unfoldable pub wait : TaskEnd → Result ℕ
wait task_cancelled = ok zero
wait task_returned = ok zero
wait (task_failed e) = broken e

-- One side of is_connected: no connection, or whether it is closed and whether its `connected` event
-- is set.
abbrev pub is_live : Option (Bool × Bool) → Bool
is_live none = false
is_live (some (closed, connected_set)) = if closed then false else connected_set

unfoldable pub is_connected : Option (Bool × Bool) → Option (Bool × Bool) → Bool
is_connected p k = if is_live p then is_live k else false
