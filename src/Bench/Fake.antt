-- ===== src/Bench/Fake.antt =====
-- FakeClient of rabbit-benchmark/benchmark/clients/fake_client.py, and the drain by single gets of
-- BenchmarkClient in rabbit-benchmark/benchmark/clients/base.py. A queue that is not in the dictionary
-- is an empty one, as a defaultdict gives.
pub mod Drain
use rabbit_speed_test.Base.{
  ℕ, zero, suc, Bool, true, false, Option, none, some, List, [], ◌∷◌, ◌++◌, length, Text, nat_eq,
  list_eq, ◌==◌, if◌then◌else◌,
}

abbrev pub Queues : Type 0
Queues = Text → List Text

abbrev pub with_queue : Text → List Text → Queues → Queues
with_queue name bodies q = λ n. if name == n then bodies else q n

unfoldable pub purge_queue : Text → Queues → Queues
purge_queue name q = with_queue name [] q

unfoldable pub delete_queue : Text → Queues → Queues
delete_queue name q = with_queue name [] q

unfoldable pub publish : Text → Text → Queues → Queues
publish routing_key body q = with_queue routing_key (q routing_key ++ body ∷ []) q

unfoldable pub publish_many : Text → List Text → Queues → Queues
publish_many routing_key bodies q = with_queue routing_key (q routing_key ++ bodies) q

unfoldable pub pop_left : Text → List Text → Queues → Option Text × Queues
pop_left name [] q = (none, q)
pop_left name (body ∷ rest) q = (some body, with_queue name rest q)

unfoldable pub consume_one : Text → Queues → Option Text × Queues
unfolding pop_left
consume_one name q = pop_left name (q name) q

-- The loop of consume_many: how many more it takes, and what it leaves.
unfoldable pub take_many : ℕ → List Text → ℕ × List Text
take_many zero bodies = (zero, bodies)
take_many (suc more) [] = (zero, [])
take_many (suc more) (body ∷ rest) = let (n, left) = take_many more rest in (suc n, left)

unfoldable pub consume_many : Text → ℕ → Queues → ℕ × Queues
unfolding take_many
consume_many name count q = let (n, left) = take_many count (q name) in (n, with_queue name left q)

-- consume_many_get of the base class, for any consume_one; it makes at most `count` turns.
module _ {S : Type 0} (one : Text → S → Option Text × S) where
  -- An empty queue ends the drain; else one more was consumed.
  abbrev pub counted : Option Text → S → ℕ × S → ℕ × S
  counted none s later = (zero, s)
  counted (some body) s (n, s') = (suc n, s')

  unfoldable pub consume_many_get : Text → ℕ → S → ℕ × S
  consume_many_get name zero s = (zero, s)
  consume_many_get name (suc more) s =
      let (body, s') = one name s in counted body s' (consume_many_get name more s')

unfoldable pub queue_depth : Text → Queues → ℕ
queue_depth name q = length (q name)
