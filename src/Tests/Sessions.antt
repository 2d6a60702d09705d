-- ===== src/Tests/Sessions.antt =====
-- The result backends of src/redis and src/amqp in short histories.
use node_celery_ts.Prelude.{ℕ, refl, none, some, arith}
use node_celery_ts.Text.{codes}
use node_celery_ts.Text.Keys.{text_keys}
use node_celery_ts.Deque.{Deque, list_deque}
use node_celery_ts.Messages.{ResultMessage}
use node_celery_ts.JsMap
use node_celery_ts.PromiseMap
use node_celery_ts.PromiseMap.{plain}
use node_celery_ts.Amqp.Backend as Rpc
use node_celery_ts.Amqp.Backend.History as Turns
use node_celery_ts.Amqp.Backend.Clients as Channels
use node_celery_ts.Amqp.Backend.Clients.{reachable_backend-IsOrderly}
use node_celery_ts.ResourcePool
use node_celery_ts.ResourcePool.{fulfilled}
use node_celery_ts.Sessions.{IsOrderly}
use node_celery_ts.Redis.Backend
use node_celery_ts.Redis.Backend.{
  get, get_connected, get_replied, listen, released, subscriber_connected, put, put_connected, end,
  end_unsubscribed, end_drained,
}
use node_celery_ts.Redis.Backend.History
use node_celery_ts.Redis.Backend.History.{
  subscribes, gets, creates, gets_on, hears_reply, hears, comes_back, releases, ends, unsubscribes,
  drains, here, next,
}
use node_celery_ts.Redis.Backend.Clients
use node_celery_ts.Redis.Backend.Clients.{reachable-IsOrderly}

abbrev queue : Deque ℕ
queue = list_deque ℕ

abbrev RedisBackend : Type 0
RedisBackend = Backend.Backend (ResultMessage ℕ) ℕ queue

abbrev fresh : RedisBackend
unfolding Backend.new_backend
fresh = Backend.new_backend none

-- A client comes and subscribes, another one asks for a result that is not there, and the backend
-- ends.
abbrev created_one : RedisBackend
created_one = record fresh { pool = ResourcePool.created ℕ queue 1 fresh.pool }

abbrev subscribed : RedisBackend
subscribed = subscriber_connected 1 created_one

abbrev asked : RedisBackend
asked = (get (codes "a") subscribed).1

abbrev created_two : RedisBackend
created_two = record asked { pool = ResourcePool.created ℕ queue 2 asked.pool }

abbrev asking : RedisBackend
asking = get_connected 2 (codes "a") created_two

abbrev answered : RedisBackend
answered = (get_replied {V = ℕ} (λ m. m) (λ m. some m) (codes "a") none asking).1

abbrev returned : RedisBackend
returned = (released {U = ℕ} (fulfilled 5) 2 answered).1

abbrev ended : RedisBackend
ended = end 1 returned

abbrev Reaches : RedisBackend → Type 1
Reaches b = History.Reach {V = ℕ} (λ m. m) (λ m. some m) fresh b

subscribed-Reach : Reaches subscribed
unfolding Backend.new_backend ResourcePool.start_get ResourcePool.new_world ResourcePool.created
subscribed-Reach = next (next here (creates 1 (omega arith) refl)) (subscribes 1 refl)

ended-Reach : Reaches ended
unfolding get listen subscriber_connected get_connected get_replied released Backend.new_backend
    ResourcePool.start_get ResourcePool.new_world ResourcePool.created ResourcePool.deliver
    PromiseMap.has JsMap.has PromiseMap.new_map
ended-Reach =
    next
      (next
        (next
          (next (next (next subscribed-Reach (gets (codes "a"))) (creates 2 (omega arith) refl))
            (gets_on 2 (codes "a") refl))
          (hears_reply (codes "a") none))
        (releases (fulfilled 5) 2))
      (ends 1 refl)

reachable-IsOrderly_example : IsOrderly 2 (Clients.session ended)
unfolding Backend.new_backend fresh
reachable-IsOrderly_example =
    reachable-IsOrderly {V = ℕ} (λ m. m) (λ m. some m) none ended ended-Reach

abbrev RpcBackend : Type 0
RpcBackend = Rpc.Backend (ResultMessage ℕ) queue

abbrev codec : Rpc.Codec ℕ (ResultMessage ℕ)
codec = record { stringify = λ m. m; parse = λ m. some m }

abbrev fresh_rpc : RpcBackend
unfolding Rpc.new_backend
fresh_rpc = Rpc.new_backend (codes "q") none

abbrev created_rpc : RpcBackend
created_rpc = record fresh_rpc {
  channels = ResourcePool.created Rpc.Failure queue 1 fresh_rpc.channels;
}

abbrev consuming : RpcBackend
consuming = Rpc.create_consumer 1 (Rpc.consumer_connected 1 created_rpc)

abbrev waiting : RpcBackend
waiting = (Rpc.get (codes "a") consuming).1

-- RabbitMQ cancels the consumer, and the backend ends.
abbrev ended_rpc : RpcBackend
ended_rpc = Rpc.end 1 (codes "t") (Rpc.on_message none waiting)

ended_rpc-Reach : Turns.Reach codec fresh_rpc ended_rpc
unfolding Rpc.new_backend ResourcePool.start_get ResourcePool.new_world ResourcePool.created
    Rpc.consumer_connected Rpc.create_consumer Rpc.get Rpc.on_message
ended_rpc-Reach =
    Turns.next
      (Turns.next
        (Turns.next
          (Turns.next
            (Turns.next (Turns.next Turns.here (Turns.creates 1 (omega arith) refl))
              (Turns.consumes 1 refl))
            (Turns.creates_consumer 1 refl))
          (Turns.gets (codes "a")))
        (Turns.hears none))
      (Turns.ends 1 (codes "t") refl)

reachable_backend-IsOrderly_example : IsOrderly 2 (Channels.session ended_rpc)
unfolding Rpc.new_backend fresh_rpc
reachable_backend-IsOrderly_example =
    reachable_backend-IsOrderly codec (codes "q") none ended_rpc ended_rpc-Reach
