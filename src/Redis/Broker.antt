-- ===== src/Redis/Broker.antt =====
-- src/redis/broker.ts: the message broker over Redis. `lpushed` lists what was pushed, with the
-- queue of each.
use node_celery_ts.Prelude.{Option, none, some, List, [], ◌∷◌, ◌++◌}
use node_celery_ts.Text.{Text, codes}
use node_celery_ts.Objects.{text}
use node_celery_ts.Messages.{TaskMessage}
use node_celery_ts.Redis.Options.{RedisOptions, Client, create_client, default_redis_options}

pub data ConnectionState : Type 0 where
  connected quitting disconnected : ConnectionState

pub record Broker (Wire : Type 0) : Type 0 where
  pub options : RedisOptions
  pub connection : Client
  pub state : ConnectionState
  pub lpushed : List (Text × Wire)

abbrev or_default : Option RedisOptions → RedisOptions
unfolding default_redis_options
or_default none = default_redis_options
or_default (some o) = o

module _ {Wire : Type 0} where
  unfoldable pub new_broker : Option RedisOptions → Broker Wire
  unfolding or_default create_client
  new_broker options =
      let o = or_default options in
      record {
        options = o;
        connection = create_client o (some ((codes "keyPrefix", text []) ∷ []));
        state = connected;
        lpushed = [];
      }

  unfoldable pub disconnect : Broker Wire → Broker Wire
  disconnect b = record b { state = disconnected }

  -- Up to the `await` of QUIT, and behind it.
  unfoldable pub end : Broker Wire → Broker Wire
  end b = record b { state = quitting }

  unfoldable pub end_quit : Broker Wire → Broker Wire
  end_quit b = record b { state = disconnected }

  unfoldable pub publish : (TaskMessage Wire → Wire) → TaskMessage Wire → Broker Wire → Broker Wire
  publish stringify message b = record b {
    lpushed = b.lpushed ++ (message.properties.queue, stringify message) ∷ [];
  }
