-- ===== src/Lib.antt =====
-- Verification of node-celery-ts, a Celery client in TypeScript.
--
-- The client makes tasks; a task packs its arguments, builds a message and publishes it on one of
-- the brokers that the client's failover strategy chooses; the reply comes from a result backend.
-- Backends and brokers keep their connections in a resource pool, whose callers wait in a promise
-- queue, which stands on a linked list; a backend keeps the promises of the results that somebody
-- waits for in a promise map.
--
-- Where each part is modelled:
--   src/containers/list.ts           LinkedList: List on a store of nodes, with its references;
--                                    `push`, `unshift`, `pop`, `shift`, `iterate`
--   src/containers/promise_queue.ts  PromiseQueue: PromiseQueue over the interface of Deque, which
--                                    LinkedList implements; `push`, `settle_one`, `resolve_all`
--   src/containers/resource_pool.ts  ResourcePool: ResourcePool; an asynchronous method is split at
--                                    its `await` (`start_get` and `deliver`, `start_destroy_all` and
--                                    `finish_destroy_all`), and Steps has the turns of the event loop
--                                    as a relation
--   src/containers/promise_map.ts    PromiseMap: PromiseMap with the states of the promises, the
--                                    timers and the values that are awaited; JsMap is its `Map`
--   src/utility.ts, src/errors.ts    Utility, Text and Result: parseInteger, parseBoolean,
--                                    toCamelCase, filterMapEvent; Utility/Timeouts: promisifyEvent,
--                                    createTimeoutPromise
--   src/query_parser.ts              QueryParser: the descriptors, and parse on properties in order
--   src/uri.ts                       Uri: parseUri from what urijs makes of a string, getScheme
--   src/messages.ts                  Messages: the data that goes over the wire
--   src/packer                       Packer: serializers, compressors, encoders and their chain
--   src/task.ts                      Task: the message; Task/Publish: applyAsync with its failover;
--                                    Task/Transport: the message behind either broker;
--                                    Task/Asking: the get of a Result over its backend;
--                                    Task/Answer: the way from a call to the get of its Result
--   src/client.ts                    Client: createTask and the round-robin strategy; Client/Family:
--                                    the tasks that share it; Client/Closing: disconnect and end
--   src/amqp/uri.ts, options.ts      Amqp/Uri: parseAmqpUri
--   src/amqp/broker.ts               Amqp/Broker: the commands of publish on a channel and how it
--                                    settles; Amqp/Channels has the commands and their answers
--   src/amqp/backend.ts              Amqp/Backend: RpcBackend over the promise map and the pool
--   src/redis/uri                    Redis/Uri: the URIs over TCP, of a socket and of sentinels
--   src/redis/options.ts             Redis/Options: the options of a client, and their URI; options
--     and basic_options.ts           are the property lists of Objects, whose types are the
--                                    lists of Objects/Interfaces
--   src/redis/backend.ts             Redis/Backend: RedisBackend over the promise map and the pool
--   src/redis/broker.ts              Redis/Broker: LPUSH of a message
--                                    Sessions has what both backends and AmqpBroker keep in any
--                                    history, whose turns are the relation Step of their History
--   src/null_backend.ts              NullBackend
--   src/result.ts                    Task/Results: the result of a task
--   src/factories.ts                 Factories: which backend or broker a URI makes
-- Prelude has what they share, and Tests has runs at concrete inputs. The names are those of the
-- source in snake case; a method is a function whose last argument and last result is the object.
--
-- Conventions. An exception is `none`, an error of Result, or a constructor; a reference that is
-- not allocated is `none` too, and is shown not to occur. A promise is a number, and its state
-- stands in a table. Numbers are natural numbers, which agree with the source's doubles below 2 ^
-- 53; what parseInt reads is rounded to a double. A string is a list of UTF-16 code units. Loops
-- that the source bounds by nothing but their condition take fuel: `invoke_while` (a round more
-- than there are promises is enough), `iterate_from` (the number of elements is enough), and
-- `try_publish`, which may run for ever if every broker throws (one more than the number of brokers
-- is enough if one of them does not).
--
-- The two functions of urijs that are called are the record `UriJs` of Uri. Zlib, Buffer, JSON and
-- js-yaml are the record `Libraries` of Packer, and what is relied on of them is the record
-- `Lawful` of Packer/Laws. The factory and the destructor of a resource pool, the functions that
-- use its resources, the brokers, the host and the identifiers are parameters.
--
-- ioredis and amqplib are the commands that are sent to them, in order, and their replies are
-- arguments: an asynchronous method is split at its awaits, and what it does behind one takes the
-- reply. The loop that writes to a channel runs along the answers that the channel gives to its
-- writes, and is pending at their end. decodeURIComponent, JSON on result messages and what
-- RabbitMQ delivers for a write are parameters of Amqp/Uri, Redis/Backend and Amqp/Backend.
--
-- Not modelled: a connection that fails or closes by itself; mutation of a list between two steps
-- of its iterator; the interfaces, but for those of the options that URIs are parsed to; and the
-- files that only pass names on.
pub mod Prelude
pub mod LinkedList
pub mod Deque
pub mod PromiseQueue
pub mod ResourcePool
pub mod JsMap
pub mod PromiseMap
pub mod Text
pub mod Result
pub mod Utility
pub mod Messages
pub mod NullBackend
pub mod Packer
pub mod Sessions
pub mod Task
pub mod Client
pub mod QueryParser
pub mod Uri
pub mod Objects
pub mod Amqp
pub mod Redis
pub mod Factories
pub mod Tests
