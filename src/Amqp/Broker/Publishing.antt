-- ===== src/Amqp/Broker/Publishing.antt =====
-- What a message costs a channel, by src/amqp/broker.ts.
use node_celery_ts.Prelude.{
  ◌≡◌, refl, sym, ap, ◌∙◌, Bool, true, false, Option, none, some, List, [], ◌∷◌, ◌++◌,
  if◌then◌else◌, ℕ, suc, zero, map, append-nil,
}
use node_celery_ts.Text.{Text, codes, text_eq}
use node_celery_ts.Messages.{TaskMessage, ContentEncodingMime}
use node_celery_ts.Deque.{Deque}
use node_celery_ts.ResourcePool.{Resource, Settled, fulfilled, rejected_with, returns, deliver}
use node_celery_ts.ResourcePool.Set
use node_celery_ts.ResourcePool.Invariant.{Inv}
use node_celery_ts.ResourcePool.Steps.{Reach}
use node_celery_ts.ResourcePool.Counting.{has-add}
use node_celery_ts.ResourcePool.Service.{use_resource_returns}
use node_celery_ts.Amqp.Channels.{
  Answers, Command, assert_queue, assert_exchange, check_queue, publish, write_until, after_write,
}
use node_celery_ts.Amqp.Broker.{
  Broker, flushed, get_body, get_publish_options, first_error, loop_settled, assert, do_publish,
  and_then, publish_on, used, publish_connected,
}

abbrev pub repeat : {A : Type 0} → ℕ → A → List A
repeat zero a = []
repeat (suc n) a = a ∷ repeat n a

pub write_until-repeat :
    {C : Type 0} (write : C) (k : ℕ) (later : List Bool)
    → write_until write (repeat k false ++ true ∷ later) ≡ (true, repeat (suc k) write)
unfolding write_until
write_until-repeat write zero later = refl
write_until-repeat write (suc k) later =
    ap (after_write write false) (write_until-repeat write k later)

-- How a promise settles by an error that may be there, and what is written before.
abbrev pub settled_by : {E : Type 0} → Option E → Settled Text E
settled_by none = fulfilled flushed
settled_by (some e) = rejected_with e

abbrev pub unless_refused : {C E : Type 0} → Option E → List C → List C
unless_refused none writes = writes
unless_refused (some e) writes = []

abbrev pub exchange : {Wire : Type 0} → TaskMessage Wire → Text
exchange message = message.properties.delivery_info.exchange

abbrev pub routing_key : {Wire : Type 0} → TaskMessage Wire → Text
routing_key message = message.properties.delivery_info.routing_key

-- The error of what the message has declared or checked.
abbrev pub refusal : {Wire E : Type 0} → TaskMessage Wire → Answers E → Option E
refusal message answers =
    if message.properties.assert_queue
    then (if text_eq (exchange message) []
        then answers.queue_error
        else first_error answers.queue_error answers.exchange_error)
    else answers.check_error

abbrev pub requests : {Wire Buffer : Type 0} → TaskMessage Wire → List (Command Buffer)
requests message =
    if message.properties.assert_queue
    then (if text_eq (exchange message) []
        then assert_queue (routing_key message) none ∷ []
        else assert_queue (routing_key message) none
          ∷ assert_exchange (exchange message) (codes "direct")
          ∷ [])
    else check_queue (routing_key message) ∷ []

abbrev pub write :
    {Wire Buffer : Type 0}
    → (Wire → ContentEncodingMime → Buffer)
    → TaskMessage Wire
    → Command Buffer
write from message =
    publish (exchange message) (routing_key message) (get_body from message)
      (get_publish_options message)

module _ {Wire Buffer E : Type 0} (from : Wire → ContentEncodingMime → Buffer)
    (message : TaskMessage Wire) (answers : Answers E) (k : ℕ) (later : List Bool)
    (h : answers.writes ≡ repeat k false ++ true ∷ later) where
  abbrev written : Option (Settled Text E) × List (Command Buffer)
  written =
      do_publish (exchange message) (routing_key message) (get_body from message)
        (get_publish_options message) answers

  finish :
      (e : Option E) (cs : List (Command Buffer))
      → and_then (e, cs) written
        ≡ (some (settled_by e), cs ++ unless_refused e (repeat (suc k) (write from message)))
  unfolding do_publish
  finish none cs =
      ap (λ t. and_then (none, cs) (loop_settled t.0, t.1))
        (ap (write_until (write from message)) h ∙ write_until-repeat (write from message) k later)
  finish (some e) cs = ap (λ l. (some (rejected_with e), l)) (sym (append-nil cs))

  branches :
      (declares default : Bool)
      → (if declares
          then and_then
              (if default
                then (answers.queue_error, assert_queue (routing_key message) none ∷ [])
                else (
                  first_error answers.queue_error answers.exchange_error,
                  assert_queue (routing_key message) none
                      ∷ assert_exchange (exchange message) (codes "direct")
                      ∷ [],
                ))
              written
          else and_then (answers.check_error, check_queue (routing_key message) ∷ []) written)
        ≡ (let e =
              if declares
              then (if default
                  then answers.queue_error
                  else first_error answers.queue_error answers.exchange_error)
              else answers.check_error in
            (
              some (settled_by e),
              (if declares
                    then (if default
                        then assert_queue (routing_key message) none ∷ []
                        else assert_queue (routing_key message) none
                          ∷ assert_exchange (exchange message) (codes "direct")
                          ∷ [])
                    else check_queue (routing_key message) ∷ [])
                  ++ unless_refused e (repeat (suc k) (write from message)),
            ))
  branches true true = finish _ _
  branches true false = finish _ _
  branches false default = finish _ _

  pub publish_on-settled_by : publish_on from message answers ≡ (
    some (settled_by (refusal message answers)),
    requests message
        ++ unless_refused (refusal message answers) (repeat (suc k) (write from message)),
  )
  unfolding publish_on assert
  publish_on-settled_by = branches message.properties.assert_queue (text_eq (exchange message) [])

-- In a pool with its invariant, and on a channel that is on its way to the caller and whose writes
-- return false any number of times and then true, publish settles: with "flushed to write buffer"
-- when no request is rejected, and then the message was written once for every full buffer and once
-- more; else with the error of the request, and then it was not written. Before that the queue is
-- checked, or it is asserted and the exchange too, unless that is the default one. Either way the
-- channel is given back, and the invariant of the pool holds.
pub publish_connected-settled_by :
    {Wire Buffer E : Type 0} (D : Deque ℕ) (from : Wire → ContentEncodingMime → Buffer)
    (message : TaskMessage Wire) (answers : Answers E) (k : ℕ) (later : List Bool) (r : Resource)
    (b : Broker Buffer E D)
    → answers.writes ≡ repeat k false ++ true ∷ later
    → Inv D b.channels
    → Set.has r b.channels.granted ≡ true
    → let e = refusal message answers in
      (b' : Broker Buffer E D) × (publish_connected from r message answers b
        ≡ (some (settled_by e), b'))
      × (b'.sent
          ≡ b.sent
            ++ map
                (λ c. (r, c))
                (requests message ++ unless_refused e (repeat (suc k) (write from message))))
      × (Set.has r b'.channels.in_use ≡ false)
      × Inv D b'.channels
unfolding publish_connected deliver
publish_connected-settled_by {E = E} D from message answers k later r b h i granted =
    let e = refusal message answers in
    let commands = requests message ++ unless_refused e (repeat (suc k) (write from message)) in
    let u =
      use_resource_returns D (λ x. returns (settled_by e)) (λ s. s) r b.channels
        (deliver E D r b.channels) i granted Reach.here (has-add r b.channels.in_use) in
    let sent = b.sent ++ map (λ c. (r, c)) commands in
    (
      record b { channels = u.0; sent = sent },
      ap (λ t. used r t.1 t.0 b) (publish_on-settled_by from message answers k later h)
          ∙ ap (λ t. (some (t.0), record b { channels = t.1; sent = sent })) (u.1),
      refl,
      u.3,
      u.4,
    )
