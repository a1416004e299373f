-- ===== src/Adapters/RabbitMq.antt =====
-- `RabbitMQJobQueue` (app/infrastructure/queue/rabbitmq_job_queue.py), and what the consumer reads of a
-- message (scripts/run_worker.py). The broker's client is a parameter: its calls change a state of its
-- own, and may raise. A channel stands as its `id`.
pub mod Messages
use cortex_rag.Base.{
  ℕ, ◌≡◌, Bool, true, ◌&&◌, none, some, List, [], ◌∷◌, arith, ◌==◌, if◌then◌else◌, nat_eq, Text,
  text, text_eq,
}
use cortex_rag.Exec.{external_error, Result, ok, err, and_then, Exec, pure, ◌>>=◌, ◌>>◌, modify}
use cortex_rag.Job.{Uuid}
use cortex_rag.Repo.Sql.{exists}
use cortex_rag.Adapters.Cache.{lookup}

abbrev pub Channel : Type 0
Channel = ℕ

pub record Broker (S : Type 0) : Type 0 where
  pub is_closed : Channel → S → Bool
  -- `connect_robust(url)` and `connection.channel()`
  pub open_channel : Text → Exec S Channel
  pub declare_queue : Channel → Text → Exec S (Unit {0})
  -- `default_exchange.publish` of a body under a routing key
  pub publish_body : Channel → Text → Text → Exec S (Unit {0})

-- The process: `_channel_cache`, `_declared_queues`, and the broker.
pub record RabbitMq (S : Type 0) : Type 0 where
  pub channels : List (Text × Channel)
  pub declared : List (Channel × Text)
  pub broker : S

-- The dictionary of a message.
abbrev pub message_of : Text → Text → List (Text × Text)
message_of tenant_id job_id = (text "tenant_id", tenant_id) ∷ (text "job_id", job_id) ∷ []

-- `payload[key]`
abbrev pub item_of : Text → List (Text × Text) → Result Text
item_of key payload = elim (lookup key payload) [ none ↦ err (external_error key) | some v ↦ ok v ]

-- `payload = json.loads(message.body)`, then the tenant and the job.
abbrev pub read_message : (Text → Result (List (Text × Text))) → Text → Result (Text × Text)
read_message json_loads body = and_then (json_loads body) (λ payload.
    and_then (item_of (text "tenant_id") payload)
      (λ tenant_id. and_then (item_of (text "job_id") payload) (λ job_id. ok (tenant_id, job_id))))

module _ {S : Type 0} (client : Broker S) (url queue_name : Text) where
  abbrev pub on_broker : {A : Type 0} → Exec S A → Exec (RabbitMq S) A
  on_broker m q = ((m q.broker).0, record q { broker = (m q.broker).1 })

  abbrev pub connect : Exec (RabbitMq S) Channel
  connect = do
    channel ← on_broker (client.open_channel url)
    modify (λ q. record q { channels = (url, channel) ∷ q.channels })
    pure channel

  -- `_get_channel`; with one task at a time, the test under the lock gives what the first one gave.
  unfoldable pub get_channel : Exec (RabbitMq S) Channel
  get_channel q = elim (lookup url q.channels) [
    | none ↦ connect q
    | some channel ↦ if client.is_closed channel q.broker then connect q else (ok channel, q)
  ]

  -- `_declared_queues` holds the pair: what the process remembers, not what the broker has.
  abbrev pub is_declared : Channel → RabbitMq S → Bool
  is_declared channel q = exists (λ d. d.0 == channel && d.1 == queue_name) q.declared

  abbrev pub declare : Channel → Exec (RabbitMq S) (Unit {0})
  declare channel = do
    on_broker (client.declare_queue channel queue_name)
    modify (λ q. record q { declared = (channel, queue_name) ∷ q.declared })

  -- `_ensure_queue`
  unfoldable pub ensure_queue : Channel → Exec (RabbitMq S) (Unit {0})
  unfolding exists
  ensure_queue channel q = (if is_declared channel q then pure tt else declare channel) q

  unfoldable pub enqueue :
      (List (Text × Text) → Text) → (Uuid → Text) → Text → Uuid → Exec (RabbitMq S) (Unit {0})
  unfolding get_channel ensure_queue
  enqueue json_dumps uuid_str tenant_id job_id = do
    channel ← get_channel
    ensure_queue channel
    on_broker (
        client.publish_body channel (json_dumps (message_of tenant_id (uuid_str job_id)))
          queue_name)

  -- The channel is cached under the URL, and the process remembers the queue as declared on it.
  abbrev pub IsReady : Channel → RabbitMq S → Type 0
  IsReady channel q = (lookup url q.channels ≡ some channel) × (is_declared channel q ≡ true)

  pub get_channel_lem :
      (q : RabbitMq S) (channel : Channel)
      → (get_channel q).0 ≡ ok channel
      → lookup url (get_channel q).1.channels ≡ some channel
  unfolding get_channel
  get_channel_lem q channel returned = ground arith

  pub ensure_queue_lem :
      (q : RabbitMq S) (channel : Channel)
      → (ensure_queue channel q).0 ≡ ok tt
      → ((ensure_queue channel q).1.channels ≡ q.channels)
        × (is_declared channel (ensure_queue channel q).1 ≡ true)
  unfolding ensure_queue exists
  ensure_queue_lem q channel returned = ground arith
