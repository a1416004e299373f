-- ===== src/Adapters/RabbitMq/Messages.antt =====
-- What the broker is told of a job, and what the consumer makes of it.
use cortex_rag.Base.{
  ◌≡◌, refl, sym, ap, ◌∙◌, Bool, true, ◌&&◌, some, List, [], ◌∷◌, arith, ◌==◌, nat_eq, Text,
  text_eq,
}
use cortex_rag.Exec.{Result, ok, err, Exec, continue, ◌>>◌}
use cortex_rag.Job.{Uuid}
use cortex_rag.Repo.Sql.{exists}
use cortex_rag.Adapters.Cache.{lookup}
use cortex_rag.Adapters.RabbitMq.{
  Channel, Broker, RabbitMq, message_of, read_message, on_broker, get_channel, ensure_queue,
  enqueue, IsReady, get_channel_lem, ensure_queue_lem,
}
use cortex_rag.Repo.Sql.Pages.{all}

read-message_of :
    (json_dumps : List (Text × Text) → Text) (json_loads : Text → Result (List (Text × Text)))
    (tenant_id job_id : Text)
    → json_loads (json_dumps (message_of tenant_id job_id)) ≡ ok (message_of tenant_id job_id)
    → read_message json_loads (json_dumps (message_of tenant_id job_id)) ≡ ok (tenant_id, job_id)
unfolding text_eq
read-message_of json_dumps json_loads tenant_id job_id inverse = rw inverse refl

-- A call of the client drops no queue.
abbrev pub KeepsQueues : {S : Type 0} {A : Type 0} → (S → Text → Bool) → Exec S A → Type 0
KeepsQueues {S = S} has m = (s : S) (name : Text) → has s name ≡ true → has (m s).1 name ≡ true

-- What the broker's client promises: a declaration that returns makes the queue, and no call of these
-- drops one.
pub record BrokerPromises {S : Type 0} (client : Broker S) (has : S → Text → Bool) : Type 0 where
  pub makes :
      (channel : Channel) (name : Text) (s : S)
      → (client.declare_queue channel name s).0 ≡ ok tt
      → has (client.declare_queue channel name s).1 name ≡ true
  pub open_keeps : (url : Text) → KeepsQueues has (client.open_channel url)
  pub declare_keeps :
      (channel : Channel) (name : Text) → KeepsQueues has (client.declare_queue channel name)
  pub publish_keeps :
      (channel : Channel) (body name : Text)
      → KeepsQueues has (client.publish_body channel body name)

-- The broker has every queue that the process remembers as declared.
abbrev pub has_declared : {S : Type 0} → (S → Text → Bool) → RabbitMq S → Bool
has_declared has q = all (λ d. has q.broker d.1) q.declared

all-weaken :
    {A : Type 0} (p q : A → Bool) (xs : List A)
    → ((x : A) → p x ≡ true → q x ≡ true)
    → all p xs ≡ true
    → all q xs ≡ true
all-weaken p q [] imp h = refl
all-weaken p q (x ∷ xs) imp h = ground (arith, imp x, all-weaken p q xs imp)

remembered_is_there :
    (has : Text → Bool) (channel : Channel) (name : Text) (ds : List (Channel × Text))
    → all (λ d. has d.1) ds ≡ true
    → exists (λ d. d.0 == channel && d.1 == name) ds ≡ true
    → has name ≡ true
unfolding exists
remembered_is_there has channel name [] h there = ground arith
remembered_is_there has channel name (d ∷ ds) h there =
    ground (arith, remembered_is_there has channel name ds)

module _ {S : Type 0} (client : Broker S) (has : S → Text → Bool)
    (promises : BrokerPromises client has) (url queue_name : Text) where
  abbrev get_it : Exec (RabbitMq S) Channel
  get_it = get_channel client url queue_name

  abbrev ensure_it : Channel → Exec (RabbitMq S) (Unit {0})
  ensure_it = ensure_queue client url queue_name

  get_channel-has_declared :
      (q : RabbitMq S) → has_declared has q ≡ true → has_declared has (get_it q).1 ≡ true
  unfolding get_channel
  get_channel-has_declared q h =
      let s = (client.open_channel url q.broker).1 in
      ground (
        arith,
        all-weaken (λ d. has q.broker d.1) (λ d. has s d.1) q.declared
            (λ d. promises.open_keeps url q.broker d.1),
      )

  ensure_queue-has_declared :
      (channel : Channel) (q : RabbitMq S)
      → has_declared has q ≡ true
      → (ensure_it channel q).0 ≡ ok tt
      → (has_declared has (ensure_it channel q).1 ≡ true)
        × (has (ensure_it channel q).1.broker queue_name ≡ true)
  unfolding ensure_queue exists
  ensure_queue-has_declared channel q h returned =
      let s = (client.declare_queue channel queue_name q.broker).1 in
      ground (
        arith,
        all-weaken (λ d. has q.broker d.1) (λ d. has s d.1) q.declared
            (λ d. promises.declare_keeps channel queue_name q.broker d.1),
        promises.makes channel queue_name q.broker,
        remembered_is_there (has q.broker) channel queue_name q.declared,
      )

  abbrev send : Text → Channel → Exec (RabbitMq S) (Unit {0})
  send body channel =
      ensure_it channel
      >> on_broker client url queue_name (client.publish_body channel body queue_name)

  -- The broker was told the body last, when it had the queue, on a channel that is cached under the URL
  -- and on which the process has declared the queue.
  abbrev pub IsPublished : Text → RabbitMq S → Type 0
  IsPublished body after =
      (channel : Channel) × (before : RabbitMq S) × IsReady client url queue_name channel before
      × (has before.broker queue_name ≡ true)
      × ((client.publish_body channel body queue_name before.broker).0 ≡ ok tt)
      × (after ≡ record before {
        broker = (client.publish_body channel body queue_name before.broker).1;
      })

  both_returned :
      (m n : Exec (RabbitMq S) (Unit {0})) (q : RabbitMq S)
      → ((m >> n) q).0 ≡ ok tt
      → ((m q).0 ≡ ok tt) × ((m >> n) q ≡ n (m q).1)
  both_returned m n q returned = ground arith

  sent_on :
      (body : Text) (channel : Channel) (q : RabbitMq S)
      → lookup url q.channels ≡ some channel
      → has_declared has q ≡ true
      → (send body channel q).0 ≡ ok tt
      → IsPublished body (send body channel q).1 × (has_declared has (send body channel q).1 ≡ true)
  sent_on body channel q found declared returned =
      let publish = client.publish_body channel body queue_name in
      let (declared_it, same) =
        both_returned (ensure_it channel) (on_broker client url queue_name publish) q returned in
      let (kept, ready) = ensure_queue_lem client url queue_name q channel declared_it in
      let before = (ensure_it channel q).1 in
      let (still, there) = ensure_queue-has_declared channel q declared declared_it in
      (
        (
          channel,
          before,
          (ap (lookup url) kept ∙ found, ready),
          there,
          ap (λ r. r.0) (sym same) ∙ returned,
          ap (λ r. r.1) same,
        ),
        rw same (
            all-weaken (λ d. has before.broker d.1) (λ d. has (publish before.broker).1 d.1)
              before.declared
              (λ d. promises.publish_keeps channel body queue_name before.broker d.1) still),
      )

  sent_after :
      (body : Text) (r : Result Channel) (q : RabbitMq S)
      → ((channel : Channel) → r ≡ ok channel → lookup url q.channels ≡ some channel)
      → has_declared has q ≡ true
      → (continue r (send body) q).0 ≡ ok tt
      → IsPublished body (continue r (send body) q).1
        × (has_declared has (continue r (send body) q).1 ≡ true)
  sent_after body (ok channel) q found declared returned =
      sent_on body channel q (found channel refl) declared returned
  sent_after body (err e) q found declared returned = ground arith

  -- Where the broker's client keeps its promises, the broker has every queue that the process remembers
  -- as declared, the JSON library reads back the dictionary that it wrote, and putting a job in the
  -- queue returns: the broker was told last of a body, when it had the queue, on a channel that is
  -- cached under the URL; the consumer reads the body as the job's tenant and id; and the broker still
  -- has every queue that the process remembers.
  pub enqueued_is_read :
      (json_dumps : List (Text × Text) → Text) (json_loads : Text → Result (List (Text × Text)))
      (uuid_str : Uuid → Text) (tenant_id : Text) (job_id : Uuid) (q : RabbitMq S)
      → has_declared has q ≡ true
      → json_loads (json_dumps (message_of tenant_id (uuid_str job_id)))
        ≡ ok (message_of tenant_id (uuid_str job_id))
      → (enqueue client url queue_name json_dumps uuid_str tenant_id job_id q).0 ≡ ok tt
      → let after = (enqueue client url queue_name json_dumps uuid_str tenant_id job_id q).1 in
        (body : Text) × (IsPublished body after × (has_declared has after ≡ true))
        × (read_message json_loads body ≡ ok (tenant_id, uuid_str job_id))
  unfolding enqueue
  enqueued_is_read json_dumps json_loads uuid_str tenant_id job_id q declared inverse returned =
      let body = json_dumps (message_of tenant_id (uuid_str job_id)) in
      (
        body,
        sent_after body (get_it q).0 (get_it q).1 (get_channel_lem client url queue_name q)
            (get_channel-has_declared q declared) returned,
        read-message_of json_dumps json_loads tenant_id (uuid_str job_id) inverse,
      )
