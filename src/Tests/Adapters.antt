-- ===== src/Tests/Adapters.antt =====
-- The adapters on small values.
use cortex_rag.Base.{
  ◌≡◌, refl, ◌⊎◌, Bool, true, false, none, some, List, [], ◌∷◌, ◌++◌, arith, nat_eq, pos, Text,
  text, text_eq,
}
use cortex_rag.Exec.{value_error, Result, ok, err, is_ok, and_then, Exec}
use cortex_rag.Vector.{query_task, ParsedDocument}
use cortex_rag.Adapters.Cache.{IsMade}
use cortex_rag.Adapters.FastEmbed.{
  EmbeddingModel, first_of, embed_batch, embed_text, embed_uncached, embed_batch-embed_uncached,
}
use cortex_rag.Adapters.PyMuPdf.{PdfDocument, split_pages, AreUnbroken, split_pages-parse}
use cortex_rag.Adapters.Qdrant.{Client, Qdrant}
use cortex_rag.Adapters.Qdrant.Collections.{upsert_call, run_call, Promises, run_call-AreThere}
use cortex_rag.Adapters.RabbitMq.{
  Broker, RabbitMq, message_of, read_message, get_channel, ensure_queue, enqueue,
}
use cortex_rag.Adapters.RabbitMq.Messages.{
  BrokerPromises, has_declared, IsPublished, enqueued_is_read,
}
use cortex_rag.Base.Str.{contains}
use cortex_rag.Repo.Sql.{exists}
use cortex_rag.Repo.Sql.Pages.{all}
use cortex_rag.Adapters.PyMuPdf

abbrev model : EmbeddingModel
model = record { passage_embed = λ _. ok ((1 ∷ []) ∷ []); query_embed = λ _. ok ((2 ∷ []) ∷ []) }

embed_batch-embed_uncached_example :
    ((embed_batch (λ _. ok model) (text "m") (text "t" ∷ []) query_task []).0
      ≡ embed_uncached (λ _. ok model) (text "m") (text "t" ∷ []) query_task)
    × IsMade ⦃e = text_eq⦄
        (λ _. ok model)
        (embed_batch (λ _. ok model) (text "m") (text "t" ∷ []) query_task []).1
    × ((source : Text)
        → (embed_text (λ _. ok model) (text "m") source query_task []).0
          ≡ and_then (embed_uncached (λ _. ok model) (text "m") (source ∷ []) query_task) first_of)
embed_batch-embed_uncached_example =
    embed_batch-embed_uncached (λ _. ok model) (text "m") (text "t" ∷ []) query_task [] tt

abbrev two_pages : PdfDocument
two_pages = record {
  pages = text "a" ∷ text "b" ∷ [];
  page_count = 2;
  metadata = some ((text "title", some (text "t")) ∷ (text "author", none) ∷ []);
}

unbroken : AreUnbroken two_pages.pages
unfolding exists nat_eq
unbroken = (refl, (refl, tt))

split_pages-parse_example :
    (parsed : ParsedDocument) × (PyMuPdf.parse (λ _. ok two_pages) [] (text "application/pdf")
      ≡ ok parsed)
    × (split_pages parsed.parsed_text ≡ two_pages.pages)
    × (parsed.page_count ≡ two_pages.page_count)
split_pages-parse_example =
    split_pages-parse (λ _. ok two_pages) [] (text "application/pdf") two_pages (text "a")
      (text "b" ∷ []) refl refl unbroken

-- A store that keeps the names of its collections.
abbrev names : Client (List Text)
names = record {
  collection_exists = λ c s. (ok (contains s c), s);
  create_collection = λ c _ s. (ok tt, c ∷ s);
  upsert_points = λ _ _ s. (ok tt, s);
  query_points = λ _ _ _ _ s. (ok [], s);
  delete_points = λ _ _ s. (ok tt, s);
}

told :
    (c : Text) (s : List Text) (b : Bool)
    → (names.collection_exists c s).0 ≡ ok b
    → b ≡ contains s c
told c s b h = ground (arith, h)

made : (c : Text) (s : List Text) → contains (c ∷ s) c ≡ true
unfolding contains
made c s = ground arith

kept : (c d : Text) (s : List Text) → contains s d ≡ true → contains (c ∷ s) d ≡ true
unfolding contains
kept c d s h = ground arith

names_promise : Promises names contains
names_promise = record {
  tells = told;
  makes = λ c n s h. made c s;
  exists_keeps = λ c s d h. h;
  create_keeps = λ c n s d h. kept c d s h;
  upsert_keeps = λ c ps s d h. h;
  query_keeps = λ c v n f s d h. h;
  delete_keeps = λ c ids s d h. h;
}

abbrev fresh : Qdrant (List Text)
fresh = record { ensured = []; store = [] }

abbrev one_upsert : Exec (Qdrant (List Text)) (Unit {0})
one_upsert = run_call names (λ i. i ∷ []) (λ _. ok 0) (text "c") (pos 3) (upsert_call [])

run_call-AreThere_example :
    (all (contains (one_upsert fresh).1.store) (one_upsert fresh).1.ensured ≡ true)
    × ((is_ok (one_upsert fresh).0 ≡ false)
        ⊎ (contains (one_upsert fresh).1.store (text "c") ≡ true))
run_call-AreThere_example =
    run_call-AreThere names contains names_promise (λ i. i ∷ []) (λ _. ok 0) (text "c") (pos 3)
      (upsert_call []) fresh refl

-- A broker that keeps the queues and the bodies.
abbrev Bodies : Type 0
Bodies = List Text × List Text

abbrev bodies : Broker Bodies
bodies = record {
  is_closed = λ _ _. false;
  open_channel = λ _ s. (ok 1, s);
  declare_queue = λ _ name s. (ok tt, (name ∷ s.0, s.1));
  publish_body = λ _ body _ s. (ok tt, (s.0, body ∷ s.1));
}

abbrev has_queue : Bodies → Text → Bool
has_queue s name = contains s.0 name

bodies_promise : BrokerPromises bodies has_queue
unfolding contains
bodies_promise = record {
  makes = λ channel name s returned. ground arith;
  open_keeps = λ url s name there. there;
  declare_keeps = λ channel other s name there. ground arith;
  publish_keeps = λ channel body other s name there. there;
}

-- Keys and values with no separator, which tell a tenant and a job of one character each.
abbrev dumps : List (Text × Text) → Text
dumps [] = []
dumps ((k, v) ∷ d) = v ++ dumps d

abbrev loads : Text → Result (List (Text × Text))
loads (t ∷ j ∷ []) = ok (message_of (t ∷ []) (j ∷ []))
loads _ = err (value_error (text "JSON"))

abbrev idle : RabbitMq Bodies
idle = record { channels = []; declared = []; broker = ([], []) }

abbrev sent : Result (Unit {0}) × RabbitMq Bodies
sent = enqueue bodies (text "amqp") (text "q") dumps (λ i. i ∷ []) (text "t") 11 idle

sent_ok : sent.0 ≡ ok tt
unfolding enqueue get_channel ensure_queue exists
sent_ok = refl

enqueued_is_read_example :
    (body : Text) × (IsPublished bodies has_queue bodies_promise
        (text "amqp")
        (text "q")
        body
        sent.1
      × (has_declared has_queue sent.1 ≡ true))
    × (read_message loads body ≡ ok (text "t", 11 ∷ []))
enqueued_is_read_example =
    enqueued_is_read bodies has_queue bodies_promise (text "amqp") (text "q") dumps loads
      (λ i. i ∷ []) (text "t") 11 idle refl refl sent_ok
