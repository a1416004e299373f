-- ===== src/Repo/Conversations/RoundTrip.antt =====
-- A conversation that was stored reads back, and so does one that went on.
use cortex_rag.Base.{
  ◌≡◌, refl, ap, ◌∙◌, false, none, some, List, [], ◌∷◌, ◌++◌, map, arith, length, select,
  select_first, Text,
}
use cortex_rag.Base.Lists.{select-append}
use cortex_rag.Exec.{ok}
use cortex_rag.Job.{Uuid}
use cortex_rag.Conversation.{Message, Conversation, ConversationRow, MessageRow, message_to_entity}
use cortex_rag.World.{World, Env}
use cortex_rag.Repo.Sql.{exists, traverse}
use cortex_rag.Repo.Sql.Laws.{select-eq-nil, select_first-append_self}
use cortex_rag.Repo.Conversations.{
  by_id, said_in, new_rows, append_conversation, append_messages, new_conversation_row,
  to_conversation,
}
use cortex_rag.Repo.Conversations.Laws.{
  AreNumbered, AreNew, AreOld, stamped, sort-numbered, numbered-append, new_rows-numbered,
  select-new_rows, new_rows-skip, read-new_rows, traverse-append,
}
use cortex_rag.Repo.Conversations

-- What is read of a conversation whose row and messages are there.
get_reads :
    (tenant_id : Text) (conversation_id : Uuid) (row : ConversationRow) (ms : List Message)
    (w : World)
    → select_first (by_id conversation_id) w.conversations ≡ some row
    → row.tenant_id ≡ tenant_id
    → AreNumbered 0 (select (said_in row.id) w.messages)
    → traverse message_to_entity (select (said_in row.id) w.messages) ≡ ok ms
    → Conversations.get tenant_id conversation_id w ≡ (ok (some (to_conversation row ms)), w)
unfolding Conversations.get Conversations.with_messages
get_reads tenant_id conversation_id row ms w found same numbered read =
    ground (arith, sort-numbered 0 (select (said_in row.id) w.messages) numbered)

all_new : (ms : List Message) → AreNew [] ms
all_new [] = tt
all_new (m ∷ ms) = (refl, all_new ms)

module _ (env : Env) (w : World) (c : Conversation) where
  add_run :
      (Conversations.add env c w).0 ≡ ok tt
      → (exists (by_id c.id) w.conversations ≡ false)
        × ((Conversations.add env c w).1
            ≡ append_messages
                (new_rows w.server_now c.id [] 0 c.messages)
                (append_conversation (new_conversation_row w.server_now c) w))
  unfolding Conversations.add Conversations.flush_messages
  add_run h = ground arith

  -- A conversation that was added, under an id for which there were no messages, is read back under
  -- its tenant and id, with its messages in their order; all is as it was but for the times, which
  -- are the server's.
  pub get-add :
      (Conversations.add env c w).0 ≡ ok tt
      → select_first (said_in c.id) w.messages ≡ none
      → let after = (Conversations.add env c w).1 in
        Conversations.get c.tenant_id c.id after ≡ (
          ok (
              some (record c {
                messages = map (stamped w.server_now) c.messages;
                created_at = some w.server_now;
                updated_at = some w.server_now;
              })),
          after,
        )
  get-add added unused =
      let (fresh, state) = add_run added in
      let rows = new_rows w.server_now c.id [] 0 c.messages in
      let mine : select (said_in c.id) (w.messages ++ rows) ≡ rows =
        select-append (said_in c.id) w.messages rows
        ∙ rw (select-eq-nil (said_in c.id) w.messages unused)
            (select-new_rows w.server_now c.id [] 0 c.messages) in
      rw state (
        get_reads c.tenant_id c.id (new_conversation_row w.server_now c)
          (map (stamped w.server_now) c.messages)
          (append_messages rows (append_conversation (new_conversation_row w.server_now c) w))
          (select_first-append_self (by_id c.id) w.conversations
            (new_conversation_row w.server_now c) fresh (ground arith))
          refl (rw mine (new_rows-numbered w.server_now c.id [] 0 c.messages (all_new c.messages)))
          (rw mine (read-new_rows w.server_now c.id [] 0 c.messages (all_new c.messages))))

old_more : (i : Uuid) (ids : List Uuid) (ms : List Message) → AreOld ids ms → AreOld (i ∷ ids) ms
old_more i ids [] h = tt
old_more i ids (m ∷ ms) h = (ground (arith, h.0), old_more i ids ms h.1)

read-cons :
    (r : MessageRow) (rows : List MessageRow) (m : Message) (ms : List Message)
    → traverse message_to_entity (r ∷ rows) ≡ ok (m ∷ ms)
    → (r.id ≡ m.id) × (traverse message_to_entity rows ≡ ok ms)
unfolding traverse message_to_entity
read-cons r rows m ms h = ground arith

-- What is read has the ids of the rows.
read-old :
    (rows : List MessageRow) (ms : List Message)
    → traverse message_to_entity rows ≡ ok ms
    → AreOld (map (λ r. r.id) rows) ms × (length rows ≡ length ms)
unfolding traverse message_to_entity
read-old [] [] h = (tt, refl)
read-old [] (m ∷ ms) h = ground arith
read-old (r ∷ rows) [] h = ground arith
read-old (r ∷ rows) (m ∷ ms) h =
    let (same, rest) = read-cons r rows m ms h in
    let (old, size) = read-old rows ms rest in
    ((ground (arith, same), old_more r.id (map (λ r. r.id) rows) ms old), omega (arith, size))

module _ (env : Env) (w : World) (row : ConversationRow) (said more : List Message)
    (found : select_first (by_id row.id) w.conversations ≡ some row)
    (numbered : AreNumbered 0 (select (said_in row.id) w.messages))
    (read : traverse message_to_entity (select (said_in row.id) w.messages) ≡ ok said)
    (unsaid : AreNew (map (λ m. m.id) (select (said_in row.id) w.messages)) more) where
  -- The conversation as it was read, with the new messages appended.
  abbrev longer : Conversation
  longer = to_conversation row (said ++ more)

  abbrev rows : List MessageRow
  rows = select (said_in row.id) w.messages

  abbrev added_rows : List MessageRow
  added_rows = new_rows w.server_now row.id (map (λ m. m.id) rows) (length said) more

  -- Only the messages without rows are written, with the numbers that follow.
  only_new : new_rows w.server_now row.id (map (λ m. m.id) rows) 0 (said ++ more) ≡ added_rows
  only_new =
      new_rows-skip w.server_now row.id (map (λ m. m.id) rows) 0 (length said) said more
        (omega arith) (read-old rows said read).0

  update_run :
      (Conversations.update env longer w).0 ≡ ok tt
      → (Conversations.update env longer w).1 ≡ append_messages added_rows w
  unfolding Conversations.update Conversations.flush_messages
  update_run h = ground (arith, only_new)

  rows_after : select (said_in row.id) (w.messages ++ added_rows) ≡ rows ++ added_rows
  rows_after =
      select-append (said_in row.id) w.messages added_rows
      ∙ ap (λ l. rows ++ l)
          (select-new_rows w.server_now row.id (map (λ m. m.id) rows) (length said) more)

  numbered_after : AreNumbered 0 (rows ++ added_rows)
  numbered_after =
      numbered-append 0 (length said) rows added_rows (omega (arith, (read-old rows said read).1))
        numbered
        (new_rows-numbered w.server_now row.id (map (λ m. m.id) rows) (length said) more unsaid)

  -- A conversation whose rows are numbered as they were said is read, some messages with new ids are
  -- appended, and it is updated. Where that returns, what is read from then on is what was read
  -- before, followed by the new messages, with the server's time; no row is written twice or changed,
  -- and the rows are numbered as they were said again.
  pub get-update :
      (Conversations.update env longer w).0 ≡ ok tt
      → let after = (Conversations.update env longer w).1 in
        (Conversations.get row.tenant_id row.id after
          ≡ (ok (some (to_conversation row (said ++ map (stamped w.server_now) more))), after))
        × (after.messages ≡ w.messages ++ added_rows)
        × AreNumbered 0 (select (said_in row.id) after.messages)
  get-update updated =
      let state = update_run updated in
      rw state (
        get_reads row.tenant_id row.id row (said ++ map (stamped w.server_now) more)
            (append_messages added_rows w) found refl (rw rows_after numbered_after)
            (rw rows_after (
              traverse-append rows added_rows said (map (stamped w.server_now) more) read (
                read-new_rows w.server_now row.id (map (λ m. m.id) rows) (length said) more
                  unsaid))),
        refl,
        rw rows_after numbered_after,
      )
