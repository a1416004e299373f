-- ===== src/Repo/Conversations/Laws.antt =====
-- What is stored of a conversation reads back in the order in which it was said.
use mathlib.Core.Path.{subst}
use cortex_rag.Base.{
  ℕ, ◌+◌, ◌≡◌, refl, ap, true, false, some, List, [], ◌∷◌, ◌++◌, map, arith, length, select,
}
use cortex_rag.Exec.{ok}
use cortex_rag.Job.{Uuid, Time}
use cortex_rag.Conversation.{
  Message, MessageRow, message_to_model, message_to_entity, message_to_entity-message_to_model,
}
use cortex_rag.Repo.Sql.{traverse}
use cortex_rag.Repo.Conversations.{said_in, is_one_of, new_rows, insert_asc, sort_by_seq}

-- Rows whose `seq` counts up from `k`.
abbrev pub AreNumbered : ℕ → List MessageRow → Type 0
AreNumbered k [] = Unit
AreNumbered k (r ∷ rows) = (r.seq ≡ k) × AreNumbered (k + 1) rows

-- None of the messages has one of the ids, or each has.
abbrev pub AreNew : List Uuid → List Message → Type 0
AreNew ids [] = Unit
AreNew ids (m ∷ ms) = (is_one_of ids m.id ≡ false) × AreNew ids ms

abbrev pub AreOld : List Uuid → List Message → Type 0
AreOld ids [] = Unit
AreOld ids (m ∷ ms) = (is_one_of ids m.id ≡ true) × AreOld ids ms

-- The message as it is read back.
abbrev pub stamped : Time → Message → Message
stamped now m = record m { created_at = some now }

insert_numbered :
    (k : ℕ) (r : MessageRow) (rows : List MessageRow)
    → r.seq ≡ k
    → AreNumbered (k + 1) rows
    → insert_asc r rows ≡ r ∷ rows
unfolding insert_asc
insert_numbered k r [] e h = refl
insert_numbered k r (s ∷ rows) e h = ground arith

pub sort-numbered : (k : ℕ) (rows : List MessageRow) → AreNumbered k rows → sort_by_seq rows ≡ rows
unfolding sort_by_seq
sort-numbered k [] h = refl
sort-numbered k (r ∷ rows) h =
    rw (sort-numbered (k + 1) rows h.1) (insert_numbered k r rows h.0 h.1)

pub numbered-append :
    (k n : ℕ) (xs ys : List MessageRow)
    → length xs + k ≡ n
    → AreNumbered k xs
    → AreNumbered n ys
    → AreNumbered k (xs ++ ys)
numbered-append k n [] ys e hx hy = subst (λ m. AreNumbered m ys) (omega (arith, e)) hy
numbered-append k n (x ∷ xs) ys e hx hy =
    (hx.0, numbered-append (k + 1) n xs ys (omega (arith, e)) hx.1 hy)

module _ (now : Time) (c : Uuid) where
  -- Messages that are all new get consecutive numbers.
  pub new_rows-numbered :
      (ids : List Uuid) (k : ℕ) (ms : List Message)
      → AreNew ids ms
      → AreNumbered k (new_rows now c ids k ms)
  unfolding new_rows message_to_model
  new_rows-numbered ids k [] h = tt
  new_rows-numbered ids k (m ∷ ms) h = rw h.0 (refl, new_rows-numbered ids (k + 1) ms h.1)

  -- They are all of the conversation.
  pub select-new_rows :
      (ids : List Uuid) (k : ℕ) (ms : List Message)
      → select (said_in c) (new_rows now c ids k ms) ≡ new_rows now c ids k ms
  unfolding new_rows message_to_model
  select-new_rows ids k [] = refl
  select-new_rows ids k (m ∷ ms) = ground (arith, select-new_rows ids (k + 1) ms)

  -- Messages that have their rows are passed over, but counted.
  pub new_rows-skip :
      (ids : List Uuid) (k n : ℕ) (old ms : List Message)
      → length old + k ≡ n
      → AreOld ids old
      → new_rows now c ids k (old ++ ms) ≡ new_rows now c ids n ms
  unfolding new_rows
  new_rows-skip ids k n [] ms e h = ap (λ j. new_rows now c ids j ms) (omega (arith, e))
  new_rows-skip ids k n (o ∷ old) ms e h =
      rw h.0 (new_rows-skip ids (k + 1) n old ms (omega (arith, e)) h.1)

  pub read-new_rows :
      (ids : List Uuid) (k : ℕ) (ms : List Message)
      → AreNew ids ms
      → traverse message_to_entity (new_rows now c ids k ms) ≡ ok (map (stamped now) ms)
  unfolding new_rows traverse
  read-new_rows ids k [] h = refl
  read-new_rows ids k (m ∷ ms) h = rw h.0 (
      rw (message_to_entity-message_to_model now c k m)
        (rw (read-new_rows ids (k + 1) ms h.1) refl))

pub traverse-append :
    (xs ys : List MessageRow) (ms ns : List Message)
    → traverse message_to_entity xs ≡ ok ms
    → traverse message_to_entity ys ≡ ok ns
    → traverse message_to_entity (xs ++ ys) ≡ ok (ms ++ ns)
unfolding traverse
traverse-append [] ys ms ns hx hy = ground arith
traverse-append (x ∷ xs) ys [] ns hx hy = ground arith
traverse-append (x ∷ xs) ys (m ∷ ms) ns hx hy = ground (arith, traverse-append xs ys ms ns)
