-- ===== src/Chat/History.antt =====
-- How much of a conversation the LLM is given.
use cortex_rag.Base.{
  ℕ, suc, ◌-◌, ◌≡◌, refl, List, [], ◌∷◌, ◌++◌, map, arith, if◌then◌else◌, ltb, length, take, drop,
  pos, Text,
}
use cortex_rag.Base.Lists.{length-drop, take-append-drop}
use cortex_rag.Conversation.{user, LlmMessage, Message}
use cortex_rag.World.{Env}
use cortex_rag.Settings.{ChatSettings}
use cortex_rag.Chat.Answer.{last_window, to_llm, llm_messages}

drop_is_suffix {ℓ} :
    {A : Type ℓ} (n : ℕ) (xs : List A) → (before : List A) × (before ++ drop n xs ≡ xs)
drop_is_suffix n xs = (take n xs, take-append-drop n xs)

module _ (env : Env) (settings : ChatSettings) (context question : Text)
    (history : List Message) where
  abbrev given : List LlmMessage
  given = llm_messages env settings context history question

  -- With a positive window, the LLM is given, after its first message, the last messages of the
  -- history, as many as the window or all where there are fewer, and the question: `sent` is a
  -- suffix of the history, of the smaller of the two lengths.
  pub window_is_suffix :
      (n : ℕ)
      → settings.history_window ≡ pos (suc n)
      → (earlier : List Message) × (sent : List Message) × (earlier ++ sent ≡ history)
        × (length sent ≡ (if ltb (length history) (suc n) then length history else suc n))
        × (drop 1 given
            ≡ map (to_llm env) sent ++ (record { role = user; content = question } ∷ []))
  unfolding llm_messages last_window
  window_is_suffix n e =
      let k = length history - suc n in
      (
        take k history,
        drop k history,
        take-append-drop k history,
        ground (arith, length-drop k history),
        rw e refl,
      )
