-- ===== src/Chat.antt =====
-- Questions over the indexed chunks: `SemanticSearchUseCase` (semantic_search.py) and
-- `AnswerQuestionUseCase` (answer_question.py).
pub mod Answer
pub mod History
pub mod Stored
pub mod Foreign
