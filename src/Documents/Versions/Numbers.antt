-- ===== src/Documents/Versions/Numbers.antt =====
-- The numbers of a document's versions, and what adding a version leaves.
use cortex_rag.Base.{
  ℕ, ◌+◌, ◌≤◌, ◌<◌, ◌≡◌, refl, ◌⊎◌, inl, inr, true, List, [], ◌∷◌, arith, ◌==◌, ltb, nat_eq,
  text_eq,
}
use cortex_rag.Document.{KnowledgeDocumentVersion}
use cortex_rag.Repo.Sql.{exists}
use cortex_rag.Documents.Versions.{max_number, next_number}
use cortex_rag.Repo.Sql.Pages.{all}

-- A version of the list.
abbrev pub IsOneOf : KnowledgeDocumentVersion → List KnowledgeDocumentVersion → Type 0
IsOneOf v [] = ⊥
IsOneOf v (u ∷ us) = (v ≡ u) ⊎ IsOneOf v us

max_number-le :
    (v : KnowledgeDocumentVersion) (vs : List KnowledgeDocumentVersion)
    → IsOneOf v vs
    → v.version_number ≤ max_number vs
unfolding max_number
max_number-le v [] h = elim h [ ]
max_number-le v (u ∷ us) (inl e) = ground arith
max_number-le v (u ∷ us) (inr h) = ground (arith, max_number-le v us h)

-- The number of the next version is above that of each existing one, so no number is used twice.
pub number_is_new :
    (v : KnowledgeDocumentVersion) (vs : List KnowledgeDocumentVersion)
    → IsOneOf v vs
    → v.version_number < next_number vs
unfolding next_number
number_is_new v [] h = elim h [ ]
number_is_new v (u ∷ us) h = ground (arith, max_number-le v (u ∷ us) h)

-- The number comes right after the highest number of the versions: every number is below it, and it is
-- 1 where there is no version, and otherwise one more than that of some version.
abbrev pub IsNext : ℕ → List KnowledgeDocumentVersion → Type 0
IsNext n vs =
    (all (λ v. ltb v.version_number n) vs ≡ true)
    × (((vs ≡ []) × (n ≡ 1)) ⊎ (exists (λ v. v.version_number + 1 == n) vs ≡ true))

all_below :
    (n : ℕ) (vs : List KnowledgeDocumentVersion)
    → max_number vs < n
    → all (λ v. ltb v.version_number n) vs ≡ true
unfolding max_number
all_below n [] h = refl
all_below n (v ∷ vs) h = ground (arith, all_below n vs)

max_is_there :
    (n : ℕ) (vs : List KnowledgeDocumentVersion)
    → max_number vs + 1 ≡ n
    → 1 < n
    → exists (λ v. v.version_number + 1 == n) vs ≡ true
unfolding max_number exists nat_eq
max_is_there n [] h positive = ground arith
max_is_there n (v ∷ vs) h positive = ground (arith, max_is_there n vs)

next_is_there :
    (v : KnowledgeDocumentVersion) (vs : List KnowledgeDocumentVersion)
    → exists (λ u. u.version_number + 1 == next_number (v ∷ vs)) (v ∷ vs) ≡ true
unfolding max_number next_number exists nat_eq
next_is_there v vs = ground (arith, max_is_there (next_number (v ∷ vs)) vs)

pub next_number-IsNext : (vs : List KnowledgeDocumentVersion) → IsNext (next_number vs) vs
unfolding next_number
next_number-IsNext [] = (refl, inl (refl, refl))
next_number-IsNext (v ∷ vs) =
    (all_below (next_number (v ∷ vs)) (v ∷ vs) (omega arith), inr (next_is_there v vs))
