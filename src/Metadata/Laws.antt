-- ===== src/Metadata/Laws.antt =====
-- What the validators accept, and that reading accepted metadata back changes nothing.
use cortex_rag.Base.{
  ℕ, ◌≡◌, refl, ap, ◌∙◌, ◌⊎◌, inl, inr, Bool, true, false, ◌&&◌, Option, none, some, List, [], ◌∷◌,
  map, arith, ◌==◌, Bool-cases, nat_eq, Text, text_eq,
}
use cortex_rag.Base.Str.{contains, is_space, drop_while, rstrip, strip}
use cortex_rag.Exec.{ok}
use cortex_rag.Metadata.{
  allowed_languages, KnowledgeMetadata, strip_all, any_blank, validate_language, validate_tags,
  validate_keywords, validate_metadata,
}

rstrip-rstrip : (s : Text) → rstrip (rstrip s) ≡ rstrip s
unfolding rstrip
rstrip-rstrip [] = refl
rstrip-rstrip (c ∷ s) = ground (arith, rstrip-rstrip s)

-- Without its leading spaces a text is empty or starts with another character.
starts_solid :
    (s : Text)
    → (drop_while is_space s ≡ [])
      ⊎ ((c : ℕ) × (t : Text) × (drop_while is_space s ≡ c ∷ t) × (is_space c ≡ false))
unfolding drop_while
starts_solid [] = inl refl
starts_solid (c ∷ s) = elim (Bool-cases (is_space c)) [
  | inl space ↦ rw space (starts_solid s)
  | inr solid ↦ inr (c, s, rw solid refl, solid)
]

rstrip_solid : (c : ℕ) (t : Text) → is_space c ≡ false → rstrip (c ∷ t) ≡ c ∷ rstrip t
unfolding rstrip
rstrip_solid c t solid = rw solid

drop_solid : (c : ℕ) (t : Text) → is_space c ≡ false → drop_while is_space (c ∷ t) ≡ c ∷ t
unfolding drop_while
drop_solid c t solid = rw solid

strip_lem : (s : Text) → strip s ≡ rstrip (drop_while is_space s)
unfolding strip
strip_lem s = refl

-- Stripping twice is stripping once.
pub strip-strip : (s : Text) → strip (strip s) ≡ strip s
strip-strip s = elim (starts_solid s) [
  | inl blank ↦ simp (strip_lem, blank) (unfold drop_while rstrip in refl)
  | inr (c, t, e, solid) ↦
      simp (strip_lem, e, rstrip_solid c t solid, drop_solid c (rstrip t) solid)
        (rstrip_solid c (rstrip t) solid ∙ ap (λ r. c ∷ r) (rstrip-rstrip t))
]

strip_all-strip_all : (ts : List Text) → strip_all (strip_all ts) ≡ strip_all ts
unfolding strip_all
strip_all-strip_all [] = refl
strip_all-strip_all (t ∷ ts) = ground (arith, strip_all-strip_all ts, strip-strip t)

any_blank-strip : (ks : List Text) → any_blank (map strip ks) ≡ any_blank ks
unfolding any_blank
any_blank-strip [] = refl
any_blank-strip (k ∷ ks) = ground (arith, any_blank-strip ks, strip-strip k)

strip-strip-map : (ks : List Text) → map strip (map strip ks) ≡ map strip ks
strip-strip-map [] = refl
strip-strip-map (k ∷ ks) = cc (strip-strip k, strip-strip-map ks)

all_stripped : List Text → Bool
all_stripped [] = true
all_stripped (l ∷ ls) = strip l == l && all_stripped ls

all_stripped_sound :
    (ls : List Text) (l : Text) → all_stripped ls ≡ true → contains ls l ≡ true → strip l ≡ l
unfolding all_stripped contains
all_stripped_sound [] l h m = cc
all_stripped_sound (k ∷ ls) l h m = ground (arith, all_stripped_sound ls l)

languages_stripped : all_stripped allowed_languages ≡ true
unfolding all_stripped allowed_languages strip is_space text_eq nat_eq
languages_stripped = refl

-- The validators are given `str.lower`, which leaves the language codes, lower-case ASCII, alone.
module _ (lower : Text → Text)
    (lower_code : (l : Text) → contains allowed_languages l ≡ true → lower l ≡ l) where
  validate_language_idem :
      (v w : Option Text) → validate_language lower v ≡ ok w → validate_language lower w ≡ ok w
  unfolding validate_language
  validate_language_idem none w h = ground arith
  validate_language_idem (some v) w h =
      let code = lower (strip v) in
      ground (arith, lower_code code, all_stripped_sound allowed_languages code languages_stripped)

  validate_tags_idem :
      (ts us : List Text) → validate_tags lower ts ≡ ok us → validate_tags lower us ≡ ok us
  unfolding validate_tags
  validate_tags_idem ts us h = ground (arith, strip_all-strip_all ts)

  validate_keywords_idem :
      (ks ls : List Text) → validate_keywords lower ks ≡ ok ls → validate_keywords lower ls ≡ ok ls
  unfolding validate_keywords
  validate_keywords_idem ks ls h = ground (arith, any_blank-strip ks, strip-strip-map ks)

  -- Metadata that validation has returned is valid as it stands: validating it again returns it
  -- unchanged. `lower` must
  -- leave the codes of the allowed languages alone.
  pub validate_metadata_idem :
      (m n : KnowledgeMetadata)
      → validate_metadata lower m ≡ ok n
      → validate_metadata lower n ≡ ok n
  unfolding validate_metadata
  validate_metadata_idem m n h = ground (
    arith,
    validate_language_idem m.language n.language,
    validate_tags_idem m.tags n.tags,
    validate_keywords_idem m.keywords n.keywords,
  )
