-- ===== src/Adapters/Cache.antt =====
-- A dictionary of a module that keeps what was made for each key, as `_get_model`
-- (app/infrastructure/embeddings/fastembed_provider.py) and `_get_client`
-- (app/infrastructure/vector_store/qdrant_repository.py) use it.
use cortex_rag.Base.{
  ◌≡◌, refl, sym, Option, none, some, List, [], ◌∷◌, arith, Eq, ◌==◌, if◌then◌else◌, nat_eq,
  text_eq,
}
use cortex_rag.Exec.{Result, ok, err, Exec}

-- `cache.get(key)`
abbrev pub lookup {ℓ κ} : {K : Type ℓ} {A : Type κ} ⦃e : Eq K⦄ → K → List (K × A) → Option A
lookup key [] = none
lookup key ((k, a) ∷ cache) = if k == key then some a else lookup key cache

module _ {ℓ κ} {K : Type ℓ} {A : Type κ} ⦃e : Eq K⦄ (make : K → Result A) where
  -- `cache[key] = value`, where the value could be made
  abbrev pub keep : K → Result A → Exec (List (K × A)) A
  keep key (ok a) cache = (ok a, (key, a) ∷ cache)
  keep key (err x) cache = (err x, cache)

  unfoldable pub get_or_make : K → Exec (List (K × A)) A
  get_or_make key cache = elim (lookup key cache) [
    | none ↦ keep key (make key) cache
    | some a ↦ (ok a, cache)
  ]

  -- Every value is what is made for its key.
  abbrev pub IsMade : List (K × A) → Type (ℓ ⊔ κ)
  IsMade [] = Unit
  IsMade ((k, a) ∷ cache) = (make k ≡ ok a) × IsMade cache

  lookup-IsMade :
      (key : K) (cache : List (K × A)) {a : A}
      → IsMade cache
      → lookup key cache ≡ some a
      → make key ≡ ok a
  lookup-IsMade key [] h found = ground arith
  lookup-IsMade key ((k, b) ∷ cache) {a = a} h found =
      ground (arith, h.0, lookup-IsMade key cache {a = a} h.1)

  keep-IsMade :
      (key : K) (made : Result A) (cache : List (K × A))
      → make key ≡ made
      → IsMade cache
      → ((keep key made cache).0 ≡ made) × IsMade (keep key made cache).1
  keep-IsMade key (ok a) cache e h = (refl, (e, h))
  keep-IsMade key (err x) cache e h = (refl, h)

  found_or_new :
      (key : K) (cache : List (K × A)) (found : Option A)
      → lookup key cache ≡ found
      → IsMade cache
      → ((get_or_make key cache).0 ≡ make key) × IsMade (get_or_make key cache).1
  unfolding get_or_make
  found_or_new key cache none e h = rw (e, get_or_make) (keep-IsMade key (make key) cache refl h)
  found_or_new key cache (some a) e h = rw (e, get_or_make) (sym (lookup-IsMade key cache h e), h)

  -- Where each value of the cache is what is made for its key, it gives what making the value would
  -- give, errors included, and is such a cache again.
  pub get_or_make-make :
      (key : K) (cache : List (K × A))
      → IsMade cache
      → ((get_or_make key cache).0 ≡ make key) × IsMade (get_or_make key cache).1
  get_or_make-make key cache h = found_or_new key cache (lookup key cache) refl h
